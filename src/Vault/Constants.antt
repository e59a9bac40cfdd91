-- ===== src/Vault/Constants.antt =====
-- programs/grave-vault/src/constants.rs. A key is the big-endian value of its 32 bytes, decoded
-- from the source's base58. Sizes, offsets, shares, ceilings and defaults are the source's.
use graveyield_protocol.Prelude.{ℕ, ℤ, pos, List, [], ◌∷◌}

abbrev pub protocol_share_bps_ceiling : ℕ
protocol_share_bps_ceiling = 2000

abbrev pub default_protocol_share_bps : ℕ
default_protocol_share_bps = 2000

abbrev pub default_lp_holder_share_bps : ℕ
default_lp_holder_share_bps = 4000

abbrev pub default_salvor_share_bps : ℕ
default_salvor_share_bps = 4000

abbrev pub bps_denominator : ℕ
bps_denominator = 10000

abbrev pub default_max_priority_fee_ceiling_lamports : ℕ
default_max_priority_fee_ceiling_lamports = 1000000000

abbrev pub default_max_slippage_bps : ℕ
default_max_slippage_bps = 300

abbrev pub hard_max_slippage_bps : ℕ
hard_max_slippage_bps = 1000

abbrev pub default_jupiter_dust_threshold_lamports : ℕ
default_jupiter_dust_threshold_lamports = 666666

abbrev pub default_timelock_seconds : ℤ
default_timelock_seconds = pos 259200

abbrev pub wsol_mint : ℕ
wsol_mint = 0x69b8857feab8184fb687f634618c035dac439dc1aeb3b5598a0f00000000001

abbrev pub raydium_v4_program_id : ℕ
raydium_v4_program_id = 0x4bd949c43602c33f207790ed16a3524ca1b9975cf121a2a90cffec7df8b68acd

abbrev pub raydium_v4_amm_authority : ℕ
raydium_v4_amm_authority = 0x4157b0580f31c5fce44a62582dbcf9d78ee75943a084a393b350368d22899308

abbrev pub raydium_clmm_program_id : ℕ
raydium_clmm_program_id = 0xa5d5ca9e04cf5db590b714ba2fe32cb159133fc1c192b72257fd07d39cb0401e

abbrev pub orca_whirlpool_program_id : ℕ
orca_whirlpool_program_id = 0xe03685f8e909053e458121c66f5a76aedc7706aa11c82f8aa952a8f2b7879a9

abbrev pub pump_swap_program_id : ℕ
pump_swap_program_id = 0x5c01c06e46f4190c7755e2c25ed0cd6b204441e1d128b79df6118292787613c

abbrev pub jupiter_v6_program_id : ℕ
jupiter_v6_program_id = 0x479d55bf231c06eee74c56ece681507fdb1b2dea3f48e5102b1cda256bc138f

abbrev pub raydium_v4_instruction_tag_withdraw : ℕ
raydium_v4_instruction_tag_withdraw = 4

abbrev pub raydium_v4_withdraw_remaining_accounts_required : ℕ
raydium_v4_withdraw_remaining_accounts_required = 13

abbrev pub raydium_v4_amm_info_size : ℕ
raydium_v4_amm_info_size = 752

abbrev pub raydium_v4_off_coin_mint : ℕ
raydium_v4_off_coin_mint = 400

abbrev pub raydium_v4_off_pc_mint : ℕ
raydium_v4_off_pc_mint = 432

abbrev pub raydium_v4_off_lp_mint : ℕ
raydium_v4_off_lp_mint = 464

-- `declare_id!`.
abbrev pub grave_vault_id : ℕ
grave_vault_id = 0x60911abaf06c9aa96ce43c46cdab604b916945144e417bb9f9552274d0ab7a51

-- "vault_authority" and "protocol_treasury".
abbrev pub vault_authority_seed : List ℕ
vault_authority_seed =
    118 ∷ 97 ∷ 117 ∷ 108 ∷ 116 ∷ 95 ∷ 97 ∷ 117 ∷ 116 ∷ 104 ∷ 111 ∷ 114 ∷ 105 ∷ 116 ∷ 121 ∷ []

abbrev pub protocol_treasury_seed : List ℕ
protocol_treasury_seed =
    112 ∷ 114 ∷ 111 ∷ 116 ∷ 111 ∷ 99 ∷ 111 ∷ 108 ∷ 95 ∷ 116 ∷ 114 ∷ 101 ∷ 97 ∷ 115 ∷ 117 ∷ 114 ∷ 121
    ∷ []
