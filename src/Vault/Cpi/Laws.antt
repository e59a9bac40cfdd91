-- ===== src/Vault/Cpi/Laws.antt =====
-- What the two calls report, from the balances before and after them.
use graveyield_protocol.Prelude.{
  ℕ, ◌+◌, ◌<◌, ◌≡◌, refl, Bool, true, false, none, List, [], ◌∷◌, ◌++◌, map, replicate, get_elem?,
  le_bytes, some, arith, ltb, Table, ok, length, ◌==◌, ltb→lt, checked_sub, bind_ok, ok_or_ok,
  require_ok,
}
use graveyield_protocol.Vault.Errors.{
  program, amm_redemption_failed, math_overflow, jupiter_swap_failed, preflight_failed,
}
use graveyield_protocol.Vault.Constants.{raydium_v4_program_id, jupiter_v6_program_id}
use graveyield_protocol.Vault.Cpi.{
  AccountInfo, AccountMeta, Instruction, Invoke, RemoveLiquidityInput, RemoveLiquidityOutput,
  JupiterSwapInput,
}
use graveyield_protocol.Vault.Cpi.Raydium.{
  user_accounts, withdraw_metas, withdraw_instruction, withdraw_checks, remove_liquidity,
  dispatch_remove_liquidity,
}
use graveyield_protocol.Vault.Cpi.Jupiter.{swap_instruction, swap}

-- The key of the account at an index.
abbrev pub nth_key : List AccountInfo → ℕ → ℕ
nth_key accounts n = elim (get_elem? accounts n) [ none ↦ 0 | some a ↦ a.key ]

abbrev keys : List AccountMeta → List ℕ
keys = map (λ m. m.pubkey)

abbrev signers : List AccountMeta → List Bool
signers = map (λ m. m.is_signer)

abbrev writables : List AccountMeta → List Bool
writables = map (λ m. m.is_writable)

-- Raydium V4's withdraw of an input's amount: the bytes, the 22 accounts in their order, of which
-- the owner of the LP tokens alone signs, and the accounts that the two sides are paid into.
pub record IsWithdraw (i : RemoveLiquidityInput) (ix : Instruction) : Type 0 where
  pub coin_to : ℕ
  pub pc_to : ℕ
  pub program : ix.program_id ≡ raydium_v4_program_id
  pub bytes : ix.payload ≡ 4 ∷ le_bytes 8 i.lp_amount
  pub base_is_coin :
      i.base_is_coin_side ≡ true
      → (coin_to ≡ i.vault_base_token_account) × (pc_to ≡ i.vault_memecoin_token_account)
  pub base_is_pc :
      i.base_is_coin_side ≡ false
      → (coin_to ≡ i.vault_memecoin_token_account) × (pc_to ≡ i.vault_base_token_account)
  pub accounts : keys ix.accounts ≡ (
      i.token_program
      ∷ i.pool.key
      ∷ nth_key i.remaining_accounts 0
      ∷ nth_key i.remaining_accounts 1
      ∷ nth_key i.remaining_accounts 2
      ∷ i.lp_mint
      ∷ nth_key i.remaining_accounts 3
      ∷ nth_key i.remaining_accounts 4
      ∷ i.pool.key
      ∷ i.pool.key
      ∷ nth_key i.remaining_accounts 5
      ∷ nth_key i.remaining_accounts 6
      ∷ nth_key i.remaining_accounts 7
      ∷ nth_key i.remaining_accounts 8
      ∷ nth_key i.remaining_accounts 9
      ∷ i.user_lp_token_account
      ∷ coin_to
      ∷ pc_to
      ∷ i.user_owner
      ∷ nth_key i.remaining_accounts 10
      ∷ nth_key i.remaining_accounts 11
      ∷ nth_key i.remaining_accounts 12
      ∷ [])
  pub signed : signers ix.accounts ≡ replicate 18 false ++ (true ∷ replicate 3 false)
  pub written : writables ix.accounts ≡ (
      false
      ∷ true
      ∷ false
      ∷ (replicate 7 true ++ (false ∷ true ∷ true ∷ true ∷ false ∷ replicate 7 true)))

withdraw_instruction-IsWithdraw : (i : RemoveLiquidityInput) → IsWithdraw i (withdraw_instruction i)
unfolding withdraw_instruction withdraw_metas user_accounts
withdraw_instruction-IsWithdraw i = record {
  coin_to = (user_accounts i).0;
  pc_to = (user_accounts i).1;
  program = refl;
  bytes = refl;
  base_is_coin = λ e. rw e (refl, refl);
  base_is_pc = λ e. rw e (refl, refl);
  accounts = refl;
  signed = refl;
  written = refl;
}

-- What a withdraw reports, as the comment at `dispatch_remove_liquidity-Withdrawn` says.
pub record Withdrawn (invoke : Invoke) (i : RemoveLiquidityInput) (tokens after : Table ℕ)
    (out : RemoveLiquidityOutput) : Type 0 where
  pub base_before : ℕ
  pub memecoin_before : ℕ
  pub owner : i.pool.owner ≡ raydium_v4_program_id
  pub thirteen : length i.remaining_accounts ≡ 13
  pub sent : Instruction
  pub is_withdraw : IsWithdraw i sent
  pub invoked : invoke sent tokens ≡ some after
  pub base_pre : tokens i.vault_base_token_account ≡ some base_before
  pub memecoin_pre : tokens i.vault_memecoin_token_account ≡ some memecoin_before
  pub base_post : after i.vault_base_token_account ≡ some (base_before + out.base_received)
  pub memecoin_post :
      after i.vault_memecoin_token_account ≡ some (memecoin_before + out.memecoin_received)
  pub some_base : 0 < out.base_received

withdraw_checks-length :
    (i : RemoveLiquidityInput) → withdraw_checks i ≡ ok tt → length i.remaining_accounts ≡ 13
unfolding withdraw_checks
withdraw_checks-length i h = ground arith

checked_sub-some : (a b c : ℕ) → checked_sub a b ≡ some c → a ≡ b + c
checked_sub-some a b c h = ground arith

remove_liquidity-Withdrawn :
    (invoke : Invoke) (i : RemoveLiquidityInput) (tokens after : Table ℕ)
    (out : RemoveLiquidityOutput)
    → i.pool.owner ≡ raydium_v4_program_id
    → remove_liquidity invoke i tokens ≡ ok (out, after)
    → Withdrawn invoke i tokens after out
unfolding remove_liquidity
remove_liquidity-Withdrawn invoke i tokens after out owner h =
    bind_ok (withdraw_checks i) _ h λ _ checked h1.
      ok_or_ok (tokens i.vault_base_token_account) (program amm_redemption_failed) _ h1 λ b fb h2.
        ok_or_ok (tokens i.vault_memecoin_token_account) (program amm_redemption_failed) _ h2
          λ m fm h3.
            ok_or_ok (invoke (withdraw_instruction i) tokens) (program amm_redemption_failed) _ h3
              λ t ft h4.
                ok_or_ok (t i.vault_base_token_account) (program amm_redemption_failed) _ h4
                  λ b' fb' h5.
                    ok_or_ok (t i.vault_memecoin_token_account) (program amm_redemption_failed) _ h5
                      λ m' fm' h6.
                        ok_or_ok (checked_sub b' b) (program math_overflow) _ h6 λ db fdb h7.
                          ok_or_ok (checked_sub m' m) (program math_overflow) _ h7 λ dm fdm h8.
                            require_ok (ltb 0 db) (program amm_redemption_failed) _ h8
                              λ positive h9. record {
                                base_before = b;
                                memecoin_before = m;
                                owner = owner;
                                thirteen = withdraw_checks-length i checked;
                                sent = withdraw_instruction i;
                                is_withdraw = withdraw_instruction-IsWithdraw i;
                                invoked = cc;
                                base_pre = fb;
                                memecoin_pre = fm;
                                base_post = cc (fb', checked_sub-some b' b db fdb);
                                memecoin_post = cc (fm', checked_sub-some m' m dm fdm);
                                some_base = ground (arith, ltb→lt 0 db positive);
                              }

-- A removal of liquidity that succeeds is of a pool that Raydium V4 owns, with 13 further
-- accounts, and has called the Raydium V4 program once, with its withdraw of the input's amount:
-- tag and amount as bytes; the 22 accounts in their order and with their flags, of which the LP
-- tokens' owner alone signs; the base side paid into the vault's base account and the other into
-- its memecoin account. What it reports for each side is exactly the growth of the vault's token
-- account over the call, and the base side has grown.
pub dispatch_remove_liquidity-Withdrawn :
    (invoke : Invoke) (i : RemoveLiquidityInput) (tokens after : Table ℕ)
    (out : RemoveLiquidityOutput)
    → dispatch_remove_liquidity invoke i tokens ≡ ok (out, after)
    → Withdrawn invoke i tokens after out
unfolding dispatch_remove_liquidity
dispatch_remove_liquidity-Withdrawn invoke i tokens after out h =
    let owner : i.pool.owner ≡ raydium_v4_program_id = ground arith in
    let removed : remove_liquidity invoke i tokens ≡ ok (out, after) = ground (arith, owner) in
    remove_liquidity-Withdrawn invoke i tokens after out owner removed

-- A swap that succeeds has called the Jupiter program once, with the route forwarded as given and
-- the authority marked as signer, and reports exactly the growth of the destination account.
pub swap_reports :
    (invoke : Invoke) (i : JupiterSwapInput) (tokens after : Table ℕ) (output : ℕ)
    → swap invoke i tokens ≡ ok (output, after)
    → (pre : ℕ) × (invoke (swap_instruction i) tokens ≡ some after)
      × (tokens i.destination_token_account ≡ some pre)
      × (after i.destination_token_account ≡ some (pre + output))
unfolding swap
swap_reports invoke i tokens after output h =
    require_ok (ltb 0 (length i.route_data)) (program jupiter_swap_failed) _ h λ _ h1.
      require_ok (i.jupiter_program == jupiter_v6_program_id) (program preflight_failed) _ h1
        λ _ h2.
          ok_or_ok (tokens i.destination_token_account) (program jupiter_swap_failed) _ h2
            λ pre fp h3.
              ok_or_ok (invoke (swap_instruction i) tokens) (program jupiter_swap_failed) _ h3
                λ t ft h4.
                  ok_or_ok (t i.destination_token_account) (program jupiter_swap_failed) _ h4
                    λ post fq h5.
                      ok_or_ok (checked_sub post pre) (program math_overflow) _ h5
                        λ out fo h6. (pre, cc, fp, cc (checked_sub-some post pre out fo))
