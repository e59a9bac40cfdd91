-- ===== src/Scanner/Pools/Evidenced.antt =====
-- What stands behind a certificate: the evidence that the second phase has taken from the
-- attestation, the pool adapter and the locker adapter.
use graveyield_protocol.Prelude.{
  ℕ, ◌≡◌, ◌==◌, ◌&&◌, both_eq, Option, some, List, refl, ok, bind_ok, require_ok,
}
use mathlib.Core.Path.{subst}
use graveyield_protocol.Vault.State.{Clock}
use graveyield_protocol.Scanner.State.{ProtocolConfig, LaunchPrice}
use graveyield_protocol.Scanner.Attestation.{ix_data_msg_offset, attestation_msg_len}
use graveyield_protocol.Scanner.Attestation.LastSwap.{
  AttestationRef, IsAttested, message_last_swap_unix_ts, verify_last_swap_attestation,
}
use graveyield_protocol.Scanner.Attestation.Signed.{
  RuntimeChecks, SignedOrForeign, verify_last_swap_attestation-OracleSigned,
}
use graveyield_protocol.Scanner.Adapters.{PoolData, current_price_q64x64}
use graveyield_protocol.Scanner.Adapters.RaydiumV4.{raydium_v4_id, IsBacked}
use graveyield_protocol.Scanner.Adapters.Dispatch.{extract_pool_data, extract_pool_data-IsBacked}
use graveyield_protocol.Scanner.Adapters.Locker.{FindProgramAddress, locked_lp_amount}
use graveyield_protocol.Scanner.Adapters.Locker.Refinement.{
  IsLockerEvidence, locked_lp_amount_iff_IsLockerEvidence,
}
use graveyield_protocol.Scanner.Criteria.{CriteriaInputs}
use graveyield_protocol.Scanner.Pools.{Scanner, Evidence, criteria_inputs, evaluate_pool_phase2}
use graveyield_protocol.Scanner.Pools.Effects.{Certified, phase2-Certified}

module _ (Verified : List ℕ → List ℕ → List ℕ → Type 0) (pda : FindProgramAddress) where
  -- The evidence behind the inputs of a phase, as the comment at `phase2-Evidenced` says.
  pub record Evidenced (clock : Clock) (cfg : ProtocolConfig) (launch : LaunchPrice) (amm pool : ℕ)
      (e : Evidence) (i : CriteriaInputs) : Type 0 where
    pub pool_data : PoolData
    pub slot_hashes : List ℕ
    pub hashes_read : e.sysvars.slot_hashes_data ≡ some slot_hashes
    pub signed :
        SignedOrForeign Verified e.sysvars cfg.activity_oracle ix_data_msg_offset
          attestation_msg_len e.msg
    pub attested : IsAttested e.msg amm pool clock.unix_timestamp clock.slot slot_hashes
    pub last_swap : i.last_swap_unix_ts ≡ message_last_swap_unix_ts e.msg
    pub at_pool : e.pool_account.key ≡ pool
    pub owned : e.pool_account.owner ≡ raydium_v4_id
    pub backed : IsBacked e.pool_account e.remaining_accounts pool_data
    pub base : launch.base_mint ≡ pool_data.base_mint
    pub quote : launch.quote_mint ≡ pool_data.quote_mint
    pub tvl : i.current_tvl_lamports ≡ pool_data.quote_reserve
    pub supply : i.lp_supply ≡ pool_data.lp_supply
    pub price : current_price_q64x64 pool_data ≡ ok i.current_price_q64x64
    pub launch_price : i.launch_price_q64x64 ≡ launch.launch_price_q64x64
    pub locked : IsLockerEvidence pda pool_data.lp_mint pool e.remaining_accounts i.lp_locked_amount

  criteria_inputs-Evidenced :
      (clock : Clock) (cfg : ProtocolConfig) (launch : LaunchPrice) (epoch : Option ℕ)
      (amm pool : ℕ) (e : Evidence) (i : CriteriaInputs)
      → RuntimeChecks Verified e.sysvars
      → criteria_inputs pda clock cfg launch epoch amm pool e ≡ ok i
      → Evidenced clock cfg launch amm pool e i
  unfolding criteria_inputs
  criteria_inputs-Evidenced clock cfg launch epoch amm pool e i runtime h =
      let att : AttestationRef = record {
        msg = e.msg;
        amm_program_id = amm;
        pool_address = pool;
        oracle = cfg.activity_oracle;
      } in
      bind_ok (verify_last_swap_attestation e.sysvars att clock.unix_timestamp clock.slot) _ h
        λ ts ft h1.
          bind_ok (extract_pool_data e.pool_account pool e.remaining_accounts) _ h1 λ d fd h2.
            require_ok (launch.base_mint == d.base_mint && launch.quote_mint == d.quote_mint) _ _ h2
              λ c h3.
                bind_ok (locked_lp_amount pda d.lp_mint pool e.remaining_accounts) _ h3 λ n fn h4.
                  bind_ok (current_price_q64x64 d) _ h4 λ x fx h5.
                    let (signed, same, (hashes, read, attested)) =
                      verify_last_swap_attestation-OracleSigned Verified e.sysvars att
                        clock.unix_timestamp clock.slot ts runtime ft in
                    let (at_pool, owned, backed) =
                      extract_pool_data-IsBacked e.pool_account pool e.remaining_accounts d fd in
                    let made : Path CriteriaInputs
                        (record {
                          last_swap_unix_ts = ts;
                          current_unix_ts = clock.unix_timestamp;
                          launch_price_q64x64 = launch.launch_price_q64x64;
                          current_price_q64x64 = x;
                          current_tvl_lamports = d.quote_reserve;
                          lp_supply = d.lp_supply;
                          lp_locked_amount = n;
                          current_epoch = clock.epoch;
                          anchor_first_eligible_epoch = epoch;
                        })
                        i =
                      cc in
                    subst (Evidenced clock cfg launch amm pool e) made (record {
                      pool_data = d;
                      slot_hashes = hashes;
                      hashes_read = read;
                      signed = signed;
                      attested = attested;
                      last_swap = same;
                      at_pool = at_pool;
                      owned = owned;
                      backed = backed;
                      base =
                          (both_eq launch.base_mint d.base_mint launch.quote_mint d.quote_mint c).0;
                      quote =
                          (both_eq launch.base_mint d.base_mint launch.quote_mint d.quote_mint c).1;
                      tvl = refl;
                      supply = refl;
                      price = fx;
                      launch_price = refl;
                      locked =
                          (locked_lp_amount_iff_IsLockerEvidence pda d.lp_mint pool
                              e.remaining_accounts n).0
                            fn;
                    })

  -- Where the runtime runs the precompile as documented: behind a successful second phase stands a
  -- message for this AMM and pool, which gives the last swap, not in the future, and whose fork's
  -- slot has its hash in the sysvar's slot hashes; a pool account of the legacy Raydium AMM at the
  -- pool's address, whose reserves and LP supply submitted token accounts back, with the mints of
  -- the recorded launch price; and the locker's evidence for the pool's LP mint. The inputs that meet
  -- all six criteria are these. The config's activity oracle signed the message, or the program runs
  -- inside a call and that oracle signed other bytes, which stand at the message's place in the data
  -- of the transaction's current instruction.
  pub phase2-Evidenced :
      (clock : Clock) (bump writer amm pool : ℕ) (e : Evidence) (s u : Scanner)
      → RuntimeChecks Verified e.sysvars
      → evaluate_pool_phase2 pda clock bump writer amm pool e s ≡ ok u
      → (c : Certified pda clock bump writer amm pool e s u) × Evidenced clock c.cfg c.launch amm
          pool e c.inputs
  phase2-Evidenced clock bump writer amm pool e s u runtime h =
      let c = phase2-Certified pda clock bump writer amm pool e s u h in
      (
        c,
        criteria_inputs-Evidenced clock c.cfg c.launch (some c.anchor.first_eligible_epoch) amm pool
            e c.inputs runtime c.observed,
      )
