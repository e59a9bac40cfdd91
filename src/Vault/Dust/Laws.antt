-- ===== src/Vault/Dust/Laws.antt =====
-- A sweep moves the retained memecoin to the treasury's account, once, and touches no lamports.
use graveyield_protocol.Prelude.{
  ℕ, ◌<◌, ◌≡◌, ◌≢◌, true, false, some, [], ◌∷◌, ==→eq, require_ok, le_bytes, arith, ℤ, pos, negsuc,
  eqb_ℤ, ◌==◌, if◌then◌else◌, Table, ok, bind_ok, ok_or_ok,
}
use graveyield_protocol.Vault.Errors.{account_not_initialized, runtime}
use graveyield_protocol.Vault.State.{SalvageReceipt, Clock, Vault}
use graveyield_protocol.Vault.Constants.{
  grave_vault_id, vault_authority_seed, protocol_treasury_seed,
}
use graveyield_protocol.Vault.Cpi.{Instruction, Invoke}
use graveyield_protocol.Vault.Salvage.Handler.{init_if_needed}
use graveyield_protocol.Vault.Dust.{
  Platform, SweepDust, SweepDustParams, transfer_instruction, close_instruction, sweep_constraints,
  sweep_checks, sweep_dust,
}

-- The token program's transfer and closing of an account, which the authority signs: the accounts,
-- with their flags, and the bytes.
abbrev pub token_transfer : ℕ → ℕ → ℕ → ℕ → ℕ → Instruction
token_transfer token_program from to authority amount = record {
  program_id = token_program;
  accounts =
      record { pubkey = from; is_signer = false; is_writable = true }
      ∷ record { pubkey = to; is_signer = false; is_writable = true }
      ∷ record { pubkey = authority; is_signer = true; is_writable = false }
      ∷ [];
  payload = 3 ∷ le_bytes 8 amount;
}

abbrev pub token_close : ℕ → ℕ → ℕ → ℕ → Instruction
token_close token_program account to authority = record {
  program_id = token_program;
  accounts =
      record { pubkey = account; is_signer = false; is_writable = true }
      ∷ record { pubkey = to; is_signer = false; is_writable = true }
      ∷ record { pubkey = authority; is_signer = true; is_writable = false }
      ∷ [];
  payload = 9 ∷ [];
}

-- What a sweep did, as the comment at `sweep_dust-Swept` says.
pub record Swept (invoke : Invoke) (platform : Platform) (clock : Clock) (a : SweepDust)
    (p : SweepDustParams) (v w : Vault) : Type 0 where
  pub receipt : SalvageReceipt
  pub dust : ℕ
  pub moved : Table ℕ
  pub found : v.receipts p.pool_address ≡ some receipt
  pub balance : v.tokens a.vault_memecoin_token_account ≡ some dust
  pub some_dust : 0 < dust
  pub first : receipt.dust_swept_at_ts ≡ pos 0
  pub token_program : a.token_program ≡ platform.token_program_id
  pub authority :
      a.vault_authority ≡ platform.find_program_address (vault_authority_seed ∷ []) grave_vault_id
  pub treasury :
      a.protocol_treasury
      ≡ platform.find_program_address (protocol_treasury_seed ∷ []) grave_vault_id
  pub from_vault :
      a.vault_memecoin_token_account ≡ platform.ata a.vault_authority receipt.memecoin_mint
  pub to_treasury :
      a.protocol_treasury_token_account ≡ platform.ata a.protocol_treasury receipt.memecoin_mint
  pub transferred :
      invoke
        (token_transfer a.token_program a.vault_memecoin_token_account
          a.protocol_treasury_token_account a.vault_authority dust)
        (init_if_needed a.protocol_treasury_token_account v.tokens)
      ≡ some moved
  pub closed :
      invoke
        (token_close a.token_program a.vault_memecoin_token_account a.sweeper a.vault_authority)
        moved
      ≡ some w.tokens
  pub others : w ≡ record v { tokens = w.tokens; receipts = w.receipts }
  pub receipts :
      (q : ℕ)
      → w.receipts q ≡ (
          if q == p.pool_address
          then some (record receipt { dust_swept_at_ts = clock.unix_timestamp })
          else v.receipts q)

-- What the account constraints leave.
record Pinned (platform : Platform) (a : SweepDust) : Type 0 where
  token_program : a.token_program ≡ platform.token_program_id
  authority :
      a.vault_authority ≡ platform.find_program_address (vault_authority_seed ∷ []) grave_vault_id
  treasury :
      a.protocol_treasury
      ≡ platform.find_program_address (protocol_treasury_seed ∷ []) grave_vault_id
  vault_account : a.vault_memecoin_token_account ≡ platform.ata a.vault_authority a.memecoin_mint
  treasury_account :
      a.protocol_treasury_token_account ≡ platform.ata a.protocol_treasury a.memecoin_mint

sweep_constraints-Pinned :
    (platform : Platform) (a : SweepDust) → sweep_constraints platform a ≡ ok tt → Pinned platform a
unfolding sweep_constraints
sweep_constraints-Pinned platform a h = require_ok _ _ _ h λ c1 h1. require_ok _ _ _ h1 λ c2 h2.
    require_ok _ _ _ h2 λ c3 h3. require_ok _ _ _ h3 λ c4 h4. record {
      token_program = ==→eq _ _ c1;
      authority = ==→eq _ _ c2;
      treasury = ==→eq _ _ c4;
      vault_account = ==→eq _ _ c3;
      treasury_account = ground (arith, h4);
    }

zero_stamp : (t : ℤ) → eqb_ℤ t (pos 0) ≡ true → t ≡ pos 0
zero_stamp (pos n) h = ground arith
zero_stamp (negsuc n) h = absurd (ground arith)

sweep_checks-eq-ok :
    (a : SweepDust) (r : SalvageReceipt) (dust : ℕ)
    → sweep_checks a r dust ≡ ok tt
    → (a.memecoin_mint ≡ r.memecoin_mint) × (r.dust_swept_at_ts ≡ pos 0) × (0 < dust)
unfolding sweep_checks
sweep_checks-eq-ok a r dust h =
    let stamp : eqb_ℤ r.dust_swept_at_ts (pos 0) ≡ true = ground arith in
    (ground arith, zero_stamp r.dust_swept_at_ts stamp, ground arith)

pub sweep_dust-Swept :
    (invoke : Invoke) (platform : Platform) (clock : Clock) (a : SweepDust) (p : SweepDustParams)
    (v w : Vault)
    → sweep_dust invoke platform clock a p v ≡ ok w
    → Swept invoke platform clock a p v w
unfolding sweep_dust transfer_instruction close_instruction
sweep_dust-Swept invoke platform clock a p v w h =
    ok_or_ok (v.receipts p.pool_address) account_not_initialized _ h λ r fr h1.
      ok_or_ok (v.tokens a.vault_memecoin_token_account) account_not_initialized _ h1 λ dust fd h2.
        bind_ok (sweep_constraints platform a) _ h2 λ _ pinned h3.
          bind_ok (sweep_checks a r dust) _ h3 λ _ checked h4.
            ok_or_ok
              (invoke (transfer_instruction a dust)
                (init_if_needed a.protocol_treasury_token_account v.tokens))
              runtime _ h4
              λ moved fm h5.
                ok_or_ok (invoke (close_instruction a) moved) runtime _ h5 λ closed fc h6.
                  let accounts = sweep_constraints-Pinned platform a pinned in
                  let facts = sweep_checks-eq-ok a r dust checked in
                  record {
                    receipt = r;
                    dust = dust;
                    moved = moved;
                    found = fr;
                    balance = fd;
                    some_dust = facts.2;
                    first = facts.1;
                    token_program = accounts.token_program;
                    authority = accounts.authority;
                    treasury = accounts.treasury;
                    from_vault = cc (accounts.vault_account, facts.0);
                    to_treasury = cc (accounts.treasury_account, facts.0);
                    transferred = fm;
                    closed = ground (arith, fc);
                    others = ground arith;
                    receipts = λ q. ground arith;
                  }

-- After a successful sweep at a time other than 0 a second sweep of the pool fails, whoever
-- submits it and whatever accounts it names.
pub sweep_once :
    (invoke invoke' : Invoke) (platform platform' : Platform) (clock clock' : Clock)
    (a a' : SweepDust) (p p' : SweepDustParams) (v w w' : Vault)
    → sweep_dust invoke platform clock a p v ≡ ok w
    → clock.unix_timestamp ≢ pos 0
    → p'.pool_address ≡ p.pool_address
    → sweep_dust invoke' platform' clock' a' p' w ≢ ok w'
sweep_once invoke invoke' platform platform' clock clock' a a' p p' v w w' h later same again =
    let s = sweep_dust-Swept invoke platform clock a p v w h in
    let t = sweep_dust-Swept invoke' platform' clock' a' p' w w' again in
    let stamped = s.receipts p'.pool_address in ground (arith, stamped, t.found, t.first, same)
