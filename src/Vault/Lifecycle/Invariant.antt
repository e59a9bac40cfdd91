-- ===== src/Vault/Lifecycle/Invariant.antt =====
-- What holds in every state that the vault can reach.
use graveyield_protocol.Prelude.{ℕ, ◌+◌, ◌≡◌, Bool, Option, none, some, arith, ok, bind_ok, Result}
use graveyield_protocol.Scanner.State.{EligibilityCert}
use graveyield_protocol.Vault.Errors.{VaultFailure}
use graveyield_protocol.Vault.State.{Clock, ProtocolConfig, PoolRegistry, SalvageReceipt, Vault}
use graveyield_protocol.Vault.Merkle.{Hash}
use graveyield_protocol.Vault.Cpi.{Invoke}
use graveyield_protocol.Vault.Claim.{ClaimLpProceedsParams, claim_lp_proceeds}
use graveyield_protocol.Vault.Salvage.Accounts.{SalvagePool, SalvagePoolParams, Runtime}
use graveyield_protocol.Vault.Salvage.Handler.{salvage_pool}
use graveyield_protocol.Vault.Dust.{Platform, SweepDust, SweepDustParams, sweep_dust}
use graveyield_protocol.Vault.Config.{
  UpdateProtocolConfigParams, initialize, update_protocol_config, emergency_pause,
}
use graveyield_protocol.Vault.Config.Invariant.{
  IsCharterValid, initialize-IsCharterValid, update_protocol_config-IsCharterValid,
  emergency_pause-IsCharterValid,
}
use graveyield_protocol.Vault.Claim.Conservation.{PoolSolvent, claim-Claimed, claim-PoolSolvent}
use graveyield_protocol.Vault.Salvage.Settlement.{new_registry, new_receipt}
use graveyield_protocol.Vault.Salvage.Conservation.{salvage-Salvaged, salvage-PoolSolvent}
use graveyield_protocol.Vault.Dust.Laws.{sweep_dust-Swept}
use graveyield_protocol.Vault.Lifecycle.{
  GraveVaultInstruction, initialize_protocol, update_config, pause, salvage, claim, sweep, process,
  Outside, instruction, outside, Steps, stay, then_step, IsGenesis,
}

-- A config that is there obeys the Charter.
abbrev pub ConfigValid : Option ProtocolConfig → Type 0
ConfigValid none = Unit
ConfigValid (some c) = IsCharterValid c

-- A registry goes with a receipt of the same pool total, whose three amounts are its proceeds.
abbrev pub Receipted : Option PoolRegistry → Option SalvageReceipt → Type 0
Receipted none o = Unit
Receipted (some r) none = ⊥
Receipted (some r) (some t) =
    (t.lp_holder_amount_lamports ≡ r.lp_holder_pool_total_lamports)
    × (t.salvor_amount_lamports + t.lp_holder_amount_lamports + t.protocol_amount_lamports
        ≡ t.total_proceeds_lamports)

pub record IsSafe (v : Vault) : Type 0 where
  pub config : ConfigValid v.config
  pub solvent : (q : ℕ) → PoolSolvent v q
  pub receipted : (q : ℕ) → Receipted (v.registries q) (v.receipts q)

genesis-IsSafe : (v : Vault) → IsGenesis v → IsSafe v
genesis-IsSafe v g = record {
  config = rw g.config tt;
  solvent = λ q. ground (arith, g.registries q, g.claims);
  receipted = λ q. rw (g.registries q) tt;
}

-- Only the config changed.
with_config-IsSafe :
    (v w : Vault) (c : ProtocolConfig)
    → IsSafe v
    → IsCharterValid c
    → Path (Result VaultFailure Vault) (ok (record v { config = some c })) (ok w)
    → IsSafe w
with_config-IsSafe v w c s valid e =
    let same : record v { config = some c } ≡ w = cc in
    rw (← same) (record { config = valid; solvent = s.solvent; receipted = s.receipted })

Outside-IsSafe : (v w : Vault) → IsSafe v → Outside v w → IsSafe w
Outside-IsSafe v w s o = record {
  config = rw o.config s.config;
  solvent = λ q. ground (arith, s.solvent q, o.registries, o.claims, o.lp_holder_pool q);
  receipted = λ q. rw (o.registries, o.receipts) (s.receipted q);
}

update-Valid :
    (signer : ℕ) (p : UpdateProtocolConfigParams) (o : Option ProtocolConfig) (c : ProtocolConfig)
    → ConfigValid o
    → update_protocol_config signer p o ≡ ok c
    → IsCharterValid c
unfolding update_protocol_config
update-Valid signer p none c s h = absurd (cc)
update-Valid signer p (some old) c s h =
    (update_protocol_config-IsCharterValid signer p old c s h).0

pause-Valid :
    (signer : ℕ) (paused : Bool) (o : Option ProtocolConfig) (c : ProtocolConfig)
    → ConfigValid o
    → emergency_pause signer paused o ≡ ok c
    → IsCharterValid c
unfolding emergency_pause
pause-Valid signer paused none c s h = absurd (cc)
pause-Valid signer paused (some old) c s h = emergency_pause-IsCharterValid signer paused old c s h

salvage-IsSafe :
    (invoke : Invoke) (rt : Runtime) (certs : ℕ → ℕ → Option EligibilityCert) (a : SalvagePool)
    (p : SalvagePoolParams) (v w : Vault)
    → IsSafe v
    → salvage_pool invoke rt certs a p v ≡ ok w
    → IsSafe w
unfolding new_registry new_receipt
salvage-IsSafe invoke rt certs a p v w s h =
    let d = salvage-Salvaged invoke rt certs a p v w h in
    record {
      config = rw d.config_kept s.config;
      solvent = salvage-PoolSolvent invoke rt certs a p v w h s.solvent;
      receipted = λ q. ground (
        arith,
        s.receipted q,
        d.settled.registries q,
        d.settled.receipts q,
        d.registries_kept,
        d.receipts_kept,
        d.settled.exhausted,
      );
    }

claim-IsSafe :
    (hash : Hash) (clock : Clock) (bump holder : ℕ) (p : ClaimLpProceedsParams) (v w : Vault)
    → IsSafe v
    → claim_lp_proceeds hash clock bump holder p v ≡ ok w
    → IsSafe w
claim-IsSafe hash clock bump holder p v w s h =
    let d = claim-Claimed hash clock bump holder p v w h in
    record {
      config = rw d.config s.config;
      solvent = claim-PoolSolvent hash clock bump holder p v w h s.solvent;
      receipted = λ q.
          ground
            (arith, s.receipted q, s.receipted p.pool_address, d.registries q, d.receipts, d.found);
    }

sweep-IsSafe :
    (invoke : Invoke) (platform : Platform) (clock : Clock) (a : SweepDust) (p : SweepDustParams)
    (v w : Vault)
    → IsSafe v
    → sweep_dust invoke platform clock a p v ≡ ok w
    → IsSafe w
sweep-IsSafe invoke platform clock a p v w s h =
    let d = sweep_dust-Swept invoke platform clock a p v w h in
    record {
      config = ground (arith, s.config, d.others);
      solvent = λ q. ground (arith, s.solvent q, d.others);
      receipted = λ q. ground (arith, s.receipted q, d.others, d.receipts q, d.found);
    }

process-IsSafe :
    (hash : Hash) (i : GraveVaultInstruction) (v w : Vault)
    → IsSafe v
    → process hash i v ≡ ok w
    → IsSafe w
unfolding process
process-IsSafe hash (initialize_protocol bump p) v w s h =
    bind_ok (initialize bump p v.config) _ h
      λ c fc e. with_config-IsSafe v w c s (initialize-IsCharterValid bump p v.config c fc) e
process-IsSafe hash (update_config signer p) v w s h =
    bind_ok (update_protocol_config signer p v.config) _ h
      λ c fc e. with_config-IsSafe v w c s (update-Valid signer p v.config c s.config fc) e
process-IsSafe hash (pause signer paused) v w s h =
    bind_ok (emergency_pause signer paused v.config) _ h
      λ c fc e. with_config-IsSafe v w c s (pause-Valid signer paused v.config c s.config fc) e
process-IsSafe hash (salvage invoke rt certs a p) v w s h =
    salvage-IsSafe invoke rt certs a p v w s h
process-IsSafe hash (claim clock bump holder p) v w s h =
    claim-IsSafe hash clock bump holder p v w s h
process-IsSafe hash (sweep invoke platform clock a p) v w s h =
    sweep-IsSafe invoke platform clock a p v w s h

-- In every state reached from genesis, by successful instructions with any accounts and parameters
-- and any behaviour of the called programs, mixed with transactions of other programs: the config
-- obeys the Charter; each pool's claimed total is what its claim records paid, is at most the
-- LP holders' total, and the rest is in the pool's account; and each registry has a receipt with
-- the same LP-holder total, whose three amounts sum to the proceeds.
pub Steps-IsSafe : (hash : Hash) (v w : Vault) → IsGenesis v → Steps hash v w → IsSafe w
Steps-IsSafe hash v w g (stay u) = genesis-IsSafe v g
Steps-IsSafe hash v w g (then_step {v = u} run (instruction i h)) =
    process-IsSafe hash i u w (Steps-IsSafe hash v u g run) h
Steps-IsSafe hash v w g (then_step {v = u} run (outside o)) =
    Outside-IsSafe u w (Steps-IsSafe hash v u g run) o
