-- ===== src/Vault/Lifecycle.antt =====
-- The vault over time: programs/grave-vault/src/lib.rs lists its six instructions, and a step is a
-- transaction with one of them that succeeds, or one of other programs.
pub mod Invariant
pub mod Custody
pub mod Payout
use graveyield_protocol.Prelude.{ℕ, ◌≤◌, ◌≡◌, Bool, Option, none, some, [], Result, ok, err, ◌>>=◌}
use graveyield_protocol.Scanner.State.{EligibilityCert}
use graveyield_protocol.Vault.Errors.{VaultFailure}
use graveyield_protocol.Vault.State.{Clock, Vault}
use graveyield_protocol.Vault.Config.{
  InitializeParams, UpdateProtocolConfigParams, initialize, update_protocol_config, emergency_pause,
}
use graveyield_protocol.Vault.Merkle.{Hash}
use graveyield_protocol.Vault.Claim.{ClaimLpProceedsParams, claim_lp_proceeds}
use graveyield_protocol.Vault.Cpi.{Invoke}
use graveyield_protocol.Vault.Salvage.Accounts.{SalvagePool, SalvagePoolParams, Runtime}
use graveyield_protocol.Vault.Salvage.Handler.{salvage_pool}
use graveyield_protocol.Vault.Dust.{Platform, SweepDust, SweepDustParams, sweep_dust}

-- The instructions with their accounts and parameters, and what surrounds each.
pub data GraveVaultInstruction : Type 0 where
  initialize_protocol : ℕ → InitializeParams → GraveVaultInstruction
  update_config : ℕ → UpdateProtocolConfigParams → GraveVaultInstruction
  pause : ℕ → Bool → GraveVaultInstruction
  salvage :
      Invoke
      → Runtime
      → (ℕ → ℕ → Option EligibilityCert)
      → SalvagePool
      → SalvagePoolParams
      → GraveVaultInstruction
  claim : Clock → ℕ → ℕ → ClaimLpProceedsParams → GraveVaultInstruction
  sweep : Invoke → Platform → Clock → SweepDust → SweepDustParams → GraveVaultInstruction

-- The entry points of the program.
unfoldable pub process : Hash → GraveVaultInstruction → Vault → Result VaultFailure Vault
process hash (initialize_protocol bump p) v =
    initialize bump p v.config >>= λ c. ok (record v { config = some c })
process hash (update_config signer p) v =
    update_protocol_config signer p v.config >>= λ c. ok (record v { config = some c })
process hash (pause signer paused) v =
    emergency_pause signer paused v.config >>= λ c. ok (record v { config = some c })
process hash (salvage invoke rt certs a p) v = salvage_pool invoke rt certs a p v
process hash (claim clock bump holder p) v = claim_lp_proceeds hash clock bump holder p v
process hash (sweep invoke platform clock a p) v = sweep_dust invoke platform clock a p v

-- A transaction of other programs changes no account that the vault owns, and cannot debit the
-- native-SOL accounts at addresses derived from the vault, whose keys only the vault signs for.
-- Tokens and wallets may change in any way.
pub record Outside (v w : Vault) : Type 0 where
  pub config : w.config ≡ v.config
  pub registries : w.registries ≡ v.registries
  pub receipts : w.receipts ≡ v.receipts
  pub claims : w.claims ≡ v.claims
  pub lp_holder_pool : (q : ℕ) → v.lp_holder_pool q ≤ w.lp_holder_pool q

pub data Step (hash : Hash) : Vault → Vault → Type 0 where
  instruction : (i : GraveVaultInstruction) {v w : Vault} → process hash i v ≡ ok w → Step hash v w
  outside : {v w : Vault} → Outside v w → Step hash v w

pub data Steps (hash : Hash) : Vault → Vault → Type 0 where
  stay : (v : Vault) → Steps hash v v
  then_step : {u v w : Vault} → Steps hash u v → Step hash v w → Steps hash u w

-- The chain before the program's first instruction; the lamports at its addresses are arbitrary.
pub record IsGenesis (v : Vault) : Type 0 where
  pub config : v.config ≡ none
  pub registries : (q : ℕ) → v.registries q ≡ none
  pub receipts : (q : ℕ) → v.receipts q ≡ none
  pub claims : v.claims ≡ []
