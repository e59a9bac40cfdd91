-- ===== src/Vault/Config/Invariant.antt =====
-- What every written vault configuration satisfies, and who may write one.
use graveyield_protocol.Prelude.{ℕ, ◌≤◌, ◌≡◌, Bool, not, Option, none, some, ok, err, arith}
use graveyield_protocol.Vault.Errors.{program, unauthorized, invariant_violation}
use graveyield_protocol.Vault.State.{ProtocolConfig}
use graveyield_protocol.Vault.Config.{
  InitializeParams, UpdateProtocolConfigParams, share_total, initialize, update_protocol_config,
  emergency_pause,
}

-- The Charter's two rules: the protocol's share is at most 20%, and the shares make up the whole.
pub record IsCharterValid (c : ProtocolConfig) : Type 0 where
  pub ceiling : c.protocol_share_bps ≤ 2000
  pub whole : share_total c ≡ 10000

-- A configuration that `initialize` writes obeys the Charter, whatever its parameters.
pub initialize-IsCharterValid :
    (bump : ℕ) (p : InitializeParams) (old : Option ProtocolConfig) (c : ProtocolConfig)
    → initialize bump p old ≡ ok c
    → IsCharterValid c
unfolding initialize
initialize-IsCharterValid bump p (some o) c h = ground arith
initialize-IsCharterValid bump p none c h = ground arith

-- A successful update was signed by the authority, keeps the Charter's rules, and leaves the
-- authority, the pending rotation and the pause flag alone.
pub update_protocol_config-IsCharterValid :
    (signer : ℕ) (p : UpdateProtocolConfigParams) (old c : ProtocolConfig)
    → IsCharterValid old
    → update_protocol_config signer p (some old) ≡ ok c
    → IsCharterValid c
      × (old.authority ≡ signer)
      × (c.authority ≡ old.authority)
      × (c.pending_authority ≡ old.pending_authority)
      × (c.pending_authority_eta ≡ old.pending_authority_eta)
      × (c.emergency_paused ≡ old.emergency_paused)
unfolding update_protocol_config
update_protocol_config-IsCharterValid signer p old c v h = ground arith

pub emergency_pause-IsCharterValid :
    (signer : ℕ) (paused : Bool) (old c : ProtocolConfig)
    → IsCharterValid old
    → emergency_pause signer paused (some old) ≡ ok c
    → IsCharterValid c
unfolding emergency_pause
emergency_pause-IsCharterValid signer paused old c v h = ground arith

-- The pause flag is toggled by the authority alone and only when it changes: from any state the
-- authority's toggle to the other value succeeds and changes that field only, the same toggle
-- again is refused, and any other signer is refused.
pub emergency_pause_toggles :
    (signer : ℕ) (c : ProtocolConfig)
    → (c.authority ≡ signer
        → (emergency_pause signer (not c.emergency_paused) (some c)
            ≡ ok (record c { emergency_paused = not c.emergency_paused }))
          × (emergency_pause signer c.emergency_paused (some c)
              ≡ err (program invariant_violation)))
      × (¬ (c.authority ≡ signer)
          → (paused : Bool) → emergency_pause signer paused (some c) ≡ err (program unauthorized))
unfolding emergency_pause
emergency_pause_toggles signer c = (λ h. (ground arith, ground arith), λ h paused. ground arith)
