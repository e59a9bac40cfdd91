-- ===== src/Scanner/Config/Invariant.antt =====
-- The floors that every written scanner configuration keeps.
use graveyield_protocol.Prelude.{
  ℕ, ◌≤◌, ◌≡◌, ◌≤ℤ◌, pos, Bool, Option, none, some, ok, arith, ◌==◌, require_ok,
}
use graveyield_protocol.Scanner.Errors.{program, unauthorized}
use graveyield_protocol.Scanner.State.{ProtocolConfig}
use graveyield_protocol.Scanner.Config.{
  InitializeParams, UpdateProtocolConfigParams, initialize, apply_config_update,
  update_protocol_config, emergency_pause,
}

-- The sweep window is at least three epochs, and certificates live ten minutes or more.
pub record IsFloored (c : ProtocolConfig) : Type 0 where
  pub staleness : 518400 ≤ c.anchor_staleness_seconds
  pub ttl : pos 600 ≤ℤ c.cert_ttl_seconds

abbrev pub Floored : Option ProtocolConfig → Type 0
Floored none = Unit
Floored (some c) = IsFloored c

pub initialize-IsFloored :
    (bump : ℕ) (p : InitializeParams) (o : Option ProtocolConfig) (c : ProtocolConfig)
    → initialize bump p o ≡ ok c
    → IsFloored c
unfolding initialize
initialize-IsFloored bump p (some x) c h = absurd (cc)
initialize-IsFloored bump p none c h = record { staleness = ground arith; ttl = ground arith }

apply-IsFloored :
    (p : UpdateProtocolConfigParams) (old c : ProtocolConfig)
    → IsFloored old
    → apply_config_update p old ≡ ok c
    → IsFloored c
unfolding apply_config_update
apply-IsFloored p old c f h = record {
  staleness = ground (arith, f.staleness);
  ttl = ground (arith, f.ttl);
}

-- A successful update keeps the two floors.
pub update-IsFloored :
    (signer : ℕ) (p : UpdateProtocolConfigParams) (o : Option ProtocolConfig) (c : ProtocolConfig)
    → Floored o
    → update_protocol_config signer p o ≡ ok c
    → IsFloored c
unfolding update_protocol_config
update-IsFloored signer p none c f h = absurd (cc)
update-IsFloored signer p (some old) c f h =
    require_ok (old.authority == signer) (program unauthorized) _ h
      λ _ h1. apply-IsFloored p old c f h1

pub pause-IsFloored :
    (signer : ℕ) (paused : Bool) (o : Option ProtocolConfig) (c : ProtocolConfig)
    → Floored o
    → emergency_pause signer paused o ≡ ok c
    → IsFloored c
unfolding emergency_pause
pause-IsFloored signer paused none c f h = absurd (cc)
pause-IsFloored signer paused (some old) c f h = record {
  staleness = ground (arith, f.staleness);
  ttl = ground (arith, f.ttl);
}
