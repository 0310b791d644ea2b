-- ===== src/Freezes/Steps.antt =====
-- What reading a freeze of lib/incidents.js does to the machine.
use open_vibe_host.Base.{String}
use open_vibe_host.Host.{Env, State}
use open_vibe_host.Host.Rules.{Allows, Steps, steps_rules}
use open_vibe_host.Inventory.{Inventory}
use open_vibe_host.Systemd.Classes.{IsPlain}
use open_vibe_host.Freezes.{frozen_by, frozen}

module _ {H : Type 0} (env : Env H) (inv : Inventory) {R : State H → State H → Type 0}
    (plain : Allows env IsPlain R) where
  frozen_by-Steps : (id : String) → Steps R (frozen_by env inv id)
  unfolding frozen_by
  frozen_by-Steps id = search (steps_rules, plain.pre, plain.each) depth 8

  pub frozen-Steps : (id : String) → Steps R (frozen env inv id)
  unfolding frozen
  frozen-Steps id = search (frozen_by-Steps, steps_rules, plain.pre) depth 8
