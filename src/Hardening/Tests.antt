-- ===== src/Hardening/Tests.antt =====
-- One advisor and the cache are down; then the chain as well.
use xander.Prelude.{◌≡◌, false, [], ◌∷◌}
use xander.Hardening.Dependencies.{can_authorize_without}
use xander.Hardening.Dependencies.Laws.{may_authorize, can_authorize_without-all}

chain_down : may_authorize (can_authorize_without ("REDIS" ∷ "ENS_RPC" ∷ [])) ≡ false
chain_down = can_authorize_without-all ("REDIS" ∷ "ENS_RPC" ∷ [])
