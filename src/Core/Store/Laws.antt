-- ===== src/Core/Store/Laws.antt =====
-- What the store promises: recovering undoes entering the error.
use autonomous_rc_taxi.Prelude.{false, ◌≡◌, none, arith}
use autonomous_rc_taxi.Core.Enums.{error, is_error}
use autonomous_rc_taxi.Core.Models.{VehicleSnapshot}
use autonomous_rc_taxi.Core.Store.{set_driving_state, recover_previous_state}

module _ {F : Type 0} where
  -- From a snapshot that is not in ERROR and holds no state to come back to, entering ERROR once or
  -- twice and then recovering gives back exactly the snapshot before the error.
  pub recover-set_error :
      (s : VehicleSnapshot F)
      → is_error s.driving_state ≡ false
      → s.prev_state_for_recovery ≡ none
      → (recover_previous_state (set_driving_state s error) ≡ s)
        × (recover_previous_state (set_driving_state (set_driving_state s error) error) ≡ s)
  unfolding recover_previous_state set_driving_state
  recover-set_error s live kept = ground arith
