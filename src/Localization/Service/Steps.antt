-- ===== src/Localization/Service/Steps.antt =====
-- The localization service (rc_car/localization/localization_service.py) among the other parts of
-- the program: its handlers, and what others do to the vehicle in between, in any order.
use autonomous_rc_taxi.Prelude.{◌≡◌, String}
use autonomous_rc_taxi.Floats.{Double}
use autonomous_rc_taxi.Result.{ok, Lands-eq}
use autonomous_rc_taxi.Network.Policy.{Vehicle}
use autonomous_rc_taxi.Localization.Service.{
  ServiceSetup, LocalizationService, on_raw, on_disconnected, tick,
}
use autonomous_rc_taxi.Localization.Service.Kept.{
  IsKept, on_raw-Holds, tick-Holds, declare_lost-Holds,
}

module _ {F : Type 0} ⦃d : Double F⦄ where
  -- one handler of the service that returned, or a change of the vehicle that another part may make
  pub data Acts (k : ServiceSetup F) (Other : Vehicle F → Vehicle F → Type 0)
      : LocalizationService F → LocalizationService F → Type 0 where
    received_text :
        (raw : String) (now : F) (s t : LocalizationService F)
        → on_raw k raw now s ≡ ok t
        → Acts k Other s t
    server_gone : (s : LocalizationService F) → Acts k Other s (on_disconnected k s)
    ticked : (now : F) (s t : LocalizationService F) → tick k now s ≡ ok t → Acts k Other s t
    elsewhere :
        (v : Vehicle F) (s : LocalizationService F)
        → Other s.vehicle v
        → Acts k Other s (record s { vehicle = v })

  pub data Runs (k : ServiceSetup F) (Other : Vehicle F → Vehicle F → Type 0)
      : LocalizationService F → LocalizationService F → Type 0 where
    at_once : (s : LocalizationService F) → Runs k Other s s
    later : (s t u : LocalizationService F) → Runs k Other s t → Acts k Other t u → Runs k Other s u

module _ {F : Type 0} ⦃d : Double F⦄ (P : LocalizationService F → Type 0) (k : ServiceSetup F)
    (Other : Vehicle F → Vehicle F → Type 0) (kept : IsKept P k)
    (others : (s : LocalizationService F) (v : Vehicle F)
      → Other s.vehicle v
      → P s
      → P (record s { vehicle = v })) where
  Acts-Holds : (s t : LocalizationService F) → Acts k Other s t → P s → P t
  unfolding on_disconnected
  Acts-Holds s t (received_text raw now _ _ e) h =
      Lands-eq P (on_raw k raw now s) (on_raw-Holds P k kept raw now s h) e
  Acts-Holds s t (server_gone _) h = declare_lost-Holds P k kept s h
  Acts-Holds s t (ticked now _ _ e) h = Lands-eq P (tick k now s) (tick-Holds P k kept now s h) e
  Acts-Holds s t (elsewhere v _ o) h = others s v o h

  pub Runs-Holds : (s t : LocalizationService F) → Runs k Other s t → P s → P t
  Runs-Holds s t (at_once _) h = h
  Runs-Holds s t (later _ u _ before step) h = Acts-Holds u t step (Runs-Holds s u before h)
