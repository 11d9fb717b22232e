-- ===== src/Control/Compute/Ready.antt =====
-- What the state of rc_car/control/lane_follower.py and the route it drives satisfy between two calls,
-- and the configurations that drive.
use Prim.Native.Nat.{◌+◌ as plus}
use autonomous_rc_taxi.Prelude.{
  ℕ, suc, ◌≤◌, ◌<◌, ◌≡◌, true, false, Option, none, some, List, ◌∷◌, length, All,
}
use autonomous_rc_taxi.Floats.{Double, nought}
use autonomous_rc_taxi.Floats.Laws.{◌≼◌, IsNumber}
use autonomous_rc_taxi.Mapping.Geometry.{Point}
use autonomous_rc_taxi.Navigation.LaneRoute.{LaneLeg, LaneRoute}
use autonomous_rc_taxi.Navigation.TurnTable.{ResolvedTurn}
use autonomous_rc_taxi.Control.Follower.{
  LaneFollower, FollowerConfig, Phase, follow, armed, turning,
}
use autonomous_rc_taxi.Core.Models.{ControlCommand}
use autonomous_rc_taxi.Control.Corner.{Stage, answer, drive_on}
use autonomous_rc_taxi.Control.Steer.Bounds.{Within, WithinIfAny}

module _ {F : Type 0} where
  -- a leg has a point
  abbrev pub Pointed : LaneLeg F → Type 0
  Pointed l = (a : Point F) × (rest : List (Point F)) × (l.points ≡ a ∷ rest)

  -- every leg has a point, and there is one turn between each two legs
  abbrev pub IsDrivable : LaneRoute F → Type 0
  IsDrivable r = All Pointed r.legs × (suc (length r.turns) ≡ length r.legs)

  -- a turn that is driven is known, and ends on a leg of the route
  abbrev pub TurnReady : LaneRoute F → ℕ → Phase → Option (ResolvedTurn F) → ℕ → Type 0
  TurnReady r leg follow spec span = Unit
  TurnReady r leg armed spec span = Unit
  TurnReady r leg turning spec span =
      ((t : ResolvedTurn F) × (spec ≡ some t)) × (1 ≤ span) × (plus leg span < length r.legs)

module _ {F : Type 0} ⦃d : Double F⦄ where
  abbrev pub SpecWithin : F → Option (ResolvedTurn F) → Type 0
  SpecWithin m none = Unit
  SpecWithin m (some t) = Within m t.wheel_deg

  -- the fields that the property is about, one by one
  abbrev pub Ready :
      F
      → LaneRoute F
      → ℕ
      → Phase
      → Option (ResolvedTurn F)
      → ℕ
      → Option F
      → Option (LaneRoute F)
      → Type 0
  Ready m r leg phase spec span wheel route =
      (leg < length r.legs)
      × TurnReady r leg phase spec span
      × SpecWithin m spec
      × WithinIfAny m wheel
      × (route ≡ some r)

  abbrev pub IsReady : F → LaneRoute F → LaneFollower F → Type 0
  IsReady m r s = Ready m r s.leg s.phase s.spec s.fuse_span s.last_wheel s.route

  -- the divisors are not 0, the wheel's limit is a finite number and that of the table, and the
  -- steering step is a number
  pub record IsConfigured (k : FollowerConfig F) : Type 0 where
    pub locks : d.eq k.full_lock_err nought ≡ false
    pub speeds : d.eq k.max_speed nought ≡ false
    pub limit_finite : d.is_finite k.max_wheel ≡ true
    pub limit_pos : nought ≼ k.max_wheel
    pub same_limit : k.table.max_wheel ≡ k.max_wheel
    pub step_number : IsNumber k.steer_step

  abbrev pub CommandWithin : F → Option (ControlCommand F) → Type 0
  CommandWithin m none = Unit
  CommandWithin m (some c) = Within m c.steering_wheel_deg

  -- an answer's wheel is within the limit and its state is ready; a call that goes on is ready on a
  -- later leg
  abbrev pub StageReady : F → LaneRoute F → ℕ → Stage F → Type 0
  StageReady m r leg (answer a) = CommandWithin m a.command × IsReady m r a.after
  StageReady m r leg (drive_on s) = (leg < s.leg) × (s.phase ≡ follow) × IsReady m r s
