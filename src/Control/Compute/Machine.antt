-- ===== src/Control/Compute/Machine.antt =====
-- What rc_car/control/lane_follower.py promises about a route, without positions: the machine
-- FOLLOW, ARMED, TURNING over the legs, and how a state of the follower is one of the machine.
use Prim.Native.Nat.{◌+◌ as plus}
use autonomous_rc_taxi.Prelude.{
  ℕ, suc, ◌<◌, ◌≤◌, ◌⊎◌, inl, inr, refl, arith, Bool, true, false, ◌≡◌, Option, none, some,
}
use autonomous_rc_taxi.Core.Models.{ControlCommand}
use autonomous_rc_taxi.Navigation.TurnTable.{ResolvedTurn, is_turn}
use autonomous_rc_taxi.Control.Follower.{LaneFollower, Phase, follow, armed, turning}
use autonomous_rc_taxi.Control.Corner.{Driven, Stage, answer, drive_on}

-- one move of the machine
pub data Step : ℕ → Phase → ℕ → Phase → Type 0 where
  -- a turn is prepared
  arm : (leg : ℕ) → Step leg follow leg armed
  -- only a prepared turn begins
  begin : (leg : ℕ) → Step leg armed leg turning
  -- a turn ends on one of the legs behind it
  finish : (leg more : ℕ) → Step leg turning (plus leg (suc more)) follow
  -- a leg that has no turn behind it, and for which none was prepared, is left
  cross : (leg : ℕ) → Step leg follow (suc leg) follow

-- moves in a row
pub data Steps (leg : ℕ) (phase : Phase) : ℕ → Phase → Type 0 where
  stay : Steps leg phase leg phase
  then_step :
      (leg' : ℕ) (phase' : Phase) (leg'' : ℕ) (phase'' : Phase)
      → Steps leg phase leg' phase'
      → Step leg' phase' leg'' phase''
      → Steps leg phase leg'' phase''

pub Steps_trans :
    (a : ℕ) (p : Phase) (b : ℕ) (q : Phase) {c : ℕ} {r : Phase}
    → Steps a p b q
    → Steps b q c r
    → Steps a p c r
Steps_trans a p b q first stay = first
Steps_trans a p b q first (then_step leg' phase' leg'' phase'' before last) =
    then_step leg' phase' leg'' phase'' (Steps_trans a p b q first before) last

abbrev rank : Phase → ℕ
rank follow = 0
rank armed = 1
rank turning = 2

-- the leg grows, or it stays and the phase does not go back
abbrev pub Advances : ℕ → Phase → ℕ → Phase → Type 0
Advances leg phase leg' phase' = (leg < leg') ⊎ ((leg ≡ leg') × (rank phase ≤ rank phase'))

Step-Advances :
    (a : ℕ) (p : Phase) (b : ℕ) (q : Phase) (c : ℕ) (r : Phase)
    → Step b q c r
    → Advances a p b q
    → Advances a p c r
Step-Advances a p b q c r (Step.arm _) h = ground (arith, h)
Step-Advances a p b q c r (Step.begin _) h = ground (arith, h)
Step-Advances a p b q c r (Step.finish _ more) h = inl (ground (arith, h))
Step-Advances a p b q c r (Step.cross _) h = inl (ground (arith, h))

pub Steps-Advances : (a : ℕ) (p : Phase) (b : ℕ) (q : Phase) → Steps a p b q → Advances a p b q
Steps-Advances a p b q stay = inr (refl, omega arith)
Steps-Advances a p b q (then_step leg' phase' _ _ before last) =
    Step-Advances a p leg' phase' b q last (Steps-Advances a p leg' phase' before)

-- the segmentation may steer only while a leg is followed
abbrev pub SegFollows : Phase → Bool → Type 0
SegFollows follow allowed = Unit
SegFollows armed allowed = allowed ≡ false
SegFollows turning allowed = allowed ≡ false

module _ {F : Type 0} where
  -- a turn that is prepared or driven is a turn
  abbrev pub TurnSpec : Phase → Option (ResolvedTurn F) → Type 0
  TurnSpec armed none = ⊥
  TurnSpec armed (some t) = is_turn t ≡ true
  TurnSpec follow spec = Unit
  TurnSpec turning none = ⊥
  TurnSpec turning (some t) = is_turn t ≡ true

  -- the machine has come here from `leg` and `phase`
  abbrev pub Tracked : ℕ → Phase → LaneFollower F → Type 0
  Tracked leg phase s = Steps leg phase s.leg s.phase × TurnSpec s.phase s.spec

  abbrev pub SegIfDriven : Option (ControlCommand F) → Phase → Bool → Type 0
  SegIfDriven none phase allowed = Unit
  SegIfDriven (some c) phase allowed = SegFollows phase allowed

  abbrev pub AnswerFits : ℕ → Phase → Driven F → Type 0
  AnswerFits leg phase a =
      Tracked leg phase a.after × SegIfDriven a.command a.after.phase a.after.seg_ok_now

  abbrev pub StageFits : ℕ → Phase → Stage F → Type 0
  StageFits leg phase (answer a) = AnswerFits leg phase a
  StageFits leg phase (drive_on s) = Tracked leg phase s × (s.phase ≡ follow)

  -- what the machine sees of a state is as before
  abbrev pub SameView : LaneFollower F → LaneFollower F → Type 0
  SameView s s' = (s'.leg ≡ s.leg) × (s'.phase ≡ s.phase) × (s'.spec ≡ s.spec)

  pub Tracked-same :
      (leg : ℕ) (phase : Phase) (s s' : LaneFollower F)
      → SameView s s'
      → Tracked leg phase s
      → Tracked leg phase s'
  Tracked-same leg phase s s' (l, p, e) h = rw (l, p, e) h
