-- ===== src/Tests/Plans.antt =====
-- Runs: the route planner.
use autonomous_rc_taxi.Prelude.{
  suc, true, ◌≡◌, ◌⊎◌, refl, String, Option, none, some, List, [], ◌∷◌, length, arith,
  if◌then◌else◌, ap,
}
use mathlib.Core.Option.{some-injective}
use autonomous_rc_taxi.Floats.{lt}
use autonomous_rc_taxi.Floats.Micro.{Micro, micro_double}
use autonomous_rc_taxi.Keys.{member, subset}
use autonomous_rc_taxi.Navigation.Planner.{HeapQueue, Route, plan}
use autonomous_rc_taxi.Navigation.Planner.Connected.{IsDrive, segment_ids, plan-IsDrive}
use autonomous_rc_taxi.Navigation.Planner.Order.{Ends}
use autonomous_rc_taxi.Navigation.Planner.Built.{IsQueue}
use autonomous_rc_taxi.Navigation.Planner.Total.{plan-Ends}
use autonomous_rc_taxi.Tests.Samples.{metres, loop}
use autonomous_rc_taxi.Tests.Maps.{planned}

-- a queue kept in order of distance
insert : Micro × String → List (Micro × String) → List (Micro × String)
insert a [] = a ∷ []
insert a (b ∷ rest) = if lt a.0 b.0 then a ∷ b ∷ rest else b ∷ insert a rest

first : List (Micro × String) → Option ((Micro × String) × List (Micro × String))
first [] = none
first (a ∷ rest) = some (a, rest)

pub queue : HeapQueue Micro (List (Micro × String))
unfolding insert first
queue = record { empty = []; push = insert; pop = first }

plan-IsDrive_example :
    (segment_ids planned.segments ≡ "mid_wb1_e" ∷ []) × ◌≡◌ {A = String} "mid_wb1_e" "mid_wb1_w"
    ⊎ IsDrive loop "mid_wb1_e" "mid_wb1_w" planned.segments
unfolding queue autonomous_rc_taxi.Navigation.Planner.plan
    autonomous_rc_taxi.Navigation.Planner.relax autonomous_rc_taxi.Navigation.Planner.search
    autonomous_rc_taxi.Navigation.Planner.walk autonomous_rc_taxi.Navigation.Planner.parts
    autonomous_rc_taxi.Navigation.Planner.lane_part autonomous_rc_taxi.Keys.keys
    autonomous_rc_taxi.Keys.find autonomous_rc_taxi.Keys.put
    autonomous_rc_taxi.Mapping.Geometry.trim
plan-IsDrive_example = plan-IsDrive loop queue 5 "mid_wb1_e" "mid_wb1_w" (metres 1) (metres 2) refl

-- the lanes in the queue
names : List (Micro × String) → List String
names [] = []
names (a ∷ rest) = a.1 ∷ names rest

names-insert_count :
    (a : Micro × String) (h : List (Micro × String))
    → length (names (insert a h)) ≡ suc (length (names h))
unfolding insert names
names-insert_count a [] = refl
names-insert_count a (b ∷ rest) = ground (arith, names-insert_count a rest)

names-insert_keeps :
    (a : Micro × String) (h : List (Micro × String)) (ks : List String)
    → member a.1 ks ≡ true
    → subset (names h) ks ≡ true
    → subset (names (insert a h)) ks ≡ true
unfolding insert names
names-insert_keeps a [] ks m s = ground arith
names-insert_keeps a (b ∷ rest) ks m s = ground (arith, names-insert_keeps a rest ks)

first_count :
    (h : List (Micro × String)) {x : Micro × String} {h' : List (Micro × String)}
    → first h ≡ some (x, h')
    → length (names h) ≡ suc (length (names h'))
unfolding first names
first_count [] e = absurd (ground (arith, e))
first_count (a ∷ rest) e = rw (ap (λ r. r.1) (some-injective _ _ e)) refl

first_keeps :
    (h : List (Micro × String)) (ks : List String) {x : Micro × String} {h' : List (Micro × String)}
    → first h ≡ some (x, h')
    → subset (names h) ks ≡ true
    → (member x.1 ks ≡ true) × (subset (names h') ks ≡ true)
unfolding first names
first_keeps [] ks e s = absurd (ground (arith, e))
first_keeps (a ∷ rest) ks e s =
    let at = some-injective _ _ e in rw (← ap (λ r. r.0) at, ← ap (λ r. r.1) at) (ground (arith, s))

queue-IsQueue : IsQueue queue names
unfolding queue names first
queue-IsQueue = record {
  empty_entries = refl;
  push_count = names-insert_count;
  push_keeps = names-insert_keeps;
  pop_count = λ h e. first_count h e;
  pop_keeps = λ h ks e. first_keeps h ks e;
}

plan-Ends_example : Ends (plan queue 5 loop "mid_wb1_e" (metres 3) "mid_wb1_e" (metres 1))
unfolding autonomous_rc_taxi.Mapping.LaneMap.Validate.validate_references
    autonomous_rc_taxi.Keys.keys
plan-Ends_example =
    plan-Ends loop queue names queue-IsQueue refl 5 "mid_wb1_e" "mid_wb1_e" (metres 3) (metres 1)
      (omega arith)
