-- ===== src/Navigation/Planner/Order.antt =====
-- The walk back along the search's trail (rc_car/navigation/route_planner.py, `_reconstruct`) ends:
-- the lane before a lane was settled before it.
use Prim.Native.Nat.{◌+◌}
use text.Mathlib.Text.{◌==◌ as str_eq}
use text.Mathlib.TextEquality.{eq_iff}
use autonomous_rc_taxi.Prelude.{
  ℕ, zero, suc, Bool, true, false, ◌≡◌, ◌⊎◌, inl, inr, ap, String, some, List, [], ◌∷◌, length,
  arith, ◌≤◌, ◌<◌, Bool-cases, if◌then◌else◌,
}
use mathlib.Core.Option.{some-injective}
use autonomous_rc_taxi.Keys.{
  member, subset, find, keys, put, find-put, member-keys, member_of_subset,
}
use autonomous_rc_taxi.Result.{Result, ok, err, Error, key_error, out_of_fuel}
use autonomous_rc_taxi.Worklist.Fuel.{unseen, unseen-cons-lt}
use autonomous_rc_taxi.Navigation.Planner.{Trail, walk}

-- the faults that a checked map and enough rounds rule out
abbrev pub is_fault : Error → Bool
is_fault key_error = true
is_fault out_of_fuel = true
is_fault _ = false

abbrev pub Ends {ℓ} : {A : Type ℓ} → Result A → Type 0
Ends (ok a) = Unit
Ends (err e) = is_fault e ≡ false

-- when a lane was settled, from 1; the settled lanes stand newest first
abbrev pub rank : String → List String → ℕ
rank a [] = 0
rank a (x ∷ xs) = if str_eq x a then suc (length xs) else rank a xs

rank-le : (a : String) (xs : List String) → rank a xs ≤ length xs
rank-le a [] = omega arith
rank-le a (x ∷ xs) = ground (arith, rank-le a xs)

rank_pos : (a : String) (xs : List String) → member a xs ≡ true → 0 < rank a xs
rank_pos a [] m = absurd (ground (arith, m))
rank_pos a (x ∷ xs) m = ground (arith, rank_pos a xs)

-- a lane was settled, and before the other if that is settled too
abbrev pub IsBefore : String → String → List String → Type 0
IsBefore a b settled =
    (member a settled ≡ true) × (member b settled ≡ true → rank a settled < rank b settled)

IsBefore-cons :
    (a b x : String) (settled : List String)
    → member x settled ≡ false
    → IsBefore a b settled
    → IsBefore a b (x ∷ settled)
IsBefore-cons a b x settled fresh (known, before) = (
  ground arith,
  λ h. elim (Bool-cases (member b settled)) [
    | inl old ↦ ground (arith, before old, eq_iff x a, eq_iff x b)
    | inr new ↦ ground (arith, rank-le a settled, eq_iff x a, eq_iff x b)
  ],
)

-- equal lanes are settled together
settled_same :
    (a b : String) (settled : List String)
    → str_eq a b ≡ true
    → member a settled ≡ false
    → member b settled ≡ false
settled_same a b settled e h = rw (← (eq_iff a b).0 e) h

-- each lane on the trail comes from the start, or from a lane settled before it
abbrev pub HasParents : String → Trail → List String → Type 0
HasParents start prev settled =
    (b a cid : String) → find b prev ≡ some (a, cid) → (a ≡ start) ⊎ IsBefore a b settled

pub HasParents-cons :
    (start x : String) (prev : Trail) (settled : List String)
    → member x settled ≡ false
    → HasParents start prev settled
    → HasParents start prev (x ∷ settled)
HasParents-cons start x prev settled fresh h b a cid e = elim (h b a cid e) [
  | inl home ↦ inl home
  | inr before ↦ inr (IsBefore-cons a b x settled fresh before)
]

pub HasParents-put :
    (start from cid nxt : String) (prev : Trail) (settled : List String)
    → (from ≡ start) ⊎ (member from settled ≡ true)
    → member nxt settled ≡ false
    → HasParents start prev settled
    → HasParents start (put nxt (from, cid) prev) settled
HasParents-put start from cid nxt prev settled known fresh h b a cid' e =
    elim (Bool-cases (str_eq nxt b)) [
      | inr other ↦ h b a cid' (rw (find-put nxt b (from, cid) prev, other) at e)
      | inl same ↦
          let e' : (from, cid) ≡ (a, cid') =
            some-injective _ _ (rw (find-put nxt b (from, cid) prev, same) at e) in
          let at : from ≡ a = ap (λ r. r.0) e' in
          elim known [
            | inl home ↦ inl (rw (← at) home)
            | inr settled_from ↦ inr (
              rw (← at) settled_from,
              λ m. absurd (cc (m, settled_same nxt b settled same fresh)),
            )
          ]
    ]

-- a trail entry for each settled lane, and one more for each other lane on the trail
abbrev pub HasRoom : Trail → List String → Type 0
HasRoom prev settled = unseen (keys prev) settled + length settled ≤ length prev

put-room :
    (k : String) (v : String × String) (prev : Trail) (settled : List String)
    → member k settled ≡ false
    → unseen (keys (put k v prev)) settled + length prev
      ≡ unseen (keys prev) settled + length (put k v prev)
unfolding put keys
put-room k v [] settled fresh = ground arith
put-room k v ((j, w) ∷ rest) settled fresh = ground (arith, put-room k v rest settled)

pub HasRoom-put :
    (k : String) (v : String × String) (prev : Trail) (settled : List String)
    → member k settled ≡ false
    → HasRoom prev settled
    → HasRoom (put k v prev) settled
HasRoom-put k v prev settled fresh h = omega (arith, put-room k v prev settled fresh)

pub HasRoom-cons :
    (x : String) (prev : Trail) (settled : List String)
    → member x (keys prev) ≡ true
    → member x settled ≡ false
    → HasRoom prev settled
    → HasRoom prev (x ∷ settled)
HasRoom-cons x prev settled known fresh h =
    omega (arith, unseen-cons-lt (keys prev) settled x known fresh)

module _ (start : String) (prev : Trail) (settled : List String)
    (parents : HasParents start prev settled) (traced : subset settled (keys prev) ≡ true) where
  -- from a settled lane, in as many rounds as its rank
  walk_settled :
      (n : ℕ) (lid : String) (chain : List (String × String))
      → member lid settled ≡ true
      → rank lid settled ≤ n
      → Ends (walk prev start n lid chain)
  unfolding walk
  walk_settled zero lid chain m h = absurd (omega (arith, rank_pos lid settled m))
  walk_settled (suc n) lid chain m h =
      let ((a, cid), found) =
        member-keys lid prev (member_of_subset settled (keys prev) lid traced m) in
      elim (Bool-cases (str_eq a start)) [
        | inl home ↦ rw (found, home) tt
        | inr away ↦ elim (parents lid a cid found) [
          | inl home ↦ absurd (ground (arith, eq_iff a start))
          | inr (known, before) ↦
              rw (found, away)
                (walk_settled n a ((lid, cid) ∷ chain) known (omega (arith, before m)))
        ]
      ]

  -- from any lane on the trail
  pub walk-Ends :
      (lid : String)
      → member lid (keys prev) ≡ true
      → HasRoom prev settled
      → Ends (walk prev start (suc (length prev)) lid [])
  unfolding walk
  walk-Ends lid m room =
      let ((a, cid), found) = member-keys lid prev m in
      elim (Bool-cases (str_eq a start)) [
        | inl home ↦ rw (found, home) tt
        | inr away ↦ elim (parents lid a cid found) [
          | inl home ↦ absurd (ground (arith, eq_iff a start))
          | inr (known, before) ↦
              rw (found, away)
                (walk_settled (length prev) a ((lid, cid) ∷ []) known
                  (omega (arith, rank-le a settled)))
        ]
      ]
