-- ===== src/Worklist/Fuel.antt =====
-- Among finitely many keys the search ends: each key is pushed at most once.
use Prim.Native.Nat.{◌+◌}
use text.Mathlib.TextEquality.{eq_iff}
use autonomous_rc_taxi.Prelude.{
  ℕ, zero, suc, true, false, ◌≡◌, ◌≤◌, ◌<◌, refl, String, List, [], ◌∷◌, arith, length,
  if◌then◌else◌,
}
use autonomous_rc_taxi.Keys.{member, subset}
use autonomous_rc_taxi.Result.{Result, ok}
use autonomous_rc_taxi.Worklist.{offer, explore}

-- how many of the keys are not seen yet
abbrev pub unseen : List String → List String → ℕ
unseen [] seen = 0
unseen (k ∷ ks) seen = (if member k seen then 0 else 1) + unseen ks seen

unseen-cons-le : (ks seen : List String) (y : String) → unseen ks (y ∷ seen) ≤ unseen ks seen
unseen-cons-le [] seen y = omega arith
unseen-cons-le (k ∷ ks) seen y = ground (arith, unseen-cons-le ks seen y)

pub unseen-cons-lt :
    (ks seen : List String) (y : String)
    → member y ks ≡ true
    → member y seen ≡ false
    → unseen ks (y ∷ seen) < unseen ks seen
unseen-cons-lt [] seen y m n = absurd (ground arith)
unseen-cons-lt (k ∷ ks) seen y m n =
    ground (arith, eq_iff k y, eq_iff y k, unseen-cons-le ks seen y, unseen-cons-lt ks seen y)

-- offering known keys trades unseen keys for places on the stack
offer-measure :
    (ks ys seen stack : List String)
    → subset ys ks ≡ true
    → let (seen', stack') = offer ys seen stack in
      unseen ks seen' + length stack' ≤ unseen ks seen + length stack
unfolding offer
offer-measure ks [] seen stack s = omega arith
offer-measure ks (y ∷ ys) seen stack s = ground (
  arith,
  unseen-cons-lt ks seen y,
  offer-measure ks ys seen stack,
  offer-measure ks ys (y ∷ seen) (y ∷ stack),
)

offer-subset :
    (ks ys seen stack : List String)
    → subset ys ks ≡ true
    → subset stack ks ≡ true
    → subset (offer ys seen stack).1 ks ≡ true
unfolding offer
offer-subset ks [] seen stack s t = t
offer-subset ks (y ∷ ys) seen stack s t =
    ground (arith, offer-subset ks ys seen stack, offer-subset ks ys (y ∷ seen) (y ∷ stack))

-- every key has neighbours, and they are keys
abbrev pub IsGraph : (String → Result (List String)) → List String → Type 0
IsGraph next ks =
    (x : String)
    → member x ks ≡ true
    → (ys : List String) × (next x ≡ ok ys) × (subset ys ks ≡ true)

-- In a graph on the keys `ks` the search from keys of the stack ends without a raise, given as many
-- rounds as there are unseen keys and places on the stack.
pub explore_total :
    (next : String → Result (List String)) (ks : List String)
    → IsGraph next ks
    → (fuel : ℕ) (seen stack : List String) → subset stack ks ≡ true
    → unseen ks seen + length stack ≤ fuel
    → (r : List String) × (explore next fuel seen stack ≡ ok r)
unfolding explore
explore_total next ks g zero seen [] s m = (seen, refl)
explore_total next ks g (suc fuel) seen [] s m = (seen, refl)
explore_total next ks g zero seen (x ∷ stack) s m = absurd (omega arith)
explore_total next ks g (suc fuel) seen (x ∷ stack) s m =
    let (ys, e, inside) = g x (ground arith) in
    rw e (
      explore_total next ks g fuel (offer ys seen stack).0 (offer ys seen stack).1
        (offer-subset ks ys seen stack inside (ground arith))
        (omega (arith, offer-measure ks ys seen stack inside)))
