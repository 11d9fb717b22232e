-- ===== src/Worklist/Correct.antt =====
-- The search finds exactly what can be reached, and ends within one round for each key.
use text.Mathlib.Text.{◌==◌ as str_eq}
use text.Mathlib.TextEquality.{eq_iff}
use autonomous_rc_taxi.Prelude.{
  ℕ, zero, suc, true, ◌≡◌, ◌⊎◌, ◌↔◌, inl, inr, sym, ◌∙◌, String, List, [], ◌∷◌, arith, Bool-cases,
}
use autonomous_rc_taxi.Keys.{member, member_self}
use autonomous_rc_taxi.Result.{Result, ok, >>=-eq-ok}
use autonomous_rc_taxi.Worklist.{offer, explore}

-- what offering keeps and adds
offer-seen :
    (ys seen stack : List String) (x : String)
    → member x seen ≡ true
    → member x (offer ys seen stack).0 ≡ true
unfolding offer
offer-seen [] seen stack x h = h
offer-seen (y ∷ ys) seen stack x h =
    ground (arith, offer-seen ys seen stack x, offer-seen ys (y ∷ seen) (y ∷ stack) x)

offer-stack :
    (ys seen stack : List String) (x : String)
    → member x stack ≡ true
    → member x (offer ys seen stack).1 ≡ true
unfolding offer
offer-stack [] seen stack x h = h
offer-stack (y ∷ ys) seen stack x h =
    ground (arith, offer-stack ys seen stack x, offer-stack ys (y ∷ seen) (y ∷ stack) x)

offer-all :
    (ys seen stack : List String) (x : String)
    → member x ys ≡ true
    → member x (offer ys seen stack).0 ≡ true
unfolding offer
offer-all [] seen stack x h = absurd (ground arith)
offer-all (y ∷ ys) seen stack x h = ground (
  arith,
  eq_iff y x,
  offer-seen ys seen stack x,
  offer-seen ys (y ∷ seen) (y ∷ stack) x,
  offer-all ys seen stack x,
  offer-all ys (y ∷ seen) (y ∷ stack) x,
)

-- what is new is on the stack
offer-new :
    (ys seen stack : List String) (x : String)
    → member x (offer ys seen stack).0 ≡ true
    → (member x seen ≡ true) ⊎ (member x (offer ys seen stack).1 ≡ true)
unfolding offer
offer-new [] seen stack x h = inl h
offer-new (y ∷ ys) seen stack x h = ground (
  arith,
  offer-new ys seen stack x,
  offer-new ys (y ∷ seen) (y ∷ stack) x,
  offer-stack ys (y ∷ seen) (y ∷ stack) x,
)

-- what is seen was seen before or offered
offer-from :
    (ys seen stack : List String) (x : String)
    → member x (offer ys seen stack).0 ≡ true
    → (member x seen ≡ true) ⊎ (member x ys ≡ true)
unfolding offer
offer-from [] seen stack x h = inl h
offer-from (y ∷ ys) seen stack x h =
    ground (arith, offer-from ys seen stack x, offer-from ys (y ∷ seen) (y ∷ stack) x)

offer-stack-from :
    (ys seen stack : List String) (x : String)
    → member x (offer ys seen stack).1 ≡ true
    → (member x stack ≡ true) ⊎ (member x ys ≡ true)
unfolding offer
offer-stack-from [] seen stack x h = inl h
offer-stack-from (y ∷ ys) seen stack x h =
    ground (arith, offer-stack-from ys seen stack x, offer-stack-from ys (y ∷ seen) (y ∷ stack) x)

ok-injective : {a b : List String} → ok a ≡ ok b → a ≡ b
ok-injective e = cc

member_tail : (x y : String) (ks : List String) → member x ks ≡ true → member x (y ∷ ks) ≡ true
member_tail x y ks h = ground arith

only_start : (start x : String) → member x (start ∷ []) ≡ true → start ≡ x
only_start start x h = ground (arith, eq_iff start x)

module _ (next : String → Result (List String)) where
  -- the walks from `start`
  pub data Reach (start : String) : String → Type 0 where
    here : Reach start start
    step :
        {x y : String} {ys : List String}
        → Reach start x
        → next x ≡ ok ys
        → member y ys ≡ true
        → Reach start y

  -- all neighbours of `x` are seen
  abbrev pub IsExpanded : String → List String → Type 0
  IsExpanded x seen =
      (ys : List String) × (next x ≡ ok ys)
      × ((y : String) → member y ys ≡ true → member y seen ≡ true)

  record IsWorklist (seen stack : List String) : Type 0 where
    waiting : (x : String) → member x seen ≡ true → (member x stack ≡ true) ⊎ IsExpanded x seen

  grow :
      (x : String) (seen ys stack : List String)
      → IsExpanded x seen
      → IsExpanded x (offer ys seen stack).0
  grow x seen ys stack (zs, e, all) = (zs, e, λ y m. offer-seen ys seen stack y (all y m))

  -- popping one key and offering its neighbours keeps the loop's invariant
  offer-IsWorklist :
      (x : String) (seen stack ys : List String)
      → next x ≡ ok ys
      → IsWorklist seen (x ∷ stack)
      → IsWorklist (offer ys seen stack).0 (offer ys seen stack).1
  offer-IsWorklist x seen stack ys e w = record {
    waiting = λ z m. elim (offer-new ys seen stack z m) [
      | inr on ↦ inl on
      | inl old ↦ elim (w.waiting z old) [
        | inr done ↦ inr (grow z seen ys stack done)
        | inl on ↦ elim (Bool-cases (str_eq x z)) [
          | inl same ↦ inr (ys, rw (← (eq_iff x z).0 same) e, λ y k. offer-all ys seen stack y k)
          | inr other ↦ inl (offer-stack ys seen stack z (rw other at on))
        ]
      ]
    ];
  }

  closed_at_end :
      (seen r : List String)
      → ok seen ≡ ok r
      → IsWorklist seen []
      → ((x : String) → member x seen ≡ true → member x r ≡ true)
        × ((x : String) → member x r ≡ true → IsExpanded x r)
  closed_at_end seen r h w =
      rw (← ok-injective h)
        (λ x m. m, λ x m. elim (w.waiting x m) [ inl on ↦ absurd (ground arith) | inr done ↦ done ])

  -- When the loop ends, what was seen is still seen and every key seen is expanded.
  explore_closed :
      (fuel : ℕ) (seen stack : List String) {r : List String}
      → explore next fuel seen stack ≡ ok r
      → IsWorklist seen stack
      → ((x : String) → member x seen ≡ true → member x r ≡ true)
        × ((x : String) → member x r ≡ true → IsExpanded x r)
  unfolding explore
  explore_closed zero seen [] {r = r} h w = closed_at_end seen r h w
  explore_closed (suc fuel) seen [] {r = r} h w = closed_at_end seen r h w
  explore_closed zero seen (x ∷ stack) h w = absurd (ground arith)
  explore_closed (suc fuel) seen (x ∷ stack) {r = r} h w =
      let (ys, e, rest) = >>=-eq-ok (next x) _ h in
      let (kept, all) =
        explore_closed fuel (offer ys seen stack).0 (offer ys seen stack).1 rest
          (offer-IsWorklist x seen stack ys e w) in
      (λ z m. kept z (offer-seen ys seen stack z m), all)

  explore_sound :
      (start : String) (fuel : ℕ) (seen stack : List String) {r : List String}
      → explore next fuel seen stack ≡ ok r
      → ((x : String) → member x seen ≡ true → Reach start x)
      → ((x : String) → member x stack ≡ true → Reach start x)
      → (x : String) → member x r ≡ true
      → Reach start x
  unfolding explore
  explore_sound start zero seen [] h s t x m = s x (rw (ok-injective h) m)
  explore_sound start (suc fuel) seen [] h s t x m = s x (rw (ok-injective h) m)
  explore_sound start zero seen (y ∷ stack) h s t x m = absurd (ground arith)
  explore_sound start (suc fuel) seen (y ∷ stack) h s t x m =
      let (ys, e, rest) = >>=-eq-ok (next y) _ h in
      let step_to : (z : String) → member z ys ≡ true → Reach start z =
        λ z k. step (t y (member_self y stack)) e k in
      explore_sound start fuel (offer ys seen stack).0 (offer ys seen stack).1 rest
        (λ z k. elim (offer-from ys seen stack z k) [ inl a ↦ s z a | inr a ↦ step_to z a ])
        (λ z k. elim (offer-stack-from ys seen stack z k) [
          | inl a ↦ t z (member_tail z y stack a)
          | inr a ↦ step_to z a
        ])
        x m

  closed_reach :
      (start : String) (r : List String)
      → member start r ≡ true
      → ((x : String) → member x r ≡ true → IsExpanded x r)
      → {x : String} → Reach start x
      → member x r ≡ true
  closed_reach start r m all here = m
  closed_reach start r m all (step {x = x} {y = y} {ys = ys} w e k) =
      let (zs, e', inside) = all x (closed_reach start r m all w) in
      inside y (rw (ok-injective (sym e ∙ e')) at k)

  -- A search that ends from one key has found exactly the keys that can be reached from it.
  pub explore_iff :
      (start : String) (fuel : ℕ) {r : List String}
      → explore next fuel (start ∷ []) (start ∷ []) ≡ ok r
      → (x : String) → (member x r ≡ true) ↔ Reach start x
  explore_iff start fuel {r = r} h x =
      let begin : IsWorklist (start ∷ []) (start ∷ []) = record { waiting = λ z m. inl m } in
      let (kept, all) = explore_closed fuel (start ∷ []) (start ∷ []) h begin in
      let only : (z : String) → member z (start ∷ []) ≡ true → Reach start z =
        λ z m. rw (← only_start start z m) here in
      (
        λ m. explore_sound start fuel (start ∷ []) (start ∷ []) h only only x m,
        λ w. closed_reach start r (kept start (member_self start [])) all w,
      )
