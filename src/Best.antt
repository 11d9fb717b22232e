-- ===== src/Best.antt =====
-- The loops that keep the candidate with the least key: the first one wins a tie.
use autonomous_rc_taxi.Prelude.{
  true, false, ◌≡◌, ◌⊎◌, refl, sym, inl, inr, Option, none, some, List, [], ◌∷◌, All, arith,
  Bool-cases, if◌then◌else◌,
}
use mathlib.Core.List.{Memᴰ}
use mathlib.Core.List.Memᴰ
use autonomous_rc_taxi.Floats.{Double, lt}
use autonomous_rc_taxi.Floats.Laws.{IsOrdered, lt_trans, lt_irrefl}
use mathlib.Core.Option.{some-injective}

module _ {ℓ} {F : Type 0} ⦃d : Double F⦄ {A : Type ℓ} where
  -- `if best is None or key(x) < key(best): best = x`
  abbrev pub pick : (A → F) → Option A → A → Option A
  pick key none x = some x
  pick key (some b) x = if lt (key x) (key b) then some x else some b

  unfoldable pub best : (A → F) → Option A → List A → Option A
  best key b [] = b
  best key b (x ∷ xs) = best key (pick key b x) xs

  abbrev pub Unbeaten : (A → F) → A → List A → Type 0
  Unbeaten key r xs = All (λ x. lt (key x) (key r) ≡ false) xs

  best_descends :
      (key : A → F) (b : A) (xs : List A) {r : A}
      → IsOrdered F
      → best key (some b) xs ≡ some r
      → (lt (key r) (key b) ≡ true) ⊎ (r ≡ b)
  unfolding best
  best_descends key b [] laws h = inr (some-injective _ _ (sym h))
  best_descends key b (x ∷ xs) {r = r} laws h = elim (Bool-cases (lt (key x) (key b))) [
    | inl less ↦ elim (best_descends key x xs laws (rw less at h)) [
      | inl e ↦ inl (lt_trans laws (key r) (key x) (key b) e less)
      | inr e ↦ inl (rw e less)
    ]
    | inr more ↦ best_descends key b xs laws (rw more at h)
  ]

  module _ (laws : IsOrdered F) where
    -- an older candidate that did not beat the best so far does not beat a later best either
    keeps_unbeaten :
        (key : A → F) (x b r : A)
        → lt (key x) (key b) ≡ false
        → (lt (key r) (key b) ≡ true) ⊎ (r ≡ b)
        → lt (key x) (key r) ≡ false
    keeps_unbeaten key x b r h (inl e) = ground (arith, lt_trans laws (key x) (key r) (key b))
    keeps_unbeaten key x b r h (inr e) = rw e h

    -- Of all candidates none has a lesser key than the one that is kept.
    pub best-Unbeaten :
        (key : A → F) (b : A) (xs : List A) {r : A}
        → best key (some b) xs ≡ some r
        → Unbeaten key r (b ∷ xs)
    unfolding best
    best-Unbeaten key b [] {r = r} h =
        (rw (some-injective _ _ (sym h)) (lt_irrefl laws (key b)), tt)
    best-Unbeaten key b (x ∷ xs) {r = r} h = elim (Bool-cases (lt (key x) (key b))) [
      | inl less ↦
          let below = best_descends key x xs laws (rw less at h) in
          let (first, others) = best-Unbeaten key x xs (rw less at h) in
          let not_back : lt (key b) (key x) ≡ false =
            ground (arith, lt_trans laws (key x) (key b) (key x), lt_irrefl laws (key x)) in
          (keeps_unbeaten key b x r not_back below, (first, others))
      | inr more ↦
          let below = best_descends key b xs laws (rw more at h) in
          let (first, others) = best-Unbeaten key b xs (rw more at h) in
          (first, (keeps_unbeaten key x b r more below, others))
    ]

  -- The candidate kept is one of them.
  pub best_mem :
      (key : A → F) (b : A) (xs : List A) {r : A} → best key (some b) xs ≡ some r → Memᴰ r (b ∷ xs)
  unfolding best
  best_mem key b [] h = Memᴰ.head (some-injective _ _ (sym h))
  best_mem key b (x ∷ xs) h = elim (Bool-cases (lt (key x) (key b))) [
    | inl less ↦ Memᴰ.tail (best_mem key x xs (rw less at h))
    | inr more ↦ elim (Memᴰ.cases_cons (best_mem key b xs (rw more at h))) [
      | inl e ↦ Memᴰ.head e
      | inr m ↦ Memᴰ.tail (Memᴰ.tail m)
    ]
  ]

  -- Something is kept exactly when there is a candidate.
  pub best-some : (key : A → F) (b : A) (xs : List A) → (r : A) × (best key (some b) xs ≡ some r)
  unfolding best
  best-some key b [] = (b, refl)
  best-some key b (x ∷ xs) = elim (Bool-cases (lt (key x) (key b))) [
    | inl less ↦ rw less (best-some key x xs)
    | inr more ↦ rw more (best-some key b xs)
  ]
