-- ===== src/Perception/Marks/Seen.antt =====
-- When a road mark triggers a turn.
use mathlib.Core.List.{Memᴰ}
use text.Mathlib.TextEquality.{eq_iff}
use autonomous_rc_taxi.Prelude.{
  Bool, true, false, ◌≡◌, ◌↔◌, refl, sym, subst, Option, some, List, [], ◌∷◌, arith, String,
  Bool-cases, inl, inr,
}
use autonomous_rc_taxi.Floats.{Double, ◌*◌, nought, le, lt}
use autonomous_rc_taxi.Navigation.TurnTable.{TriggerSpec}
use autonomous_rc_taxi.Perception.Marks.{
  Mark, MarkObservation, MarkAdapter, lateral_m, counts, any_counts, triggered, seen, of_class,
}

of_class-some : (o : Option String) (b : Bool) {c : String} → o ≡ some c → of_class o b ≡ b
of_class-some o b h = rw h refl

module _ {F : Type 0} ⦃d : Double F⦄ where
  -- a mark of the class, sure enough, near enough and close enough to the car's axis; each test is
  -- the one that rejects a mark, and a NaN passes it
  abbrev pub IsNear : MarkObservation F → TriggerSpec F → String → Mark F → Type 0
  IsNear o spec c m =
      (m.cls ≡ c)
      × (lt m.conf spec.min_conf ≡ false)
      × (lt m.bottom_px (o.height_px * spec.near_row_frac) ≡ false)
      × (lt spec.max_lateral_m (lateral_m o m) ≡ false)

  counts_iff :
      (o : MarkObservation F) (spec : TriggerSpec F) (c : String) (m : Mark F)
      → spec.cls ≡ some c
      → (counts o spec m ≡ true) ↔ IsNear o spec c m
  unfolding counts
  counts_iff o spec c m h = simp h (ground (arith, eq_iff m.cls c))

  split_seen :
      (o : MarkObservation F) (spec : TriggerSpec F)
      → seen o spec ≡ true
      → (o.valid ≡ true) × (le o.height_px nought ≡ false) × (any_counts o spec o.marks ≡ true)
  split_seen o spec h = ground (arith, h)

  any_counts-found :
      (o : MarkObservation F) (spec : TriggerSpec F) (ms : List (Mark F))
      → any_counts o spec ms ≡ true
      → (m : Mark F) × Memᴰ m ms × (counts o spec m ≡ true)
  unfolding any_counts
  any_counts-found o spec [] h = absurd (ground (arith, h))
  any_counts-found o spec (m ∷ ms) h = elim (Bool-cases (counts o spec m)) [
    | inl e ↦ (m, Memᴰ.head refl, e)
    | inr n ↦ let (x, at, e) = any_counts-found o spec ms (rw n at h) in (x, Memᴰ.tail at, e)
  ]

  any_counts_mem :
      (o : MarkObservation F) (spec : TriggerSpec F) (m : Mark F) (ms : List (Mark F))
      → Memᴰ m ms
      → counts o spec m ≡ true
      → any_counts o spec ms ≡ true
  unfolding any_counts
  any_counts_mem o spec m [] at h = elim at [ ]
  any_counts_mem o spec m (x ∷ ms) (Memᴰ.head e) h = ground (arith, e, h)
  any_counts_mem o spec m (x ∷ ms) (Memᴰ.tail at) h =
      ground (arith, any_counts_mem o spec m ms at h)

  seen_iff :
      (o : MarkObservation F) (spec : TriggerSpec F) (c : String)
      → spec.cls ≡ some c
      → (seen o spec ≡ true) ↔ (
          (o.valid ≡ true)
          × (le o.height_px nought ≡ false)
          × ((m : Mark F) × Memᴰ m o.marks × IsNear o spec c m))
  seen_iff o spec c h = (
    (λ e.
        let (valid, high, any) = split_seen o spec e in
        let (m, at, good) = any_counts-found o spec o.marks any in
        (valid, high, (m, at, (counts_iff o spec c m h).0 good))),
    (λ (valid, high, (m, at, near)).
        let any = any_counts_mem o spec m o.marks at ((counts_iff o spec c m h).1 near) in
        ground (arith, valid, high, any)),
  )

  -- The adapter triggers a turn of a marked class exactly when its latest observation is valid with
  -- a positive height (or one that is no number), and holds a mark of that class that no test of
  -- its sureness, its nearness or its distance from the car's axis rejects.
  pub triggered_iff :
      (a : MarkAdapter F) (spec : TriggerSpec F) (c : String)
      → spec.cls ≡ some c
      → (triggered a spec ≡ true) ↔ (
          (a.latest.valid ≡ true)
          × (le a.latest.height_px nought ≡ false)
          × ((m : Mark F) × Memᴰ m a.latest.marks × IsNear a.latest spec c m))
  unfolding triggered
  triggered_iff a spec c h =
      subst
        (λ b. (b ≡ true) ↔ (
          (a.latest.valid ≡ true)
          × (le a.latest.height_px nought ≡ false)
          × ((m : Mark F) × Memᴰ m a.latest.marks × IsNear a.latest spec c m)))
        (sym (of_class-some spec.cls (seen a.latest spec) h)) (seen_iff a.latest spec c h)
