-- ===== src/Mapping/Matcher/Score.antt =====
-- The match is the best of the segments that pass the cuts.
use mathlib.Core.List.{Memᴰ}
use mathlib.Core.List.Memᴰ
use autonomous_rc_taxi.Prelude.{
  false, ◌≡◌, ◌⊎◌, inl, inr, refl, sym, ap, ◌∙◌, none, some, List, [], ◌∷◌, All, arith, Bool-cases,
  Option-cases,
}
use autonomous_rc_taxi.Floats.{Double, lt}
use autonomous_rc_taxi.Floats.Laws.{IsOrdered}
use autonomous_rc_taxi.Best.{best, best-Unbeaten, best_mem, Unbeaten}
use autonomous_rc_taxi.Result.{ok, >>=-eq-ok, ok-injective}
use autonomous_rc_taxi.Mapping.Geometry.{Point}
use autonomous_rc_taxi.Mapping.LaneMap.{LaneMap}
use autonomous_rc_taxi.Mapping.Matcher.{
  LaneMatch, MatchConfig, Candidate, candidates, inside_block, judge, passing, best_passing, match,
  prepend,
}

module _ {F : Type 0} ⦃d : Double F⦄ where
  module _ (k : MatchConfig F) (at : Point F) (heading_deg : F) where
    -- a candidate that is cut, or does not score below `r`
    abbrev pub Concedes : LaneMatch F → Candidate F → Type 0
    Concedes r c =
        (judge k at heading_deg c ≡ ok none)
        ⊎ ((q : LaneMatch F) × (judge k at heading_deg c ≡ ok (some q))
            × (lt q.score r.score ≡ false))

    passing-Concedes :
        (cs : List (Candidate F)) {ms : List (LaneMatch F)} (r : LaneMatch F)
        → passing k at heading_deg cs ≡ ok ms
        → Unbeaten (λ (m : LaneMatch F). m.score) r ms
        → All (Concedes r) cs
    unfolding passing
    passing-Concedes [] r h u = tt
    passing-Concedes (c ∷ cs) {ms = ms} r h u =
        let (m, e, h') = >>=-eq-ok (judge k at heading_deg c) _ h in
        let (rest, e', h'') = >>=-eq-ok (passing k at heading_deg cs) _ h' in
        let u' : Unbeaten (λ (m : LaneMatch F). m.score) r (prepend m rest) =
          rw (ok-injective h'') u in
        elim (Option-cases m) [
          | inl cut ↦ (inl (e ∙ ap ok cut), passing-Concedes cs r e' (rw cut at u'))
          | inr (q, kept) ↦
              let (first, others) = rw kept at u' in
              (inr (q, e ∙ ap ok kept, first), passing-Concedes cs r e' others)
        ]

    passing-from :
        (cs : List (Candidate F)) {ms : List (LaneMatch F)} (r : LaneMatch F)
        → passing k at heading_deg cs ≡ ok ms
        → Memᴰ r ms
        → (c : Candidate F) × Memᴰ c cs × (judge k at heading_deg c ≡ ok (some r))
    unfolding passing
    passing-from [] r h m = elim (rw (← ok-injective h) at m) [ ]
    passing-from (c ∷ cs) {ms = ms} r h m =
        let (o, e, h') = >>=-eq-ok (judge k at heading_deg c) _ h in
        let (rest, e', h'') = >>=-eq-ok (passing k at heading_deg cs) _ h' in
        let m' : Memᴰ r (prepend o rest) = rw (ok-injective h'') m in
        elim (Option-cases o) [
          | inl cut ↦
              let (x, there, from) = passing-from cs r e' (rw cut at m') in
              (x, Memᴰ.tail there, from)
          | inr (q, kept) ↦ elim (Memᴰ.cases_cons (rw kept at m')) [
            | inl same ↦ (c, Memᴰ.head refl, e ∙ ap ok (kept ∙ ap some (sym same)))
            | inr later ↦
                let (x, there, from) = passing-from cs r e' later in (x, Memᴰ.tail there, from)
          ]
        ]

    best_of-Unbeaten :
        (ms : List (LaneMatch F)) {r : LaneMatch F}
        → IsOrdered F
        → best (λ (m : LaneMatch F). m.score) none ms ≡ some r
        → Unbeaten (λ (m : LaneMatch F). m.score) r ms × Memᴰ r ms
    unfolding best
    best_of-Unbeaten [] laws h = absurd (ground arith)
    best_of-Unbeaten (m ∷ ms) laws h = (
      best-Unbeaten laws (λ (q : LaneMatch F). q.score) m ms h,
      best_mem (λ (q : LaneMatch F). q.score) m ms h,
    )

    best_passing-wins :
        (cs : List (Candidate F)) {r : LaneMatch F}
        → IsOrdered F
        → best_passing k at heading_deg cs ≡ ok (some r)
        → ((c : Candidate F) × Memᴰ c cs × (judge k at heading_deg c ≡ ok (some r)))
          × All (Concedes r) cs
    unfolding best_passing
    best_passing-wins cs {r = r} laws h =
        let (ms, e, h') = >>=-eq-ok (passing k at heading_deg cs) _ h in
        let (unbeaten, there) = best_of-Unbeaten ms laws (ok-injective h') in
        (passing-from cs r e there, passing-Concedes cs r e unbeaten)

  -- A match lies in no block, it is the judgement of some lane or connector of the map, and every
  -- lane and connector is either cut or does not score below it.
  pub match_best :
      (k : MatchConfig F) (m : LaneMap F) (x y heading_deg : F) {r : LaneMatch F}
      → IsOrdered F
      → match k m x y heading_deg ≡ ok (some r)
      → (inside_block m.blocks x y ≡ ok false)
        × ((c : Candidate F) × Memᴰ c (candidates m)
            × (judge k (record { x = x; y = y }) heading_deg c ≡ ok (some r)))
        × All (Concedes k (record { x = x; y = y }) heading_deg r) (candidates m)
  unfolding match
  match_best k m x y heading_deg {r = r} laws h =
      let (blocked, e, h1) = >>=-eq-ok (inside_block m.blocks x y) _ h in
      elim (Bool-cases blocked) [
        | inl inside ↦ absurd (ground (arith, ok-injective (rw inside at h1)))
        | inr outside ↦
            let (from, best) =
              best_passing-wins k (record { x = x; y = y }) heading_deg (candidates m) laws
                (rw outside at h1) in
            (rw (outside) at e, from, best)
      ]
