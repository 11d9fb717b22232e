-- ===== src/Navigation/Arrival/Gate.antt =====
-- When an arrival is decided, over the whole history of a mission.
use autonomous_rc_taxi.Prelude.{
  true, false, ◌≡◌, inl, inr, refl, none, some, List, [], ◌∷◌, arith, Bool-cases, sym, ◌∙◌,
  Option-cases,
}
use mathlib.Core.Option.{some-injective}
use autonomous_rc_taxi.Floats.{Double, ◌-◌, le}
use autonomous_rc_taxi.Floats.Laws.{◌≼◌}
use autonomous_rc_taxi.Navigation.Arrival.{
  ArrivalChecker, StopPose, Reading, start_mission, gate, settle, since, update,
}

module _ {F : Type 0} ⦃d : Double F⦄ where
  -- the mission after its readings, the newest one first
  unfoldable pub run : ArrivalChecker F → List (Reading F) → ArrivalChecker F
  run c [] = c
  run c (r ∷ older) = (update (run c older) r).0

  module _ (k : ArrivalChecker F) (p : StopPose F) (r : Reading F) where
    update_done : k.stop ≡ some p → k.arrived ≡ true → (update k r).0 ≡ k
    unfolding update
    update_done at_stop done = ground arith

    update_shut :
        k.stop ≡ some p
        → k.arrived ≡ false
        → gate k p r ≡ false
        → (update k r).0 ≡ record k { held_since = none }
    unfolding update
    update_shut at_stop going shut = ground arith

    update_open :
        k.stop ≡ some p → k.arrived ≡ false → gate k p r ≡ true → (update k r).0 ≡ settle k r
    unfolding update
    update_open at_stop going opened = ground arith

  module _ (c : ArrivalChecker F) (p : StopPose F) where
    -- the gate has been open without a break since the reading at this time
    pub data HeldFrom : F → List (Reading F) → Type 0 where
      first :
          (r : Reading F) (older : List (Reading F))
          → gate c p r ≡ true
          → HeldFrom r.now_s (r ∷ older)
      further :
          (t : F) (r : Reading F) (older : List (Reading F))
          → gate c p r ≡ true
          → HeldFrom t older
          → HeldFrom t (r ∷ older)

    pub data IsDecided : List (Reading F) → Type 0 where
      slow :
          (r : Reading F) (older : List (Reading F))
          → gate c p r ≡ true
          → r.estimated_speed_mps ≼ c.max_speed
          → IsDecided (r ∷ older)
      held :
          (t : F) (r : Reading F) (older : List (Reading F))
          → HeldFrom t (r ∷ older)
          → c.settle_sec ≼ r.now_s - t
          → IsDecided (r ∷ older)
      earlier : (r : Reading F) (older : List (Reading F)) → IsDecided older → IsDecided (r ∷ older)

    -- what a mission keeps: its thresholds, its stop, and what it knows of the history
    pub record Traces (hist : List (Reading F)) (k : ArrivalChecker F) : Type 0 where
      pub same_radius : k.radius ≡ c.radius
      pub same_speed : k.max_speed ≡ c.max_speed
      pub same_settle : k.settle_sec ≡ c.settle_sec
      pub same_heading : k.max_heading_err ≡ c.max_heading_err
      pub at_stop : k.stop ≡ some p
      pub clock : (t : F) → k.held_since ≡ some t → k.arrived ≡ false → HeldFrom t hist
      pub decided : k.arrived ≡ true → IsDecided hist

    gate-same :
        (hist : List (Reading F)) (k : ArrivalChecker F) (r : Reading F)
        → Traces hist k
        → gate k p r ≡ gate c p r
    unfolding gate
    gate-same hist k r h = rw (h.same_radius, h.same_heading) refl

    -- the clock that an open gate leaves
    settled-HeldFrom :
        (hist : List (Reading F)) (k : ArrivalChecker F) (r : Reading F)
        → Traces hist k
        → k.arrived ≡ false
        → gate c p r ≡ true
        → HeldFrom (since k.held_since r.now_s) (r ∷ hist)
    settled-HeldFrom hist k r h e g = elim (Option-cases k.held_since) [
      | inl never ↦ rw never (first r hist g)
      | inr (t, from) ↦ rw from (further t r hist g (h.clock t from e))
    ]

    settle-Traces :
        (hist : List (Reading F)) (k : ArrivalChecker F) (r : Reading F)
        → Traces hist k
        → k.arrived ≡ false
        → gate c p r ≡ true
        → Traces (r ∷ hist) (settle k r)
    unfolding settle
    settle-Traces hist k r h e g =
        let long = settled-HeldFrom hist k r h e g in
        record {
          same_radius = h.same_radius;
          same_speed = h.same_speed;
          same_settle = h.same_settle;
          same_heading = h.same_heading;
          at_stop = h.at_stop;
          clock = λ t e' _. rw (← some-injective _ _ e') long;
          decided = λ a. elim (Bool-cases (le r.estimated_speed_mps k.max_speed)) [
            | inl stopped ↦ slow r hist g (rw (← h.same_speed) stopped)
            | inr moving ↦ held _ r hist long (rw (← h.same_settle) (ground arith))
          ];
        }

    done-Traces :
        (hist : List (Reading F)) (k : ArrivalChecker F) (r : Reading F)
        → Traces hist k
        → k.arrived ≡ true
        → Traces (r ∷ hist) k
    done-Traces hist k r h done = record {
      same_radius = h.same_radius;
      same_speed = h.same_speed;
      same_settle = h.same_settle;
      same_heading = h.same_heading;
      at_stop = h.at_stop;
      clock = λ t _ e. absurd (ground (arith, done));
      decided = λ _. earlier r hist (h.decided done);
    }

    shut-Traces :
        (hist : List (Reading F)) (k : ArrivalChecker F) (r : Reading F)
        → Traces hist k
        → k.arrived ≡ false
        → Traces (r ∷ hist) (record k { held_since = none })
    shut-Traces hist k r h going = record {
      same_radius = h.same_radius;
      same_speed = h.same_speed;
      same_settle = h.same_settle;
      same_heading = h.same_heading;
      at_stop = h.at_stop;
      clock = λ t e _. absurd (ground (arith, e));
      decided = λ e. absurd (ground (arith, going));
    }

    update-Traces :
        (hist : List (Reading F)) (k : ArrivalChecker F) (r : Reading F)
        → Traces hist k
        → Traces (r ∷ hist) (update k r).0
    update-Traces hist k r h = elim (Bool-cases k.arrived) [
      | inl done ↦ rw (update_done k p r h.at_stop done) (done-Traces hist k r h done)
      | inr going ↦ elim (Bool-cases (gate k p r)) [
        | inl opened ↦
            rw (update_open k p r h.at_stop going opened)
              (settle-Traces hist k r h going (sym (gate-same hist k r h) ∙ opened))
        | inr shut ↦ rw (update_shut k p r h.at_stop going shut) (shut-Traces hist k r h going)
      ]
    ]

    run-Traces : (hist : List (Reading F)) → Traces hist (run (start_mission c p) hist)
    unfolding run start_mission
    run-Traces [] = record {
      same_radius = refl;
      same_speed = refl;
      same_settle = refl;
      same_heading = refl;
      at_stop = refl;
      clock = λ t e _. absurd (ground (arith, e));
      decided = λ e. absurd (ground (arith, e));
    }
    run-Traces (r ∷ older) = update-Traces older _ r (run-Traces older)

    -- A mission that has arrived had, at some reading, its gate open and either an estimated speed
    -- of at most the limit, or a gate that had been open without a break since a reading at least
    -- the settling time before.
    pub arrived-IsDecided :
        (hist : List (Reading F)) → (run (start_mission c p) hist).arrived ≡ true → IsDecided hist
    arrived-IsDecided hist h = (run-Traces hist).decided h
