-- ===== src/Safety/Supervisor/Gate.antt =====
-- Every motor output is checked and limited by `apply`.
use autonomous_rc_taxi.Prelude.{
  Bool, ap, ◌∙◌, if◌then◌else◌, true, false, ◌≡◌, ◌⊎◌, refl, arith, Bool-cases, inl, inr,
}
use autonomous_rc_taxi.Core.Enums.{is_driving}
use autonomous_rc_taxi.Floats.{Double, nought, lit, min}
use autonomous_rc_taxi.Floats.Laws.{IsOrdered, IsNumber, ◌≼◌, clamp_bounds}
use autonomous_rc_taxi.Result.{Result, ok, err, zero_division}
use autonomous_rc_taxi.Core.Models.{ControlCommand, stop_command}
use autonomous_rc_taxi.Core.Store.{set_control_command}
use autonomous_rc_taxi.Hardware.Laws.{not-lt_of_le, set_throttle_ok, set_angle_deg_ok}
use autonomous_rc_taxi.Safety.Supervisor.{Plant, Limits, blocked, applied, apply, output}
use autonomous_rc_taxi.Hardware.{MotorDriver, SteeringDriver, set_angle_deg}

module _ {F : Type 0} ⦃d : Double F⦄ (laws : IsOrdered F) where
  open laws use {number_of_le, le_trans, neg_nonpos, lit_nonneg}

  -- what the supervisor may send to the drivers
  pub record IsWithin (k : Limits F) (c : ControlCommand F) : Type 0 where
    pub throttle_ge : nought ≼ c.throttle
    pub throttle_le : c.throttle ≼ k.max_throttle
    pub wheel_ge : d.neg k.max_wheel ≼ c.steering_wheel_deg
    pub wheel_le : c.steering_wheel_deg ≼ k.max_wheel

  pub record IsSane (k : Limits F) : Type 0 where
    pub throttle : nought ≼ k.max_throttle
    pub wheel : nought ≼ k.max_wheel

  neg-le : (x : F) → nought ≼ x → d.neg x ≼ x
  neg-le x h = le_trans (d.neg x) nought x (neg_nonpos x h) h

  min_nought : ◌≡◌ {A = F} (min nought (lit 1 0)) nought
  min_nought = ground (arith, not-lt_of_le laws nought (lit 1 0) (lit_nonneg 1 0))

  applied-IsWithin :
      (k : Limits F) (p : Plant F) (c : ControlCommand F)
      → IsSane k
      → IsNumber c.throttle
      → IsNumber c.steering_wheel_deg
      → IsWithin k (applied k p c)
  applied-IsWithin k p c sane t w =
      let speed = clamp_bounds laws c.throttle nought k.max_throttle t sane.throttle in
      let turn =
        clamp_bounds laws c.steering_wheel_deg (d.neg k.max_wheel) k.max_wheel w
          (neg-le k.max_wheel sane.wheel) in
      elim (Bool-cases (blocked p)) [
        | inl b ↦ rw b (record {
          throttle_ge = lit_nonneg 0 0;
          throttle_le = sane.throttle;
          wheel_ge = neg_nonpos k.max_wheel sane.wheel;
          wheel_le = sane.wheel;
        })
        | inr b ↦ rw b (record {
          throttle_ge = speed.0;
          throttle_le = speed.1;
          wheel_ge = turn.0;
          wheel_le = turn.1;
        })
      ]

  -- For limits that are not negative, a command without NaN and a steering ratio that is not 0,
  -- `apply` does not raise: it sends one command within the limits; the store records just that
  -- command, the motor runs at its throttle (at most 1.0), and the latch is as before.
  pub apply_gate :
      (k : Limits F) (p : Plant F) (c : ControlCommand F)
      → IsSane k
      → IsNumber c.throttle
      → IsNumber c.steering_wheel_deg
      → d.eq p.steering.ratio nought ≡ false
      → let (r, p') = apply k p c in
        (sent : ControlCommand F) × (r ≡ ok sent)
        × IsWithin k sent
        × (p'.store ≡ record p.store { control_command = sent })
        × (p'.motor.throttle ≡ min sent.throttle (lit 1 0))
        × (p'.latched ≡ p.latched)
  unfolding apply set_control_command
  apply_gate k p c sane t w ratio =
      let sent : ControlCommand F = applied k p c in
      let within = applied-IsWithin k p c sane t w in
      let accepted = set_throttle_ok laws p.motor sent.throttle within.throttle_ge in
      let turned = set_angle_deg_ok laws p.steering sent.steering_wheel_deg ratio in
      (
        sent,
        rw (accepted, turned) refl,
        within,
        rw (accepted, turned) refl,
        rw (accepted, turned) refl,
        rw (accepted, turned) refl,
      )

  -- what a blocked output answers
  abbrev stop_answer : SteeringDriver F → Result (ControlCommand F)
  stop_answer s = if d.eq s.ratio nought then err zero_division else ok stop_command

  -- the outputs of the stop command, by the test of the ratio
  outputs_stop :
      (b : Bool) (p : Plant F) (m : MotorDriver F)
      → d.eq p.steering.ratio nought ≡ b
      → let (r, p') = output stop_command p (ok m) in
        (r ≡ stop_answer p.steering)
        × (p'.motor ≡ m)
        × (p'.store ≡ record p.store {
          control_command = if b then p.store.control_command else stop_command;
        })
        × (p'.latched ≡ p.latched)
  unfolding output set_angle_deg set_control_command
  outputs_stop true p m e = rw e (refl, refl, refl, refl)
  outputs_stop false p m e = rw e (refl, refl, refl, refl)

  -- If the stop is latched, or the pose is stale, or the state is no driving one, `apply` puts the
  -- motor to rest whatever the command says, NaN included, and leaves the latch alone. It sends and
  -- records the stop command, unless the steering ratio is 0: then the steering driver raises
  -- ZeroDivisionError behind the motor's rest, and nothing is recorded.
  pub apply_blocked :
      (k : Limits F) (p : Plant F) (c : ControlCommand F)
      → (p.latched ≡ true)
        ⊎ ((p.store.pose_stale ≡ true) ⊎ (is_driving p.store.driving_state ≡ false))
      → let (r, p') = apply k p c in
        let raises = d.eq p.steering.ratio nought in
        (r ≡ (if raises then err zero_division else ok stop_command))
        × (p'.motor.throttle ≡ nought)
        × (p'.store ≡ record p.store {
          control_command = if raises then p.store.control_command else stop_command;
        })
        × (p'.latched ≡ p.latched)
  unfolding apply
  apply_blocked k p c b =
      let closed : blocked p ≡ true = ground arith in
      let accepted = set_throttle_ok laws p.motor nought (lit_nonneg 0 0) in
      let (sent, motor, store, latch) =
        outputs_stop (d.eq p.steering.ratio nought) p
          (record p.motor {
            throttle = min nought (lit 1 0);
            stopped = d.eq (min nought (lit 1 0)) nought;
          })
          refl in
      rw (closed, accepted) (sent, ap (λ m. m.throttle) motor ∙ min_nought, store, latch)
