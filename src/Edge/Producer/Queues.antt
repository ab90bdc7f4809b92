-- ===== src/Edge/Producer/Queues.antt =====
-- The choice of a queue by `io_service`, and the failed registration.
use crowdsensing.Common.{ℕ, ◌<◌, ◌≡◌, arith, ok, err, division_by_zero, null_pointer, refl}
use native.Mathlib.Nat.{mod-eq_of_lt}
use crowdsensing.Libraries.{Libraries}
use crowdsensing.Edge.Producer.State.{State, producer, io_service, on_register_failed}

module _ {lib : Libraries} where
  -- A producer has no queue: choosing one divides by zero, in every mode.
  pub io_service-producer : (mode : ℕ) → io_service (producer lib mode) ≡ err division_by_zero
  unfolding io_service producer
  io_service-producer mode = refl

  -- With two queues or more, a producer that is at queue 0 chooses queue 0 and stays as it was.
  pub io_service_stuck :
      (s : State lib) → 1 < s.num_queue → s.current_queue ≡ 0 → io_service s ≡ ok (0, s)
  unfolding io_service
  io_service_stuck s h e = ground (arith, mod-eq_of_lt h)

  -- Registering a prefix never sets the pointer that a failure is reported through.
  pub on_register_failed-producer :
      (mode : ℕ) → on_register_failed (producer lib mode) ≡ err null_pointer
  unfolding on_register_failed producer
  on_register_failed-producer mode = refl
