-- ===== src/Core/Sections/Sound.antt =====
-- The sections that core/validation.py accepts, and what it raises for the others.
use package.text.Mathlib.Text.{◌==◌ as str_eq}
use ros2_resilience.Prelude.{
  Bool, true, false, ◌≡◌, refl, String, Option, none, some, [], arith, if◌then◌else◌,
}
use ros2_resilience.Python.Float.{Float}
use ros2_resilience.Python.Result.{Result, Checked, returned, refused, Checked-bind}
use ros2_resilience.Python.Value.{Value, Entries}
use ros2_resilience.Core.Fields.{find, get, has_only, is_member}
use ros2_resilience.Core.Fields.Reads.{
  IsRefusal, Anything, demand-Checked, require_mapping-Checked, reject_unknown_keys-Checked,
  find-has_only, require_nonempty_str-Checked, require_nonnegative_int-Checked,
  require_float-Checked, require_positive_float-Checked, require_nonnegative_float-Checked,
  require_probability-Checked,
}
use ros2_resilience.Core.Scenario.{FaultKind, healthy, dropout, latency, stale}
use ros2_resilience.Core.Sections.{
  robot_keys, system_keys, experiment_keys, fault_keys, watchdog_keys, supported_message_type,
  supported_recovery_action, fault_kind, or_empty, absent_or_zero, allowed_parameters,
  required_parameters, has_all, is_set, read_optional, parse_robot, parse_system, parse_experiment,
  parse_parameters, parse_duration, parse_fault, parse_watchdog,
}
use ros2_resilience.Core.Accepted.{
  IsRobotConfig, IsSystem, IsTiming, Fits, Lasts, IsFaultSpec, IsWatchdog, IsProbability,
  IsNonnegative,
}

choose-Checked :
    {A : Type 0} {P : A → Type 0} {m n : Result A} (b : Bool)
    → Checked IsRefusal P m
    → Checked IsRefusal P n
    → Checked IsRefusal P (if b then m else n)
choose-Checked true h k = h
choose-Checked false h k = k

fault_kind-Checked : (s : String) → Checked IsRefusal Anything (fault_kind s)
unfolding fault_kind
fault_kind-Checked s = choose-Checked (str_eq s "none") (returned tt) (
    choose-Checked (str_eq s "dropout") (returned tt) (
      choose-Checked (str_eq s "latency") (returned tt)
        (choose-Checked (str_eq s "stale") (returned tt) (refused tt))))

module _ {F : Type 0} ⦃f : Float F⦄ where
  pub parse_robot-Checked :
      (section : Entries F) → Checked IsRefusal IsRobotConfig (parse_robot section)
  unfolding parse_robot
  parse_robot-Checked section = Checked-bind (reject_unknown_keys-Checked section robot_keys) λ _ _.
      Checked-bind (require_positive_float-Checked section "publish_rate_hz") λ r hr.
        Checked-bind (require_float-Checked section "initial_linear_velocity_mps") λ x hx.
          Checked-bind (require_float-Checked section "initial_angular_velocity_rad_s")
            λ z hz. returned (record { rate = hr; linear = hx; angular = hz })

  pub parse_system-Checked :
      (section : Entries F) → Checked IsRefusal IsSystem (parse_system section)
  unfolding parse_system
  parse_system-Checked section =
      Checked-bind (reject_unknown_keys-Checked section system_keys) λ _ _.
        Checked-bind (require_nonempty_str-Checked section "message_type") λ m hm.
          Checked-bind (demand-Checked (str_eq m supported_message_type)) λ _ hs.
            Checked-bind (require_mapping-Checked (get "robot" section)) λ rs _.
              Checked-bind (parse_robot-Checked rs) λ r hr.
                Checked-bind (require_nonempty_str-Checked section "input_topic") λ i hi.
                  Checked-bind (require_nonempty_str-Checked section "output_topic") λ o ho.
                    Checked-bind (require_nonempty_str-Checked section "command_topic") λ c hc.
                      returned (record {
                        input = hi;
                        output = ho;
                        message = hm;
                        supported = hs;
                        command = hc;
                        robot = hr;
                      })

  pub parse_experiment-Checked :
      (section : Entries F) → Checked IsRefusal IsTiming (parse_experiment section)
  unfolding parse_experiment
  parse_experiment-Checked section =
      Checked-bind (reject_unknown_keys-Checked section experiment_keys) λ _ _.
        Checked-bind (require_nonnegative_int-Checked section "seed") λ _ _.
          Checked-bind (require_positive_float-Checked section "readiness_timeout_sec") λ r hr.
            Checked-bind (require_positive_float-Checked section "healthy_baseline_sec") λ b hb.
              Checked-bind
                (require_positive_float-Checked section "observation_after_activation_sec")
                λ o ho. returned (record { readiness = hr; baseline = hb; observation = ho })

  pub parse_watchdog-Checked :
      (section : Entries F) → Checked IsRefusal IsWatchdog (parse_watchdog section)
  unfolding parse_watchdog
  parse_watchdog-Checked section =
      Checked-bind (reject_unknown_keys-Checked section watchdog_keys) λ _ _.
        Checked-bind (require_nonempty_str-Checked section "recovery") λ r hr.
          Checked-bind (demand-Checked (str_eq r supported_recovery_action)) λ _ hs.
            Checked-bind (require_positive_float-Checked section "max_age_sec") λ a ha.
              Checked-bind (require_positive_float-Checked section "expected_rate_hz") λ e he.
                Checked-bind (require_positive_float-Checked section "loss_window_sec") λ w hw.
                  Checked-bind (require_probability-Checked section "max_loss_fraction") λ p hp.
                    Checked-bind (require_positive_float-Checked section "check_period_sec") λ c hc.
                      returned (record {
                        age = ha;
                        rate = he;
                        window = hw;
                        fraction = hp;
                        period = hc;
                        recovery = hr;
                        supported = hs;
                      })

  parse_duration-Checked :
      (kind : FaultKind) (section : Entries F)
      → Checked IsRefusal (Lasts kind) (parse_duration kind section)
  unfolding parse_duration
  parse_duration-Checked healthy section =
      Checked-bind (demand-Checked (absent_or_zero (find "duration_sec" section)))
        λ _ _. returned refl
  parse_duration-Checked dropout section = require_positive_float-Checked section "duration_sec"
  parse_duration-Checked latency section = require_positive_float-Checked section "duration_sec"
  parse_duration-Checked stale section = require_positive_float-Checked section "duration_sec"

  -- a parameter that is read when its key is in the section
  IsRead : (F → Type 0) → Option (Value F) → Option F → Type 0
  IsRead P none none = Unit
  IsRead P none (some x) = ⊥
  IsRead P (some v) none = ⊥
  IsRead P (some v) (some x) = P x

  read_optional-Checked :
      {P : F → Type 0} {require : Entries F → String → Result F}
      → ((section : Entries F) (key : String) → Checked IsRefusal P (require section key))
      → (section : Entries F) (key : String) (v : Option (Value F))
      → Checked IsRefusal (IsRead P v) (read_optional require section key (is_set v))
  unfolding IsRead
  read_optional-Checked h section key none = returned tt
  read_optional-Checked h section key (some v) = Checked-bind (h section key) λ x hx. returned hx

  unread :
      (P : F → Type 0) (v : Option (Value F)) (x : Option F) → v ≡ none → IsRead P v x → x ≡ none
  unfolding IsRead
  unread _ none none h k = refl
  unread _ none (some x) h k = absurd k
  unread _ (some v) x h k = cc

  read :
      (P : F → Type 0) (v : Option (Value F)) (x : Option F)
      → is_set v ≡ true
      → IsRead P v x
      → (a : F) × (x ≡ some a) × P a
  unfolding IsRead
  read _ none x h k = cc
  read _ (some v) none h k = absurd k
  read _ (some v) (some a) h k = (a, refl, k)

  maybe_read : (P : F → Type 0) (v : Option (Value F)) (x : F) → IsRead P v (some x) → P x
  unfolding IsRead
  maybe_read _ none x h = absurd h
  maybe_read _ (some v) x h = h

  with_jitter :
      (delay : F) (v : Option (Value F)) (jitter : Option F)
      → IsNonnegative delay
      → IsRead IsNonnegative v jitter
      → Fits latency none (some delay) jitter
  with_jitter delay v none h k = h
  with_jitter delay v (some j) h k = (h, maybe_read _ v j k)

  -- what the keys of the section say of the parameters read
  fits :
      (kind : FaultKind) (section : Entries F) (p delay jitter : Option F)
      → has_only (allowed_parameters kind) section ≡ true
      → has_all (required_parameters kind) section ≡ true
      → IsRead IsProbability (find "drop_probability" section) p
      → IsRead IsNonnegative (find "delay_sec" section) delay
      → IsRead IsNonnegative (find "jitter_sec" section) jitter
      → Fits kind p delay jitter
  unfolding has_all is_member
  fits healthy section p delay jitter only all hp hd hj =
      rw
        (
          unread _ (find "drop_probability" section) p (find-has_only _ [] section only refl) hp,
          unread _ (find "delay_sec" section) delay (find-has_only _ [] section only refl) hd,
          unread _ (find "jitter_sec" section) jitter (find-has_only _ [] section only refl) hj,
        )
        tt
  fits stale section p delay jitter only all hp hd hj =
      rw
        (
          unread _ (find "drop_probability" section) p (find-has_only _ [] section only refl) hp,
          unread _ (find "delay_sec" section) delay (find-has_only _ [] section only refl) hd,
          unread _ (find "jitter_sec" section) jitter (find-has_only _ [] section only refl) hj,
        )
        tt
  fits dropout section p delay jitter only all hp hd hj =
      let keys = required_parameters dropout in
      let (x, same, px) = read _ (find "drop_probability" section) p (ground arith) hp in
      rw
        (
          same,
          unread _ (find "delay_sec" section) delay (find-has_only _ keys section only refl) hd,
          unread _ (find "jitter_sec" section) jitter (find-has_only _ keys section only refl) hj,
        )
        px
  fits latency section p delay jitter only all hp hd hj =
      let (x, same, px) = read _ (find "delay_sec" section) delay (ground arith) hd in
      rw
        (
          same,
          unread _ (find "drop_probability" section) p
              (find-has_only _ (allowed_parameters latency) section only refl) hp,
        )
        (with_jitter x (find "jitter_sec" section) jitter px hj)

  parse_parameters-Checked :
      (kind : FaultKind) (section : Entries F)
      → Checked IsRefusal
          (λ ps. Fits kind ps.drop_probability ps.delay_sec ps.jitter_sec)
          (parse_parameters kind section)
  unfolding parse_parameters
  parse_parameters-Checked kind section =
      Checked-bind (reject_unknown_keys-Checked section (allowed_parameters kind)) λ _ only.
        Checked-bind (demand-Checked (has_all (required_parameters kind) section)) λ _ all.
          Checked-bind
            (read_optional-Checked require_probability-Checked section "drop_probability"
              (find "drop_probability" section))
            λ p hp.
              Checked-bind
                (read_optional-Checked require_nonnegative_float-Checked section "delay_sec"
                  (find "delay_sec" section))
                λ d hd.
                  Checked-bind
                    (read_optional-Checked require_nonnegative_float-Checked section "jitter_sec"
                      (find "jitter_sec" section))
                    λ j hj. returned (fits kind section p d j only all hp hd hj)

  pub parse_fault-Checked :
      (section : Entries F) → Checked IsRefusal IsFaultSpec (parse_fault section)
  unfolding parse_fault
  parse_fault-Checked section = Checked-bind (reject_unknown_keys-Checked section fault_keys) λ _ _.
      Checked-bind (require_nonempty_str-Checked section "type") λ t _.
        Checked-bind (fault_kind-Checked t) λ kind _.
          Checked-bind (require_mapping-Checked (or_empty (find "parameters" section))) λ ps _.
            Checked-bind (parse_parameters-Checked kind ps) λ q hq.
              Checked-bind (parse_duration-Checked kind section)
                λ d hd. returned (record { fits = hq; lasts = hd })
