-- ===== src/Core/Validation/Rereading.antt =====
-- The mapping of each section of a scenario but `expect`, read again by core/validation.py.
use ros2_resilience.Prelude.{true, ◌≡◌, refl, Option, none, some}
use ros2_resilience.Python.Float.{Float, nought}
use ros2_resilience.Python.Result.{ok}
use ros2_resilience.Core.Fields.{
  is_blank, find, get, has_only, is_member, reject_unknown_keys, require_mapping,
}
use ros2_resilience.Core.Fields.Stored.{
  text_stored, finite_stored, positive_stored, nonnegative_stored, probability_stored,
}
use ros2_resilience.Core.Scenario.{
  FaultKind, healthy, dropout, latency, stale, RobotConfig, SystemConfig, ExperimentTiming,
  FaultParameters, FaultSpec, WatchdogConfig,
}
use ros2_resilience.Core.Sections.{
  parse_robot, parse_system, parse_experiment, parse_watchdog, parse_parameters, parse_duration,
  fault_kind, has_all, absent_or_zero, is_zero, parse_fault,
}
use ros2_resilience.Core.Accepted.{
  IsText, IsRobotConfig, IsSystem, IsTiming, Fits, Lasts, IsFaultSpec, IsWatchdog,
}
use ros2_resilience.Core.Serialized.{
  kind_text, robot_fields, system_fields, experiment_fields, watchdog_fields, parameter_fields,
  fault_fields,
}

fault_kind-kind_text : (kind : FaultKind) → fault_kind (kind_text kind) ≡ ok kind
unfolding fault_kind
fault_kind-kind_text healthy = refl
fault_kind-kind_text dropout = refl
fault_kind-kind_text latency = refl
fault_kind-kind_text stale = refl

kind_text-IsText : (kind : FaultKind) → IsText (kind_text kind)
unfolding is_blank
kind_text-IsText healthy = refl
kind_text-IsText dropout = refl
kind_text-IsText latency = refl
kind_text-IsText stale = refl

module _ {F : Type 0} ⦃f : Float F⦄ where
  robot_again : (r : RobotConfig F) → IsRobotConfig r → parse_robot (robot_fields r) ≡ ok r
  unfolding parse_robot reject_unknown_keys has_only is_member find
  robot_again r h =
      let es = robot_fields r in
      rw
        (
          positive_stored es "publish_rate_hz" r.publish_rate_hz refl h.rate,
          finite_stored es "initial_linear_velocity_mps" r.initial_linear_velocity_mps refl
              h.linear,
          finite_stored es "initial_angular_velocity_rad_s" r.initial_angular_velocity_rad_s refl
              h.angular,
        )
        refl

  pub system_again : (s : SystemConfig F) → IsSystem s → parse_system (system_fields s) ≡ ok s
  unfolding parse_system reject_unknown_keys has_only is_member find get require_mapping
  system_again s h =
      let es = system_fields s in
      rw
        (
          text_stored es "message_type" s.message_type refl h.message,
          h.supported,
          robot_again s.robot h.robot,
          text_stored es "input_topic" s.input_topic refl h.input,
          text_stored es "output_topic" s.output_topic refl h.output,
          text_stored es "command_topic" s.command_topic refl h.command,
        )
        refl

  pub experiment_again :
      (a : ExperimentTiming F) → IsTiming a → parse_experiment (experiment_fields a) ≡ ok a
  unfolding parse_experiment reject_unknown_keys has_only is_member find
  experiment_again a h =
      let es = experiment_fields a in
      rw
        (
          positive_stored es "readiness_timeout_sec" a.readiness_timeout_sec refl h.readiness,
          positive_stored es "healthy_baseline_sec" a.healthy_baseline_sec refl h.baseline,
          positive_stored es "observation_after_activation_sec" a.observation_after_activation_sec
              refl h.observation,
        )
        refl

  pub watchdog_again :
      (a : WatchdogConfig F) → IsWatchdog a → parse_watchdog (watchdog_fields a) ≡ ok a
  unfolding parse_watchdog reject_unknown_keys has_only is_member find
  watchdog_again a h =
      let es = watchdog_fields a in
      rw
        (
          text_stored es "recovery" a.recovery refl h.recovery,
          h.supported,
          positive_stored es "max_age_sec" a.max_age_sec refl h.age,
          positive_stored es "expected_rate_hz" a.expected_rate_hz refl h.rate,
          positive_stored es "loss_window_sec" a.loss_window_sec refl h.window,
          probability_stored es "max_loss_fraction" a.max_loss_fraction refl h.fraction,
          positive_stored es "check_period_sec" a.check_period_sec refl h.period,
        )
        refl

  parameters_again :
      (kind : FaultKind) (p delay jitter : Option F)
      → Fits kind p delay jitter
      → parse_parameters kind (
          parameter_fields
            (record { drop_probability = p; delay_sec = delay; jitter_sec = jitter }))
        ≡ ok (record { drop_probability = p; delay_sec = delay; jitter_sec = jitter })
  unfolding parse_parameters reject_unknown_keys has_only is_member has_all find
  parameters_again healthy none none (some j) h = elim h [ ]
  parameters_again healthy none (some d) jitter h = elim h [ ]
  parameters_again healthy (some p) delay jitter h = elim h [ ]
  parameters_again dropout none delay jitter h = elim h [ ]
  parameters_again dropout (some p) none (some j) h = elim h [ ]
  parameters_again dropout (some p) (some d) jitter h = elim h [ ]
  parameters_again latency none none jitter h = elim h [ ]
  parameters_again latency (some p) delay jitter h = elim h [ ]
  parameters_again stale none none (some j) h = elim h [ ]
  parameters_again stale none (some d) jitter h = elim h [ ]
  parameters_again stale (some p) delay jitter h = elim h [ ]
  parameters_again healthy none none none h = refl
  parameters_again stale none none none h = refl
  parameters_again dropout (some p) none none h =
      let ps : FaultParameters F = record {
        drop_probability = some p;
        delay_sec = none;
        jitter_sec = none;
      } in
      rw (probability_stored (parameter_fields ps) "drop_probability" p refl h) refl
  parameters_again latency none (some d) none h =
      let ps : FaultParameters F = record {
        drop_probability = none;
        delay_sec = some d;
        jitter_sec = none;
      } in
      rw (nonnegative_stored (parameter_fields ps) "delay_sec" d refl h) refl
  parameters_again latency none (some d) (some j) h =
      let ps : FaultParameters F = record {
        drop_probability = none;
        delay_sec = some d;
        jitter_sec = some j;
      } in
      rw
        (
          nonnegative_stored (parameter_fields ps) "delay_sec" d refl h.0,
          nonnegative_stored (parameter_fields ps) "jitter_sec" j refl h.1,
        )
        refl

  duration_again :
      (kind : FaultKind) (ps : FaultParameters F) (d : F)
      → f.eqb nought nought ≡ true
      → Lasts kind d
      → parse_duration kind
          (fault_fields (record { type = kind; parameters = ps; duration_sec = d }))
        ≡ ok d
  unfolding parse_duration absent_or_zero is_zero find
  duration_again healthy ps d zero h = rw (h, zero) refl
  duration_again dropout ps d zero h =
      positive_stored (fault_fields (record { type = dropout; parameters = ps; duration_sec = d }))
        "duration_sec" d refl h
  duration_again latency ps d zero h =
      positive_stored (fault_fields (record { type = latency; parameters = ps; duration_sec = d }))
        "duration_sec" d refl h
  duration_again stale ps d zero h =
      positive_stored (fault_fields (record { type = stale; parameters = ps; duration_sec = d }))
        "duration_sec" d refl h

  pub fault_again :
      (s : FaultSpec F)
      → f.eqb nought nought ≡ true
      → IsFaultSpec s
      → parse_fault (fault_fields s) ≡ ok s
  unfolding parse_fault reject_unknown_keys has_only is_member find get require_mapping
  fault_again s zero h =
      let ps = s.parameters in
      rw
        (
          text_stored (fault_fields s) "type" (kind_text s.type) refl (kind_text-IsText s.type),
          fault_kind-kind_text s.type,
          parameters_again s.type ps.drop_probability ps.delay_sec ps.jitter_sec h.fits,
          duration_again s.type ps s.duration_sec zero h.lasts,
        )
        refl
