-- ===== src/Health/Watchdog.antt =====
-- ros2_resilience/health/watchdog.py: the age of the content, and the loss in a trailing window.
pub mod History
pub mod Latching
use ros2_resilience.Prelude.{
  ℕ, Bool, true, false, Option, none, some, List, [], ◌∷◌, ◌++◌, filter, length, ltb, leb_ℤ, ltb_ℤ,
  if◌then◌else◌, ℤ, pos, sub_ℕ, ◌-ℤ◌,
}
use ros2_resilience.Python.Float.{Float, nought, one, to_seconds, seconds_to_ns}
use ros2_resilience.Python.Result.{Result, ok, raise, value_error, assertion_error, ◌>>=◌}
use ros2_resilience.Python.Value.{
  Value, validate_nonnegative_int, validate_positive, validate_fraction,
}

pub data ViolationReason : Type 0 where
  message_age_exceeded loss_fraction_exceeded : ViolationReason

pub record WatchdogStatus (F : Type 0) : Type 0 where
  pub violated : Bool
  pub reason : Option ViolationReason
  pub age_sec : Option F
  pub loss_fraction : Option F

pub record WatchdogEvaluator (F : Type 0) : Type 0 where
  pub max_age_ns : ℤ
  pub expected_rate_hz : F
  pub loss_window_ns : ℤ
  pub max_loss_fraction : F
  pub arrivals : List ℕ
  pub first_arrival_ns : Option ℕ
  pub last_arrival_ns : Option ℕ
  pub latest_stamp_ns : Option ℕ
  pub latched : Bool
  pub latched_reason : Option ViolationReason

module _ {F : Type 0} ⦃f : Float F⦄ where
  -- `WatchdogEvaluator.__init__`
  unfoldable pub init : Value F → Value F → Value F → Value F → Result (WatchdogEvaluator F)
  unfolding validate_positive validate_fraction seconds_to_ns
  init max_age_sec expected_rate_hz loss_window_sec max_loss_fraction = do
    max_age ← validate_positive max_age_sec
    max_age_ns ← seconds_to_ns max_age
    rate ← validate_positive expected_rate_hz
    window ← validate_positive loss_window_sec
    window_ns ← seconds_to_ns window
    fraction ← validate_fraction max_loss_fraction
    ok (record {
      max_age_ns = max_age_ns;
      expected_rate_hz = rate;
      loss_window_ns = window_ns;
      max_loss_fraction = fraction;
      arrivals = [];
      first_arrival_ns = none;
      last_arrival_ns = none;
      latest_stamp_ns = none;
      latched = false;
      latched_reason = none;
    })

-- `now_ns must not move backwards`
abbrev check_forward : Option ℕ → ℕ → Result (Unit {0})
check_forward none now = ok tt
check_forward (some last) now = if ltb now last then raise value_error else ok tt

abbrev first_of : Option ℕ → ℕ → Option ℕ
first_of none now = some now
first_of (some first) now = some first

abbrev latest_of : Option ℕ → ℕ → Option ℕ
latest_of none stamp = some stamp
latest_of (some latest) stamp = if ltb latest stamp then some stamp else some latest

-- the arrivals at or after the start of the window, which may lie before time 0
abbrev pub in_window : ℤ → ℕ → ℕ → Bool
in_window window_ns now t = leb_ℤ (pos now -ℤ window_ns) (pos t)

-- `min(a, b)`
abbrev min_ℤ : ℤ → ℤ → ℤ
min_ℤ a b = if ltb_ℤ b a then b else a

module _ {F : Type 0} where
  -- the stamp, which is the time of arrival where none is given
  abbrev effective_stamp : ℕ → Option (Value F) → Result ℕ
  effective_stamp now none = ok now
  effective_stamp now (some stamp_ns) = validate_nonnegative_int stamp_ns

  -- the last lines of `record_arrival`, once the arguments are checked
  unfoldable pub arrive : WatchdogEvaluator F → ℕ → ℕ → WatchdogEvaluator F
  arrive w now stamp = record w {
    first_arrival_ns = first_of w.first_arrival_ns now;
    arrivals = w.arrivals ++ (now ∷ []);
    last_arrival_ns = some now;
    latest_stamp_ns = latest_of w.latest_stamp_ns stamp;
  }

  -- the checks of `record_arrival`: the time and the stamp
  unfoldable pub accept : Option ℕ → Value F → Option (Value F) → Result (ℕ × ℕ)
  unfolding validate_nonnegative_int
  accept last now_ns stamp_ns = do
    now ← validate_nonnegative_int now_ns
    _ ← check_forward last now
    stamp ← effective_stamp now stamp_ns
    ok (now, stamp)

  unfoldable pub record_arrival :
      WatchdogEvaluator F → Value F → Option (Value F) → Result (WatchdogEvaluator F)
  unfolding accept arrive
  record_arrival w now_ns stamp_ns = do
    (now, stamp) ← accept w.last_arrival_ns now_ns stamp_ns
    ok (arrive w now stamp)

  unfoldable pub reset : WatchdogEvaluator F → WatchdogEvaluator F
  reset w = record w {
    arrivals = [];
    first_arrival_ns = none;
    last_arrival_ns = none;
    latest_stamp_ns = none;
    latched = false;
    latched_reason = none;
  }

  unfoldable pub prune : WatchdogEvaluator F → ℕ → WatchdogEvaluator F
  unfolding filter ◌-ℤ◌
  prune w now = record w { arrivals = filter (in_window w.loss_window_ns now) w.arrivals }

  abbrev pub status : Bool → Option ViolationReason → Option F → Option F → WatchdogStatus F
  status v r a l = record { violated = v; reason = r; age_sec = a; loss_fraction = l }

module _ {F : Type 0} ⦃f : Float F⦄ where
  -- `max(0.0, x)`
  abbrev max_nought : F → F
  max_nought x = if f.lt nought x then x else nought

  -- the loss since the first arrival, or over the window if that is shorter
  unfoldable pub loss_fraction_at : WatchdogEvaluator F → ℕ → ℕ → F
  unfolding to_seconds
  loss_fraction_at w first now =
      let elapsed_ns = min_ℤ w.loss_window_ns (sub_ℕ now first) in
      let expected = f.mul w.expected_rate_hz (to_seconds elapsed_ns) in
      let lost = f.sub one (f.div (f.of_int (pos (length w.arrivals))) expected) in
      if f.lt nought expected then max_nought lost else nought

  -- the violation that the values show, the age first
  unfoldable pub reason_at : WatchdogEvaluator F → ℕ → ℕ → F → Option ViolationReason
  reason_at w latest now loss =
      if ltb_ℤ w.max_age_ns (sub_ℕ now latest)
      then some message_age_exceeded
      else if f.lt w.max_loss_fraction loss
      then some loss_fraction_exceeded
      else none

  -- latch a reason that is found
  unfoldable pub conclude :
      WatchdogEvaluator F → Option ViolationReason → F → F → WatchdogStatus F × WatchdogEvaluator F
  conclude w none age loss = (status false none (some age) (some loss), w)
  conclude w (some reason) age loss = (
    status true (some reason) (some age) (some loss),
    record w { latched = true; latched_reason = some reason },
  )

  unfoldable pub judge : WatchdogEvaluator F → ℕ → ℕ → ℕ → WatchdogStatus F × WatchdogEvaluator F
  unfolding loss_fraction_at reason_at conclude to_seconds
  judge w first latest now =
      let age = to_seconds (sub_ℕ now latest) in
      let loss = loss_fraction_at w first now in
      if w.latched
      then (status true w.latched_reason (some age) (some loss), w)
      else conclude w (reason_at w latest now loss) age loss

  -- the body of `check` after the pruning, by what is known of the arrivals
  unfoldable pub verdict :
      WatchdogEvaluator F
      → ℕ
      → Option ℕ
      → Option ℕ
      → Option ℕ
      → Result (WatchdogStatus F) × WatchdogEvaluator F
  unfolding judge
  verdict w now none first latest = (
    ok (if w.latched then status true w.latched_reason none none else status false none none none),
    w,
  )
  verdict w now (some last) none latest = (raise assertion_error, w)
  verdict w now (some last) (some first) none = (raise assertion_error, w)
  verdict w now (some last) (some first) (some latest) =
      let (s, w') = judge w first latest now in (ok s, w')

  unfoldable pub check_at :
      WatchdogEvaluator F → Result ℕ → Result (WatchdogStatus F) × WatchdogEvaluator F
  unfolding verdict prune
  check_at w (raise e) = (raise e, w)
  check_at w (ok now) =
      verdict (prune w now) now w.last_arrival_ns w.first_arrival_ns w.latest_stamp_ns

  unfoldable pub check :
      WatchdogEvaluator F → Value F → Result (WatchdogStatus F) × WatchdogEvaluator F
  unfolding check_at validate_nonnegative_int
  check w now_ns = check_at w (validate_nonnegative_int now_ns)
