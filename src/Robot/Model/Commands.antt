-- ===== src/Robot/Model/Commands.antt =====
-- The command of robot/model.py holds until it is replaced.
use ros2_resilience.Prelude.{
  ◌⊎◌, ◌≡◌, refl, ap, ◌∙◌, List, [], ◌∷◌, Option, none, some, if◌then◌else◌, Bool-cases, inl, inr,
}
use ros2_resilience.Python.Float.{Float}
use ros2_resilience.Python.Result.{
  Result, Error, ok, raise, type_error, value_error, state_after, ◌>>=◌,
}
use ros2_resilience.Python.Value.{Value, null, boolean, integer, floating, text, sequence, mapping}
use ros2_resilience.Robot.Model
use ros2_resilience.Robot.Model.{
  Trigonometry, Pose, Velocity, RobotModel, make_velocity, validate_finite, advance,
  validate_duration,
}

pub data Call (F : Type 0) : Type 0 where
  set_command : Value F → Value F → Call F
  step : Value F → Call F

module _ {F : Type 0} ⦃f : Float F⦄ where
  -- a finite number, as a float
  unfoldable pub finite_number : Value F → Option F
  finite_number (integer z) = if f.is_finite (f.of_int z) then some (f.of_int z) else none
  finite_number (floating x) = if f.is_finite x then some x else none
  finite_number _ = none

  -- the velocity after a command: that of the command, if both of its numbers are finite
  abbrev commanded_by : Option F → Option F → Velocity F → Velocity F
  commanded_by (some x) (some z) v = record { linear_x = x; angular_z = z }
  commanded_by (some x) none v = v
  commanded_by none z v = v

  -- the last command of two finite numbers, from a first velocity on
  unfoldable pub last_command : List (Call F) → Velocity F → Velocity F
  unfolding finite_number
  last_command [] v = v
  last_command (set_command x z ∷ cs) v =
      last_command cs (commanded_by (finite_number x) (finite_number z) v)
  last_command (step dt ∷ cs) v = last_command cs v

  -- the check raises and there is no finite number, or both give the same
  abbrev Agree : Option F → Result F → Type 0
  Agree o r = ((e : Error) × (o ≡ none) × (r ≡ raise e)) ⊎ ((x : F) × (o ≡ some x) × (r ≡ ok x))

  checked :
      (x : F)
      → Agree
          (if f.is_finite x then some x else none)
          (if f.is_finite x then ok x else raise value_error)
  checked x = elim (Bool-cases (f.is_finite x)) [
    | inl finite ↦ rw finite (inr (x, refl, refl))
    | inr infinite ↦ rw infinite (inl (value_error, refl, refl))
  ]

  finite_number-Agree : (x : Value F) → Agree (finite_number x) (validate_finite x)
  unfolding finite_number validate_finite
  finite_number-Agree (integer z) = checked (f.of_int z)
  finite_number-Agree (floating x) = checked x
  finite_number-Agree null = inl (type_error, refl, refl)
  finite_number-Agree (boolean b) = inl (type_error, refl, refl)
  finite_number-Agree (text s) = inl (type_error, refl, refl)
  finite_number-Agree (sequence vs) = inl (type_error, refl, refl)
  finite_number-Agree (mapping es) = inl (type_error, refl, refl)

  make_velocity-commanded_by :
      (x z : Value F) (v : Velocity F)
      → state_after v (make_velocity x z) ≡ commanded_by (finite_number x) (finite_number z) v
  unfolding make_velocity
  make_velocity-commanded_by x z v = elim (finite_number-Agree x) [
    | inl (e, missing, raised) ↦ rw (missing, raised) refl
    | inr (a, found, returned) ↦ elim (finite_number-Agree z) [
      | inl (e, missing, raised) ↦ rw (found, returned, missing, raised) refl
      | inr (b, found', returned') ↦ rw (found, returned, found', returned') refl
    ]
  ]

  module _ ⦃trig : Trigonometry F⦄ where
    -- the robot after a sequence of calls; one that raises changes nothing
    unfoldable pub run_calls : List (Call F) → RobotModel F → RobotModel F
    run_calls [] m = m
    run_calls (set_command x z ∷ cs) m = run_calls cs (state_after m (Model.set_command m x z))
    run_calls (step dt ∷ cs) m = run_calls cs (state_after m (Model.step m dt))

    commanded :
        (m : RobotModel F) (v : Result (Velocity F))
        → (state_after m (v >>= λ w. ok (record m { velocity = w }))).velocity
          ≡ state_after m.velocity v
    commanded m (ok w) = refl
    commanded m (raise e) = refl

    posed :
        (m : RobotModel F) (p : Result (Pose F))
        → (state_after m (p >>= λ q. ok (record m { pose = q }))).velocity ≡ m.velocity
    posed m (ok q) = refl
    posed m (raise e) = refl

    stepped :
        (m : RobotModel F) (dt : Result F)
        → (state_after m (
            dt >>= λ t. (advance m.pose m.velocity t >>= λ q. ok (record m { pose = q })))).velocity
          ≡ m.velocity
    stepped m (ok t) = posed m (advance m.pose m.velocity t)
    stepped m (raise e) = refl

    -- After any sequence of calls, those that raise included, the velocity is that of the last command
    -- of two finite numbers, the linear one first, or the first velocity if there was none.
    pub velocity-last_command :
        (cs : List (Call F)) (m : RobotModel F)
        → (run_calls cs m).velocity ≡ last_command cs m.velocity
    unfolding run_calls last_command Model.set_command Model.step
    velocity-last_command [] m = refl
    velocity-last_command (set_command x z ∷ cs) m =
        velocity-last_command cs (state_after m (Model.set_command m x z))
        ∙ ap (last_command cs)
            (commanded m (make_velocity x z) ∙ make_velocity-commanded_by x z m.velocity)
    velocity-last_command (step dt ∷ cs) m =
        velocity-last_command cs (state_after m (Model.step m dt))
        ∙ ap (last_command cs) (stepped m (validate_duration dt))
