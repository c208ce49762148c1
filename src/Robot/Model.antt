-- ===== src/Robot/Model.antt =====
-- ros2_resilience/robot/model.py: a velocity command that holds until it is replaced, integrated into
-- a pose. The functions of Python's `math` are parameters. An integer argument is kept as a float.
pub mod Commands
use ros2_resilience.Prelude.{ℤ, Bool, not, ◌||◌, if◌then◌else◌}
use ros2_resilience.Python.Float.{Float, nought}
use ros2_resilience.Python.Result.{Result, ok, raise, type_error, value_error, ◌>>=◌}
use ros2_resilience.Python.Value.{Value, integer, floating}

-- `math.sin` and `math.cos`, which raise for an infinite angle, and `math.atan2`
pub record Trigonometry (F : Type 0) : Type 0 where
  pub sin : F → Result F
  pub cos : F → Result F
  pub atan2 : F → F → F

pub record Pose (F : Type 0) : Type 0 where
  pub x : F
  pub y : F
  pub theta : F

pub record Velocity (F : Type 0) : Type 0 where
  pub linear_x : F
  pub angular_z : F

pub record RobotModel (F : Type 0) : Type 0 where
  pub pose : Pose F
  pub velocity : Velocity F

module _ {F : Type 0} ⦃f : Float F⦄ where
  check_finite : F → Result F
  check_finite x = if f.is_finite x then ok x else raise value_error

  unfoldable pub validate_finite : Value F → Result F
  unfolding check_finite
  validate_finite (integer z) = check_finite (f.of_int z)
  validate_finite (floating x) = check_finite x
  validate_finite _ = raise type_error

  -- two checked velocities, the linear one first
  unfoldable pub make_velocity : Value F → Value F → Result (Velocity F)
  unfolding validate_finite
  make_velocity linear_x angular_z = do
    v ← validate_finite linear_x
    w ← validate_finite angular_z
    ok (record { linear_x = v; angular_z = w })

  -- `RobotModel.__init__`
  unfoldable pub init : Value F → Value F → Result (RobotModel F)
  unfolding make_velocity
  init linear_x angular_z = do
    velocity ← make_velocity linear_x angular_z
    ok (record { pose = record { x = nought; y = nought; theta = nought }; velocity = velocity })

  unfoldable pub set_command : RobotModel F → Value F → Value F → Result (RobotModel F)
  unfolding make_velocity
  set_command m linear_x angular_z = do
    velocity ← make_velocity linear_x angular_z
    ok (record m { velocity = velocity })

  check_duration : F → Result F
  check_duration dt = if not (f.is_finite dt) || f.lt dt nought then raise value_error else ok dt

  -- the checks of `step`
  unfoldable pub validate_duration : Value F → Result F
  unfolding check_duration
  validate_duration (integer z) = check_duration (f.of_int z)
  validate_duration (floating x) = check_duration x
  validate_duration _ = raise type_error

  module _ ⦃trig : Trigonometry F⦄ where
    wrap_angle : F → Result F
    wrap_angle theta = do y ← trig.sin theta; x ← trig.cos theta; ok (trig.atan2 y x)

    along_line : Pose F → F → F → Result (Pose F)
    unfolding wrap_angle
    along_line p v dt = do
      cos ← trig.cos p.theta
      sin ← trig.sin p.theta
      theta ← wrap_angle p.theta
      ok (record {
        x = f.add p.x (f.mul (f.mul v dt) cos);
        y = f.add p.y (f.mul (f.mul v dt) sin);
        theta = theta;
      })

    along_arc : Pose F → F → F → F → Result (Pose F)
    unfolding wrap_angle
    along_arc p v w dt = do
      let turned = f.add p.theta (f.mul w dt)
      sin' ← trig.sin turned
      sin ← trig.sin p.theta
      cos' ← trig.cos turned
      cos ← trig.cos p.theta
      theta ← wrap_angle turned
      ok (record {
        x = f.add p.x (f.mul (f.div v w) (f.sub sin' sin));
        y = f.sub p.y (f.mul (f.div v w) (f.sub cos' cos));
        theta = theta;
      })

    unfoldable pub advance : Pose F → Velocity F → F → Result (Pose F)
    unfolding along_line along_arc
    advance p command dt =
        if f.eqb command.angular_z nought
        then along_line p command.linear_x dt
        else along_arc p command.linear_x command.angular_z dt

    -- `step`, whose result is the new pose of the model
    unfoldable pub step : RobotModel F → Value F → Result (RobotModel F)
    unfolding validate_duration advance
    step m dt_sec = do
      dt ← validate_duration dt_sec
      pose ← advance m.pose m.velocity dt
      ok (record m { pose = pose })
