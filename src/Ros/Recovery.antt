-- ===== src/Ros/Recovery.antt =====
-- The watchdog's commands on their way to the robot: ros/watchdog_node.py publishes them on the topic
-- that ros/robot_node.py subscribes to. The topic keeps their order; it may lose some.
use mathlib.Core.Path.{subst}
use ros2_resilience.Prelude.{
  ℤ, ◌≡◌, refl, ap, ◌∙◌, pos, true, Bool-cases, inl, inr, List, [], ◌∷◌, ◌++◌, All, All-append,
}
use ros2_resilience.Python.Float.{Float, nought}
use ros2_resilience.Python.Result.{
  Result, ok, raise, Ensures, Ensures-bind, state_after, Result-cases,
}
use ros2_resilience.Python.Value.{integer, floating}
use ros2_resilience.Health.Watchdog.{WatchdogEvaluator, WatchdogStatus, check}
use ros2_resilience.Robot.Model
use ros2_resilience.Robot.Model.{
  Trigonometry, Velocity, RobotModel, advance, validate_duration, Pose,
}
use ros2_resilience.Ros.Messages.{Time, Twist, Odometry}
use ros2_resilience.Ros.WatchdogNode
use ros2_resilience.Ros.WatchdogNode.{Output, report}
use ros2_resilience.Ros.WatchdogNode.Latching.{commands}
use ros2_resilience.Ros.RobotNode
use ros2_resilience.Ros.RobotNode.{RobotNode, odometry, publish}

-- What happens next: a handler of a node runs, or a command is lost.
pub data Event (F : Type 0) : Type 0 where
  odometry_arrives : Odometry F → ℤ → Event F
  watchdog_checks : ℤ → Event F
  robot_publishes : Time → Event F
  command_arrives command_lost : Event F

pub record System (F : Type 0) : Type 0 where
  pub watchdog : WatchdogEvaluator F
  pub robot : RobotNode F
  -- the commands that are published and have not arrived, the oldest first
  pub commands_sent : List (Twist F)

module _ {F : Type 0} where
  abbrev commands_of : Result (List (Output F)) → List (Twist F)
  commands_of (raise e) = []
  commands_of (ok outs) = commands outs

  abbrev drop_oldest : List (Twist F) → List (Twist F)
  drop_oldest [] = []
  drop_oldest (t ∷ ts) = ts

module _ {F : Type 0} ⦃f : Float F⦄ where
  -- the robot takes the oldest command
  deliver : List (Twist F) → RobotNode F → RobotNode F
  deliver [] robot = robot
  deliver (t ∷ ts) robot = state_after robot (RobotNode.on_command robot t)

  module _ ⦃trig : Trigonometry F⦄ where
    unfoldable pub next : Event F → System F → System F
    unfolding deliver
    next (odometry_arrives msg clock) s = record s {
      watchdog = state_after s.watchdog (WatchdogNode.on_input s.watchdog msg clock);
    }
    next (watchdog_checks clock) s =
        let (r, w) = WatchdogNode.on_check s.watchdog clock in
        record s { watchdog = w; commands_sent = s.commands_sent ++ commands_of r }
    next (robot_publishes stamp) s = record s { robot = (RobotNode.on_timer s.robot stamp).1 }
    next command_arrives s = record s {
      robot = deliver s.commands_sent s.robot;
      commands_sent = drop_oldest s.commands_sent;
    }
    next command_lost s = record s { commands_sent = drop_oldest s.commands_sent }

    unfoldable pub after : List (Event F) → System F → System F
    after [] s = s
    after (e ∷ es) s = after es (next e s)

    -- the odometry that the robot publishes, or what its handler raises
    unfoldable pub odometries : List (Event F) → System F → List (Result (Odometry F))
    unfolding next
    odometries [] s = []
    odometries (robot_publishes stamp ∷ es) s =
        (RobotNode.on_timer s.robot stamp).0 ∷ odometries es (next (robot_publishes stamp) s)
    odometries (e ∷ es) s = odometries es (next e s)

  abbrev pub IsStill : Odometry F → Type 0
  IsStill o = (o.twist.linear_x ≡ nought) × (o.twist.angular_z ≡ nought)

  abbrev IsStop : Twist F → Type 0
  IsStop t = (t.linear_x ≡ nought) × (t.angular_z ≡ nought)

  -- every command on its way is the stop command
  abbrev AllStop : List (Twist F) → Type 0
  AllStop ts = All IsStop ts

  abbrev HasStopped : RobotNode F → Type 0
  HasStopped n = (n.model.velocity.linear_x ≡ nought) × (n.model.velocity.angular_z ≡ nought)

  report-AllStop : (s : WatchdogStatus F) → AllStop (commands (report s))
  unfolding report
  report-AllStop s = elim (Bool-cases s.violated) [
    | inl violated ↦ rw violated ((refl, refl), tt)
    | inr fine ↦ rw fine tt
  ]

  on_check-AllStop :
      (w : WatchdogEvaluator F) (clock : ℤ)
      → AllStop (commands_of (WatchdogNode.on_check w clock).0)
  unfolding WatchdogNode.on_check
  on_check-AllStop w clock = elim (Result-cases (check w (integer clock)).0) [
    | inl (e, same) ↦ rw same tt
    | inr (s, same) ↦ rw same (report-AllStop s)
  ]

  drop_oldest-AllStop : (ts : List (Twist F)) → AllStop ts → AllStop (drop_oldest ts)
  drop_oldest-AllStop [] h = tt
  drop_oldest-AllStop (t ∷ ts) h = h.1

  -- The robot takes the stop command, as 0.0 is finite.
  on_command-HasStopped :
      (n : RobotNode F) (t : Twist F)
      → f.is_finite nought ≡ true
      → IsStop t
      → HasStopped (state_after n (RobotNode.on_command n t))
  unfolding RobotNode.on_command Model.set_command Model.make_velocity Model.validate_finite
  on_command-HasStopped n t finite h = rw (h.0, h.1, finite) (refl, refl)

  deliver-HasStopped :
      (ts : List (Twist F)) (n : RobotNode F)
      → f.is_finite nought ≡ true
      → AllStop ts
      → HasStopped n
      → HasStopped (deliver ts n)
  unfolding deliver
  deliver-HasStopped [] n finite all h = h
  deliver-HasStopped (t ∷ ts) n finite all h = on_command-HasStopped n t finite all.0

  module _ ⦃trig : Trigonometry F⦄ where
    step-velocity :
        (m : RobotModel F) (dt : F)
        → Ensures (λ m'. m'.velocity ≡ m.velocity) (Model.step m (floating dt))
    unfolding Model.step
    step-velocity m dt =
        Ensures-bind _ (validate_duration (floating dt)) _
          λ t _. Ensures-bind _ (advance m.pose m.velocity t) _ λ pose _. refl

    odometry-IsStill :
        (m : RobotModel F) (stamp : Time)
        → m.velocity.linear_x ≡ nought
        → m.velocity.angular_z ≡ nought
        → Ensures IsStill (odometry m stamp)
    unfolding odometry
    odometry-IsStill m stamp h k =
        let half = f.div m.pose.theta (f.of_int (pos 2)) in
        Ensures-bind IsStill (trig.sin half) _
          λ z _. Ensures-bind IsStill (trig.cos half) _ λ w _. (h, k)

    publish-HasStopped :
        (n : RobotNode F) (stamp : Time) (r : Result (RobotModel F))
        → Ensures (λ m. m.velocity ≡ n.model.velocity) r
        → HasStopped n
        → Ensures IsStill (publish n stamp r).0 × HasStopped (publish n stamp r).1
    unfolding publish
    publish-HasStopped n stamp (raise e) same h = (tt, h)
    publish-HasStopped n stamp (ok m) same h =
        let linear : m.velocity.linear_x ≡ nought = ap (λ v. v.linear_x) same ∙ h.0 in
        let angular : m.velocity.angular_z ≡ nought = ap (λ v. v.angular_z) same ∙ h.1 in
        (odometry-IsStill m stamp linear angular, (linear, angular))

    -- The robot has stopped, and no other command is on its way.
    abbrev IsSafe : System F → Type 0
    IsSafe s = HasStopped s.robot × AllStop s.commands_sent

    next-AllStop :
        (e : Event F) (s : System F) → AllStop s.commands_sent → AllStop (next e s).commands_sent
    unfolding next
    next-AllStop (odometry_arrives msg clock) s h = h
    next-AllStop (watchdog_checks clock) s h =
        All-append IsStop s.commands_sent (commands_of (WatchdogNode.on_check s.watchdog clock).0) h
          (on_check-AllStop s.watchdog clock)
    next-AllStop (robot_publishes stamp) s h = h
    next-AllStop command_arrives s h = drop_oldest-AllStop s.commands_sent h
    next-AllStop command_lost s h = drop_oldest-AllStop s.commands_sent h

    after-AllStop :
        (es : List (Event F)) (s : System F)
        → AllStop s.commands_sent
        → AllStop (after es s).commands_sent
    unfolding after
    after-AllStop [] s h = h
    after-AllStop (e ∷ es) s h = after-AllStop es (next e s) (next-AllStop e s h)

    odometries-IsStill :
        (es : List (Event F)) (s : System F)
        → f.is_finite nought ≡ true
        → IsSafe s
        → All (Ensures IsStill) (odometries es s)
    unfolding odometries RobotNode.on_timer
    odometries-IsStill [] s finite h = tt
    odometries-IsStill (odometry_arrives msg clock ∷ es) s finite h =
        odometries-IsStill es _ finite (h.0, next-AllStop (odometry_arrives msg clock) s h.1)
    odometries-IsStill (watchdog_checks clock ∷ es) s finite h =
        odometries-IsStill es _ finite (h.0, next-AllStop (watchdog_checks clock) s h.1)
    odometries-IsStill (robot_publishes stamp ∷ es) s finite h =
        let r = Model.step s.robot.model (floating s.robot.dt_sec) in
        let (still, stopped) =
          publish-HasStopped s.robot stamp r (step-velocity s.robot.model s.robot.dt_sec) h.0 in
        (still, odometries-IsStill es (next (robot_publishes stamp) s) finite (stopped, h.1))
    odometries-IsStill (command_arrives ∷ es) s finite h = odometries-IsStill es _ finite (
      deliver-HasStopped s.commands_sent s.robot finite h.1 h.0,
      next-AllStop command_arrives s h.1,
    )
    odometries-IsStill (command_lost ∷ es) s finite h =
        odometries-IsStill es _ finite (h.0, next-AllStop command_lost s h.1)

    -- From a start with no command on its way, in every order of the events: as soon as a command of
    -- the watchdog arrives at the robot, all odometry that the robot publishes from then on has both
    -- velocities 0.0, whatever happens next. 0.0 is finite.
    pub robot_stays_stopped :
        (before : List (Event F)) (s : System F) (t : Twist F) (ts : List (Twist F))
        → f.is_finite nought ≡ true
        → s.commands_sent ≡ []
        → (after before s).commands_sent ≡ t ∷ ts
        → (es : List (Event F))
        → All (Ensures IsStill) (odometries es (next command_arrives (after before s)))
    unfolding next deliver
    robot_stays_stopped before s t ts finite empty sent es =
        let end = after before s in
        let all : AllStop (t ∷ ts) = subst AllStop sent (after-AllStop before s (rw empty tt)) in
        let taken : HasStopped (deliver end.commands_sent end.robot) =
          rw sent (on_command-HasStopped end.robot t finite all.0) in
        odometries-IsStill es (next command_arrives end) finite (taken, rw sent all.1)
