-- ===== src/Lib.antt =====
-- A verification library for ros2_resilience, a harness that injects faults into a robot's odometry
-- and judges how a watchdog and the robot react.
--
-- The program's parts, and the modules that model them. A method becomes a function of the same name
-- that takes the object and gives back the new object, beside what the method returns or the class
-- of the exception that it raises (Python/Result.antt).
--   Faults    ros2_resilience/faults. Dropout (dropout.py) decides whether to drop a message, Latency
--             (latency.py) holds messages until a deadline, Stale (stale.py) repeats one sample.
--             Injector (injector.py) owns one of each and a random generator, and passes a message to
--             the part that its configuration (Config) selects. Clock has the check of the times that
--             latency.py and injector.py share. The child modules of Latency and Injector hold the
--             proofs: Latency/Arrivals relates the heap to a list in the order of arrival,
--             Injector/Calls treats any sequence of calls, and Injector/Counting what they count.
--   Health    ros2_resilience/health. Watchdog (watchdog.py) sees arrivals and checks, and latches a
--             violation.
--   Core      ros2_resilience/core. Scenario (scenario.py) is what a trial is asked to do, Experiment
--             (experiment.py) the states of a trial, Events (events.py) what was observed, Metrics
--             (metrics.py) the durations between events. Evidence, Checks and Assertions
--             (assertions.py) are the verdict; Verdict and Complete hold their proofs. Validation
--             (validation.py) reads a decoded scenario file, with the typed reads in Fields and the
--             sections in Sections; Accepted says what it accepts, and Serialized is the mapping that
--             asdict makes of a scenario. Batch (batch.py) has the identifiers and seeds of trials,
--             Results (results.py) their outcome and the aggregates of a batch, Documents the mapping
--             that a batch is written as.
--   Robot     ros2_resilience/robot. Model (model.py) integrates a velocity command.
--   Ros       ros2_resilience/ros. InjectorNode (fault_injector_node.py), WatchdogNode
--             (watchdog_node.py) and RobotNode (robot_node.py) are the handlers around the three parts
--             above: a handler takes the readings of the clock and gives what it publishes, in order.
--             Messages has the fields of the ROS messages that they use. Recovery puts the watchdog and
--             the robot together, over a topic that keeps the order of the commands and may lose some.
--             Observer, TrialLoop and Runner (experiment_runner_node.py) are the node that makes the
--             events, the loops of a trial, and its verdict, the batch and the exit code.
--   Python    what the program uses of Python: floats, sorting, exceptions, and the objects that reach
--             an isinstance check. Prelude has the integers, over the native numbers, and lists.
--   Tests     concrete inputs, with a concrete float and a concrete generator.
--
-- Parameters. A float is an instance of Python.Float.Float, and a random generator one of
-- Faults.Random.Random; sin, cos and atan2 are Robot.Model.Trigonometry. The proofs use of them what
-- IsFloat and IsRandom state, which IEEE 754 and the documentation of Python's random promise, and
-- Tests/Numbers.antt has instances of all four.
-- Integers are unbounded, as in Python.
--
-- Bounds. The loops of the program go over lists or count up to a number, and the models of them are
-- recursive on those. Only the decimal text of a number n has fuel: n rounds, of which each divides by
-- ten; that its digits spell n shows that they are enough.
--
-- What differs from the code. The heap of latency.py is kept as a sorted list, which is one of the
-- heaps that heapq may leave; the code reads its smallest entry, its length, and its entries sorted
-- by number, so no theorem speaks of the place of an entry in the list. latency.py and stale.py read a
-- message through deepcopy only: what deepcopy makes of it, a value or an exception, is the argument
-- that stands for the message, and a value that was copied is copied again without an exception. A
-- number that is drawn at random is an int or a float, and no other kind of number. Of an event's
-- payload and of a fault's parameters, which are dictionaries, the model has the keys that the code
-- reads. Which integers float converts, and for which it raises OverflowError, is a parameter in
-- validation.py; elsewhere the conversion is taken to return. The texts of exceptions and of the
-- assertions' reasons are not modelled.
--
-- Each key of a decoded mapping is there once. Of a key that is no text, validation.py reads only
-- whether it compares with the others when the unknown keys are sorted, and the model has whether it
-- is None or a number. An exit of run_batch's trial by an exception is the record of a failed trial,
-- whose error has a fixed text.
--
-- In TrialLoop each round of a loop is an argument: what the spin of the executor runs, and the readings
-- of the clock. A list of rounds that ends before the trial gives no result.
--
-- Not modelled: how the loops of a trial and the observer share one executor. Runner takes the lifecycle
-- and the events that they leave as an argument, or what they raise; the messages that Observer sees
-- are an argument, and so is Python's int of a text. Nor are, in experiment_runner_node.py, the command
-- line and the files; in core/results.py the mappings of a trial and of a summary, which have the
-- fields of both; load_scenario, which reads a file and calls yaml; the identifiers that uuid makes,
-- which are arguments, as the digest of the file is; rclpy and what the nodes register with it; the
-- launch file, the packaging, the scenario files and the tests.
pub mod Prelude
pub mod Python
pub mod Faults
pub mod Health
pub mod Core
pub mod Robot
pub mod Ros
pub mod Tests
