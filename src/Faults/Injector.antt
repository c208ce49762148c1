-- ===== src/Faults/Injector.antt =====
-- ros2_resilience/faults/injector.py: one fault mode at a time, on messages that arrive at explicit
-- times. What `deepcopy` makes of a message stands for the message. The generator is a field of the
-- injector; its parts draw from it through `_rng.random` and `_rng.uniform`, so a draw that precedes
-- an exception stays made.
pub mod Sound
pub mod Calls
pub mod Holding
pub mod Raising
pub mod Keeping
pub mod Counting
use ros2_resilience.Prelude.{
  ℕ, ◌+◌, Bool, true, false, not, ◌&&◌, Option, none, some, List, [], ◌∷◌, leb, ◌==◌, if◌then◌else◌,
  length, pos,
}
use ros2_resilience.Python.Float.{Float}
use ros2_resilience.Python.Result.{Result, ok, raise, value_error, queue_overflow, ◌>>=◌}
use ros2_resilience.Python.Value.{Value, boolean, integer, floating, validate_positive_int}
use ros2_resilience.Faults.Clock
use ros2_resilience.Faults.Config.{
  FaultType, healthy, dropout, latency, stale, FaultConfig, stale_is_active, latency_is_active,
}
use ros2_resilience.Faults.Dropout
use ros2_resilience.Faults.Dropout.{Dropout}
use ros2_resilience.Faults.Latency
use ros2_resilience.Faults.Latency.{LatencyQueue}
use ros2_resilience.Faults.Random.{Random}
use ros2_resilience.Faults.Stale
use ros2_resilience.Faults.Stale.{StaleHold}

pub record FaultCounters : Type 0 where
  pub received : ℕ
  pub forwarded : ℕ
  pub dropped : ℕ

pub record FaultInjector (F R T : Type 0) : Type 0 where
  pub config : FaultConfig F
  pub max_pending : ℕ
  pub external_rng : Bool
  pub rng : R
  pub dropper : Dropout F
  pub queue : LatencyQueue T
  pub hold : StaleHold T
  pub last_time_ns : Option ℕ
  pub received : ℕ
  pub forwarded : ℕ
  pub dropped : ℕ

-- A method's outcome: what it returns or raises, and the injector that it leaves.
abbrev pub Outcome : Type 0 → Type 0 → Type 0 → Type 0
Outcome F R T = Result (List T) × FaultInjector F R T

module _ {F R T : Type 0} where
  abbrev pub pending_count : FaultInjector F R T → ℕ
  pending_count s = Latency.pending_count s.queue

  abbrev pub counters : FaultInjector F R T → FaultCounters
  counters s = record { received = s.received; forwarded = s.forwarded; dropped = s.dropped }

module _ {F R T : Type 0} ⦃f : Float F⦄ ⦃g : Random F R⦄ where
  -- `FaultInjector.__init__` after the check of `max_pending`; `some r` is a generator that the
  -- caller supplies
  unfoldable pub assemble : FaultConfig F → ℕ → Option R → Result (FaultInjector F R T)
  unfolding Dropout.init Latency.init Stale.set_enabled
  assemble config capacity rng = do
    dropper ← Dropout.init (floating config.drop_probability)
    queue ←
        Latency.init {F = F} (integer (pos config.delay_ns)) (integer (pos config.jitter_ns))
          (integer (pos capacity))
    hold ← Stale.set_enabled {F = F} Stale.init (boolean (stale_is_active config))
    ok (record {
      config = config;
      max_pending = capacity;
      external_rng = elim rng [ none ↦ false | some _ ↦ true ];
      rng = elim rng [ none ↦ g.seed config.seed | some r ↦ r ];
      dropper = dropper;
      queue = queue;
      hold = hold;
      last_time_ns = none;
      received = 0;
      forwarded = 0;
      dropped = 0;
    })

  unfoldable pub init : FaultConfig F → Value F → Option R → Result (FaultInjector F R T)
  unfolding validate_positive_int assemble
  init config max_pending rng = do
    capacity ← validate_positive_int max_pending
    assemble config capacity rng

  -- the last lines of `receive`, `poll` and `configure`
  unfoldable pub finish : FaultInjector F R T → ℕ → ℕ → List T → Outcome F R T
  finish s arrivals now outputs = (
    ok outputs,
    record s {
      received = s.received + arrivals;
      last_time_ns = some now;
      forwarded = s.forwarded + length outputs;
    },
  )

  -- the sample that the stale hold returned, or what it raised
  unfoldable pub forward_held : FaultInjector F R T → ℕ → Result (StaleHold T × T) → Outcome F R T
  unfolding finish
  forward_held s now (raise e) = (raise e, s)
  forward_held s now (ok (hold, output)) = finish (record s { hold = hold }) 1 now (output ∷ [])

  -- the message passes the stale hold, which may replace it
  unfoldable pub forward : FaultInjector F R T → Result T → ℕ → Outcome F R T
  unfolding forward_held Stale.receive
  forward s message now = forward_held s now (Stale.receive s.hold message)

  -- a message that is dropped passes the stale hold too
  unfoldable pub drop_held : FaultInjector F R T → ℕ → Result (StaleHold T × T) → Outcome F R T
  unfolding finish
  drop_held s now (raise e) = (raise e, s)
  drop_held s now (ok (hold, output)) =
      finish (record s { hold = hold; dropped = s.dropped + 1 }) 1 now []

  -- the dropout branch, once `should_drop` has answered
  unfoldable pub drop_or_forward : FaultInjector F R T → Result T → ℕ → Result Bool → Outcome F R T
  unfolding forward drop_held
  drop_or_forward s message now (raise e) = (raise e, s)
  drop_or_forward s message now (ok false) = forward s message now
  drop_or_forward s message now (ok true) = drop_held s now (Stale.receive s.hold message)

  unfoldable pub receive_dropout : FaultInjector F R T → Result T → ℕ → Outcome F R T
  unfolding drop_or_forward
  receive_dropout s message now =
      let (answer, rng) = Dropout.should_drop g.random s.dropper (boolean true) s.rng in
      drop_or_forward (record s { rng = rng }) message now answer

  -- the latency branch, once `pop_ready` has returned
  unfoldable pub deliver :
      FaultInjector F R T → ℕ → ℕ → Result (List T × LatencyQueue T) → Outcome F R T
  unfolding finish
  deliver s arrivals now (raise e) = (raise e, s)
  deliver s arrivals now (ok (outputs, queue)) =
      finish (record s { queue = queue }) arrivals now outputs

  -- the latency branch, once the stale hold has returned
  unfoldable pub deliver_held : FaultInjector F R T → ℕ → Result (StaleHold T × T) → Outcome F R T
  unfolding deliver
  deliver_held s now (raise e) = (raise e, s)
  deliver_held s now (ok (hold, output)) =
      deliver (record s { hold = hold }) 1 now
        (Latency.pop_ready {F = F} s.queue (integer (pos now)))

  -- the latency branch, once `enqueue` has returned
  unfoldable pub hold_and_deliver :
      FaultInjector F R T → Result T → ℕ → Result (LatencyQueue T) → Outcome F R T
  unfolding deliver_held Stale.receive
  hold_and_deliver s message now (raise e) = (raise e, s)
  hold_and_deliver s message now (ok queue) =
      deliver_held (record s { queue = queue }) now (Stale.receive s.hold message)

  unfoldable pub receive_latency : FaultInjector F R T → Result T → ℕ → Outcome F R T
  unfolding hold_and_deliver
  receive_latency s message now =
      let (queue, rng) = Latency.enqueue g.uniform s.queue message (integer (pos now)) s.rng in
      hold_and_deliver (record s { rng = rng }) message now queue

  -- the `if` chain of `receive`, on the mode in force
  unfoldable pub dispatch : Bool → FaultType → FaultInjector F R T → Result T → ℕ → Outcome F R T
  unfolding forward receive_dropout receive_latency
  dispatch false _ s message now = forward s message now
  dispatch true healthy s message now = forward s message now
  dispatch true dropout s message now = receive_dropout s message now
  dispatch true latency s message now = receive_latency s message now
  dispatch true stale s message now = forward s message now

  unfoldable pub receive_at : FaultInjector F R T → Result T → Result ℕ → Outcome F R T
  unfolding dispatch
  receive_at s message (raise e) = (raise e, s)
  receive_at s message (ok now) =
      if latency_is_active s.config && leb s.max_pending (pending_count s)
      then (raise queue_overflow, s)
      else dispatch s.config.enabled s.config.fault_type s message now

  unfoldable pub receive : FaultInjector F R T → Result T → Value F → Outcome F R T
  unfolding receive_at
  receive s message now_ns = receive_at s message (Clock.validate_time s.last_time_ns now_ns)

  unfoldable pub poll_at : FaultInjector F R T → Result ℕ → Outcome F R T
  unfolding deliver finish
  poll_at s (raise e) = (raise e, s)
  poll_at s (ok now) =
      if latency_is_active s.config
      then deliver s 0 now (Latency.pop_ready {F = F} s.queue (integer (pos now)))
      else finish s 0 now []

  unfoldable pub poll : FaultInjector F R T → Value F → Outcome F R T
  unfolding poll_at
  poll s now_ns = poll_at s (Clock.validate_time s.last_time_ns now_ns)

  -- The parts, in the order in which `configure` makes them anew. The first is the only one that
  -- can raise.
  unfoldable pub new_parts :
      FaultInjector F R T → FaultConfig F → Result (Dropout F × LatencyQueue T × StaleHold T)
  unfolding Dropout.init Latency.configure Stale.set_enabled
  new_parts s config = do
    dropper ← Dropout.init (floating config.drop_probability)
    queue ←
        Latency.configure {F = F} s.queue (integer (pos config.delay_ns))
          (integer (pos config.jitter_ns))
    hold ← Stale.set_enabled {F = F} s.hold (boolean (stale_is_active config))
    ok (dropper, queue, hold)

  unfoldable pub rebuild : FaultInjector F R T → FaultConfig F → ℕ → List T → Outcome F R T
  unfolding finish new_parts
  rebuild s config now flushed = elim (new_parts s config) [
    | raise e ↦ (raise e, s)
    | ok (dropper, queue, hold) ↦
        finish (record s { dropper = dropper; queue = queue; hold = hold; config = config }) 0 now
          flushed
  ]

  -- the flush on leaving the latency mode, and the new seed of an internal generator
  unfoldable pub reconfigure : FaultInjector F R T → FaultConfig F → ℕ → Outcome F R T
  unfolding rebuild
  reconfigure s config now =
      let same_seed = config.seed == s.config.seed in
      let rng = if not s.external_rng && not same_seed then g.seed config.seed else s.rng in
      if latency_is_active s.config && not (latency_is_active config)
      then (let (flushed, queue) = Latency.flush s.queue in
          rebuild (record s { queue = queue; rng = rng }) config now flushed)
      else rebuild (record s { rng = rng }) config now []

  unfoldable pub configure_at : FaultInjector F R T → FaultConfig F → Result ℕ → Outcome F R T
  unfolding reconfigure
  configure_at s config (raise e) = (raise e, s)
  configure_at s config (ok now) =
      if s.external_rng && not (config.seed == s.config.seed)
      then (raise value_error, s)
      else reconfigure s config now

  unfoldable pub configure : FaultInjector F R T → FaultConfig F → Value F → Outcome F R T
  unfolding configure_at
  configure s config now_ns = configure_at s config (Clock.validate_time s.last_time_ns now_ns)
