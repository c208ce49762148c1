-- ===== src/Ros/Observer/Identifiers.antt =====
-- The identifiers of the events that the observer makes.
use mathlib.Core.Path.{subst₂}
use Prim.Native.String.{◌++◌}
use package.text.Mathlib.TextLemmas.{append_cancel_left}
use ros2_resilience.Prelude.{
  ℕ, suc, ◌≤◌, ◌<◌, ℤ, pos, ◌≡◌, ◌≢◌, refl, sym, ◌∙◌, true, String, Option, none, some, List, [],
  ◌∷◌, All, arith,
}
use ros2_resilience.Python.Decimal.{str-injective, str}
use ros2_resilience.Python.Result.{Result, ok, raise, Ensures, Ensures-bind}
use ros2_resilience.Python.Value.{Value, integer, validate_nonnegative_int}
use ros2_resilience.Core.Events.{
  Event, EventKind, ClockDomain, Payload, make_event, nonempty, check_kind, check_occurrence,
  config_applied, raw_odometry, faulted_odometry, injector_counters, watchdog_violation,
  recovery_published, command_observed,
}
use ros2_resilience.Ros.Observer.{
  ObserverNode, Message, raw, faulted, command, watchdog, counters, recovery, applied, event_id,
  emit, observe, observe_all, after, int_value, domain, init, odometry_payload, empty_payload,
  safe_int, get_last,
}
use ros2_resilience.Ros.Messages.{stamp_ns}

event_id-injective :
    (trial_id : String) (i j : ℕ) → event_id trial_id i ≡ event_id trial_id j → i ≡ j
unfolding event_id
event_id-injective trial_id i j h = str-injective i j (
    append_cancel_left "-" (str i) (str j)
      (append_cancel_left trial_id ("-" ++ str i) ("-" ++ str j) h))

module _ {F : Type 0} where
  make_event-id :
      (id trial_id source : String) (kind : Option EventKind) (receipt : Value F)
      (payload : Payload F) (occurrence : Option (Value F)) (domain : Option ClockDomain)
      → Ensures
          (λ e. e.event_id ≡ id)
          (make_event id trial_id source kind receipt payload occurrence domain)
  unfolding make_event
  make_event-id id trial_id source kind receipt payload occurrence domain =
      Ensures-bind _ (nonempty id) _ λ _ _. Ensures-bind _ (nonempty trial_id) _ λ _ _.
        Ensures-bind _ (nonempty source) _ λ _ _. Ensures-bind _ (check_kind kind) _ λ _ _.
          Ensures-bind _ (validate_nonnegative_int receipt) _
            λ _ _. Ensures-bind _ (check_occurrence occurrence domain) _ λ _ _. refl

  -- An event with the next number, and a node that counts it.
  abbrev Emits : ObserverNode → Result (Event F) × ObserverNode → Type 0
  Emits n o =
      Ensures (λ e. e.event_id ≡ event_id n.trial_id (suc n.event_seq)) o.0
      × (o.1.event_seq ≡ suc n.event_seq)
      × (o.1.trial_id ≡ n.trial_id)

  emit-Emits :
      (n : ObserverNode) (kind : EventKind) (payload : Payload F) (occurrence : Option ℤ) (now : ℕ)
      → Emits n (emit n kind payload occurrence now)
  unfolding emit
  emit-Emits n kind payload occurrence now = (
    make_event-id (event_id n.trial_id (suc n.event_seq)) n.trial_id "observer" (some kind)
        (integer (pos now)) payload (int_value occurrence) (domain occurrence),
    refl,
    refl,
  )

  observe-Emits :
      (int_of : String → Option ℤ) (n : ObserverNode) (msg : Message F) (now : ℕ)
      → Emits n ((observe int_of n msg now).0, (observe int_of n msg now).2)
  unfolding observe
  observe-Emits int_of n (raw msg) now =
      emit-Emits (record n { seen_raw = true }) raw_odometry (odometry_payload msg)
        (some (stamp_ns msg.stamp)) now
  observe-Emits int_of n (faulted msg) now =
      emit-Emits (record n { seen_faulted = true }) faulted_odometry (odometry_payload msg)
        (some (stamp_ns msg.stamp)) now
  observe-Emits int_of n (command msg) now =
      emit-Emits n command_observed
        (record empty_payload { linear_x = some msg.linear_x; angular_z = some msg.angular_z }) none
        now
  observe-Emits int_of n (watchdog msg) now =
      emit-Emits n watchdog_violation (record empty_payload { reason = some msg.message }) none now
  observe-Emits int_of n (counters kvs) now =
      emit-Emits n injector_counters
        (record empty_payload { dropped = safe_int int_of (get_last "dropped" kvs none) }) none now
  observe-Emits int_of n recovery now = emit-Emits n recovery_published empty_payload none now
  observe-Emits int_of n (applied revision) now = emit-Emits n config_applied empty_payload none now

  -- events with growing numbers above `n`
  abbrev Grows : String → ℕ → List (Event F) → Type 0
  Grows id n [] = Unit
  Grows id n (e ∷ es) = (k : ℕ) × (n < k) × (e.event_id ≡ event_id id k) × Grows id k es

  -- no event has the identifier of another
  abbrev pub AreDistinct : List (Event F) → Type 0
  AreDistinct [] = Unit
  AreDistinct (e ∷ es) = All (λ other. e.event_id ≢ other.event_id) es × AreDistinct es

  differs :
      (id : String) (e : Event F) (m n : ℕ) (es : List (Event F))
      → e.event_id ≡ event_id id m
      → m ≤ n
      → Grows id n es
      → All (λ other. e.event_id ≢ other.event_id) es
  differs id e m n [] named le h = tt
  differs id e m n (o ∷ os) named le (k, above, other, rest) =
      let apart : e.event_id ≢ o.event_id = λ same.
        absurd (less m k (omega arith) (event_id-injective id m k (sym named ∙ same ∙ other))) in
      (apart, differs id e m k os named (omega arith) rest)
    where
      less : (a b : ℕ) → a < b → a ≡ b → ⊥
      less a b h same = omega arith

  Grows-AreDistinct : (id : String) (n : ℕ) (es : List (Event F)) → Grows id n es → AreDistinct es
  Grows-AreDistinct id n [] h = tt
  Grows-AreDistinct id n (e ∷ es) (k, above, named, rest) =
      (differs id e k k es named (omega arith) rest, Grows-AreDistinct id k es rest)

  after-Grows :
      (id : String) (n : ℕ) (r : Result (Event F)) (calls : List (ℤ × ℕ))
      (rest : List (Event F) × List (ℤ × ℕ) × Result ObserverNode)
      → Ensures (λ e. e.event_id ≡ event_id id (suc n)) r
      → Grows id (suc n) rest.0
      → Grows id n (after r calls rest).0
  after-Grows id n (ok e) calls rest named h = (suc n, omega arith, named, h)
  after-Grows id n (raise x) calls rest named h = tt

  observe_all-Grows :
      (int_of : String → Option ℤ) (msgs : List (Message F × ℕ)) (n : ObserverNode)
      → Grows n.trial_id n.event_seq (observe_all int_of msgs n).0
  unfolding observe_all
  observe_all-Grows int_of [] n = tt
  observe_all-Grows int_of ((msg, now) ∷ msgs) n =
      let (named, counted, same) = observe-Emits int_of n msg now in
      let o = observe int_of n msg now in
      after-Grows n.trial_id n.event_seq o.0 o.1 (observe_all int_of msgs o.2) named (
        subst₂ (λ id k. Grows id k (observe_all int_of msgs o.2).0) same counted
          (observe_all-Grows int_of msgs o.2))

  -- Whatever messages the observer of a trial receives and in which order, no two of the events that
  -- it makes have the same identifier.
  pub observe_all-AreDistinct :
      (int_of : String → Option ℤ) (trial_id : String) (msgs : List (Message F × ℕ))
      → AreDistinct (observe_all int_of msgs (init trial_id)).0
  observe_all-AreDistinct int_of trial_id msgs =
      Grows-AreDistinct trial_id 0 (observe_all int_of msgs (init trial_id)).0
        (observe_all-Grows int_of msgs (init trial_id))
