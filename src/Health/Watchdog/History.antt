-- ===== src/Health/Watchdog/History.antt =====
-- health/watchdog.py forgets arrivals that have left the window. Against an evaluator that remembers
-- every arrival: as long as the times of the checks do not go back, the verdicts are the same.
use ros2_resilience.Prelude.{
  ℕ, ◌≤◌, ◌≡◌, refl, sym, ap, ◌∙◌, inl, inr, Bool, true, Option, List, [], ◌∷◌, ◌++◌, arith, filter,
  ℤ, pos, -ℤ_parts, +ℤ_parts, leb→le, le→leb, leb_ℤ, ◌+ℤ◌, if◌then◌else◌,
}
use mathlib.Core.Path.{subst, subst₂}
use ros2_resilience.Python.Float.{Float}
use ros2_resilience.Python.Result.{Result, state_after, Result-cases}
use ros2_resilience.Python.Value.{Value, integer}
use ros2_resilience.Health.Watchdog
use ros2_resilience.Health.Watchdog.{
  ViolationReason, WatchdogStatus, WatchdogEvaluator, in_window, accept, arrive, check_at, verdict,
  prune, judge, loss_fraction_at,
}

-- what is in the window at a later time was in the window before
in_window-earlier :
    (window : ℤ) (now later t : ℕ)
    → now ≤ later
    → in_window window later t ≡ true
    → in_window window now t ≡ true
in_window-earlier window now later t h k =
    omega (arith, -ℤ_parts (pos now) window, -ℤ_parts (pos later) window, leb→le, le→leb)

filter_twice :
    (window : ℤ) (now later : ℕ) (xs : List ℕ)
    → now ≤ later
    → filter (in_window window later) (filter (in_window window now) xs)
      ≡ filter (in_window window later) xs
unfolding filter
filter_twice window now later [] h = refl
filter_twice window now later (x ∷ xs) h =
    ground (arith, filter_twice window now later xs h, in_window-earlier window now later x h)

filter-append : (p : ℕ → Bool) (xs ys : List ℕ) → filter p (xs ++ ys) ≡ filter p xs ++ filter p ys
unfolding filter
filter-append p [] ys = refl
filter-append p (x ∷ xs) ys = ground (arith, filter-append p xs ys)

-- Of the arrivals, `xs` is remembered in place of `all`: no window from the time `p` on shows it.
record Agrees (window : ℤ) (p : ℕ) (xs all : List ℕ) : Type 0 where
  at_time :
      (now : ℕ) → p ≤ now → filter (in_window window now) xs ≡ filter (in_window window now) all

append-Agrees :
    (window : ℤ) (p t : ℕ) (xs all : List ℕ)
    → Agrees window p xs all
    → Agrees window p (xs ++ (t ∷ [])) (all ++ (t ∷ []))
append-Agrees window p t xs all h = record {
  at_time = λ now later. rw (filter-append, filter-append, h.at_time now later);
}

-- to drop what has left the window is not seen later
filter-Agrees :
    (window : ℤ) (now : ℕ) (all : List ℕ)
    → Agrees window now (filter (in_window window now) all) all
filter-Agrees window now all = record { at_time = λ later k. filter_twice window now later all k }

-- the arrivals `t` with `now <= t + window`
unfoldable pub no_older : ℤ → ℕ → List ℕ → List ℕ
no_older window now [] = []
no_older window now (t ∷ ts) =
    let rest = no_older window now ts in
    if leb_ℤ (pos now) (pos t +ℤ window) then t ∷ rest else rest

in_window-no_older :
    (window : ℤ) (now t : ℕ) → in_window window now t ≡ leb_ℤ (pos now) (pos t +ℤ window)
in_window-no_older window now t = ground (arith, -ℤ_parts (pos now) window, +ℤ_parts (pos t) window)

filter-no_older :
    (window : ℤ) (now : ℕ) (ts : List ℕ) → filter (in_window window now) ts ≡ no_older window now ts
unfolding filter no_older
filter-no_older window now [] = refl
filter-no_older window now (t ∷ ts) =
    rw (in_window-no_older window now t, filter-no_older window now ts)

pub data Call (F : Type 0) : Type 0 where
  record_arrival : Value F → Option (Value F) → Call F
  check : ℕ → Call F

-- the times of the checks do not go back, from the time `p` on
abbrev pub ChecksForward : {F : Type 0} → ℕ → List (Call F) → Type 0
ChecksForward p [] = Unit
ChecksForward p (record_arrival now_ns stamp_ns ∷ cs) = ChecksForward p cs
ChecksForward p (check now ∷ cs) = (p ≤ now) × ChecksForward now cs

module _ {F : Type 0} ⦃f : Float F⦄ where
  abbrev with_arrivals : List ℕ → WatchdogEvaluator F → WatchdogEvaluator F
  with_arrivals xs w = record w { arrivals = xs }

  -- the statuses that the evaluator reports; an arrival that raises changes nothing
  unfoldable pub statuses : List (Call F) → WatchdogEvaluator F → List (Result (WatchdogStatus F))
  statuses [] w = []
  statuses (record_arrival now_ns stamp_ns ∷ cs) w =
      statuses cs (state_after w (Watchdog.record_arrival w now_ns stamp_ns))
  statuses (check now ∷ cs) w =
      let (s, w') = Watchdog.check w (integer (pos now)) in s ∷ statuses cs w'

  -- The same of a monitor that never forgets an arrival: of the whole history, the arrivals that are
  -- no older than the window count.
  unfoldable pub ideal_statuses :
      List (Call F) → WatchdogEvaluator F → List (Result (WatchdogStatus F))
  ideal_statuses [] w = []
  ideal_statuses (record_arrival now_ns stamp_ns ∷ cs) w =
      ideal_statuses cs (state_after w (Watchdog.record_arrival w now_ns stamp_ns))
  ideal_statuses (check now ∷ cs) w =
      let counted = with_arrivals (no_older w.loss_window_ns now w.arrivals) w in
      let (s, w') = verdict counted now w.last_arrival_ns w.first_arrival_ns w.latest_stamp_ns in
      s ∷ ideal_statuses cs (with_arrivals w.arrivals w')

  -- what `verdict` leaves alone
  verdict_keeps :
      (w : WatchdogEvaluator F) (now : ℕ) (last first latest : Option ℕ)
      → ((verdict w now last first latest).1.arrivals ≡ w.arrivals)
        × ((verdict w now last first latest).1.loss_window_ns ≡ w.loss_window_ns)
  unfolding verdict
  verdict_keeps w now last first latest = ground arith

  forgetting :
      (cs : List (Call F)) (p : ℕ) (xs : List ℕ) (w : WatchdogEvaluator F)
      → Agrees w.loss_window_ns p xs w.arrivals
      → ChecksForward p cs
      → statuses cs (with_arrivals xs w) ≡ ideal_statuses cs w
  unfolding statuses ideal_statuses Watchdog.record_arrival Watchdog.check check_at prune
  forgetting [] p xs w h k = refl
  forgetting (record_arrival now_ns stamp_ns ∷ cs) p xs w h k =
      elim (Result-cases (accept w.last_arrival_ns now_ns stamp_ns)) [
        | inl (e, raised) ↦ rw raised (forgetting cs p xs w h k)
        | inr ((now, stamp), taken) ↦ rw taken (
            forgetting cs p (xs ++ (now ∷ [])) (arrive w now stamp)
              (append-Agrees w.loss_window_ns p now xs w.arrivals h) k)
      ]
  forgetting (check now ∷ cs) p xs w h (forward, k) =
      let counted = with_arrivals (no_older w.loss_window_ns now w.arrivals) w in
      let spelled = filter-no_older w.loss_window_ns now w.arrivals in
      let same : prune (with_arrivals xs w) now ≡ counted =
        ap (λ l. with_arrivals l w) (h.at_time now forward ∙ spelled) in
      let outcome = verdict counted now w.last_arrival_ns w.first_arrival_ns w.latest_stamp_ns in
      let w1 = outcome.1 in
      let (left, window) =
        verdict_keeps counted now w.last_arrival_ns w.first_arrival_ns w.latest_stamp_ns in
      let agrees : Agrees w1.loss_window_ns now w1.arrivals w.arrivals =
        subst₂ (λ size kept. Agrees size now kept w.arrivals) (sym window) (sym left)
          (subst (λ l. Agrees w.loss_window_ns now l w.arrivals) spelled
            (filter-Agrees w.loss_window_ns now w.arrivals)) in
      rw same
        (ap (◌∷◌ outcome.0) (forgetting cs now w1.arrivals (with_arrivals w.arrivals w1) agrees k))

  -- To forget the arrivals that have left the window changes no verdict: for any calls whose checks
  -- do not go back in time, the evaluator reports what a monitor reports that remembers every arrival
  -- and at each check counts those that are no older than the window.
  pub statuses-ideal :
      (cs : List (Call F)) (w : WatchdogEvaluator F)
      → ChecksForward 0 cs
      → statuses cs w ≡ ideal_statuses cs w
  statuses-ideal cs w k = forgetting cs 0 w.arrivals w (record { at_time = λ now h. refl }) k
