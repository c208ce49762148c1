-- ===== src/Faults/Clock.antt =====
-- The monotonic timestamps of faults/latency.py and faults/injector.py: both classes remember the
-- last time that they were given, and refuse an earlier one.
use ros2_resilience.Prelude.{ℕ, ◌≤◌, ◌≡◌, Option, none, some, arith, ltb, if◌then◌else◌, pos}
use ros2_resilience.Python.Result.{Result, ok, raise, value_error, ◌>>=◌, bind_returned}
use ros2_resilience.Python.Value.{Value, integer, validate_nonnegative_int}

-- no later than `now`, if there is a last time
abbrev pub IsReached : Option ℕ → ℕ → Type 0
IsReached none now = Unit
IsReached (some last) now = last ≤ now

unfoldable pub not_backwards : Option ℕ → ℕ → Result ℕ
not_backwards none now = ok now
not_backwards (some last) now = if ltb now last then raise value_error else ok now

module _ {F : Type 0} where
  -- `_validate_time`, on the last time and the new one
  unfoldable pub validate_time : Option ℕ → Value F → Result ℕ
  unfolding validate_nonnegative_int not_backwards
  validate_time last now_ns = do now ← validate_nonnegative_int now_ns; not_backwards last now

pub not_backwards-reached :
    (last : Option ℕ) (now : ℕ) → IsReached last now → not_backwards last now ≡ ok now
unfolding not_backwards
not_backwards-reached none now h = ground arith
not_backwards-reached (some l) now h = ground arith

pub IsReached-not_backwards :
    (last : Option ℕ) (now : ℕ) {n : ℕ}
    → not_backwards last now ≡ ok n
    → (now ≡ n) × IsReached last now
unfolding not_backwards
IsReached-not_backwards none now h = ground arith
IsReached-not_backwards (some l) now h = ground arith

pub validate_time-reached :
    (F : Type 0) (last : Option ℕ) (now : ℕ)
    → IsReached last now
    → validate_time {F = F} last (integer (pos now)) ≡ ok now
unfolding validate_time
validate_time-reached F last now h = not_backwards-reached last now h

-- an object whose last time is `a` is behind one whose last time is `b`
abbrev pub IsBehind : Option ℕ → Option ℕ → Type 0
IsBehind none b = Unit
IsBehind (some l) none = ⊥
IsBehind (some l) (some k) = l ≤ k

pub IsReached-of_behind :
    (a b : Option ℕ) (now : ℕ) → IsBehind a b → IsReached b now → IsReached a now
IsReached-of_behind none b now h k = tt
IsReached-of_behind (some l) none now h k = absurd h
IsReached-of_behind (some l) (some m) now h k = omega arith

-- what `_validate_time` accepts is no earlier than the last time
pub validate_time-ok :
    {F : Type 0} (last : Option ℕ) (v : Value F) {now : ℕ}
    → validate_time last v ≡ ok now
    → IsReached last now
unfolding validate_time
validate_time-ok last v {now} h =
    let (n, forward, valid) = bind_returned (not_backwards last) (validate_nonnegative_int v) h in
    let (same, reached) = IsReached-not_backwards last n forward in rw (← same) reached
