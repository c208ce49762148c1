-- ===== src/Tests/Numbers.antt =====
-- A concrete `Float`: decimal fractions with nine places, and an infinity. A concrete `Random`: a
-- generator that counts its draws.
use ros2_resilience.Prelude.{
  ℕ, suc, ◌+◌, ◌*◌, ◌/◌, Bool, true, false, ◌≡◌, refl, arith, ℤ, pos, negsuc, sub_ℕ, leb_ℤ, ltb_ℤ,
  eqb_ℤ, pos_part, neg_part, ◌≤ℤ◌,
}
use ros2_resilience.Python.Float.{Float, IsFloat, IsOrdered, nanos_per_sec}
use ros2_resilience.Python.Result.{Result, ok, raise, overflow_error}
use ros2_resilience.Python.Value.{floating}
use ros2_resilience.Faults.Random.{Random, IsRandom}

-- `finite n` is n / 1e9.
pub data Fixed : Type 0 where
  finite : ℤ → Fixed
  infinite : Fixed

abbrev times_ℤ : ℤ → ℤ → ℤ
times_ℤ a b =
    sub_ℕ (pos_part a * pos_part b + neg_part a * neg_part b)
      (pos_part a * neg_part b + neg_part a * pos_part b)

-- the floor of a quotient by a positive number
abbrev over : ℤ → ℕ → ℤ
over (pos n) d = pos (n / d)
over (negsuc n) d = negsuc (n / d)

abbrev scaled : ℤ → ℤ
scaled z = sub_ℕ (pos_part z * nanos_per_sec) (neg_part z * nanos_per_sec)

abbrev lift₂ : (ℤ → ℤ → ℤ) → Fixed → Fixed → Fixed
lift₂ op (finite a) (finite b) = finite (op a b)
lift₂ op _ _ = infinite

abbrev le : Fixed → Fixed → Bool
le _ infinite = true
le infinite (finite b) = false
le (finite a) (finite b) = leb_ℤ a b

abbrev lt : Fixed → Fixed → Bool
lt infinite _ = false
lt (finite a) infinite = true
lt (finite a) (finite b) = ltb_ℤ a b

abbrev same : Fixed → Fixed → Bool
same infinite infinite = true
same (finite a) (finite b) = eqb_ℤ a b
same _ _ = false

abbrev is_finite : Fixed → Bool
is_finite (finite a) = true
is_finite infinite = false

abbrev magnitude : Fixed → Fixed
magnitude (finite a) = finite (pos (pos_part a + neg_part a))
magnitude infinite = infinite

abbrev to_int : ℕ → Fixed → Result ℤ
to_int half (finite a) = ok (over (sub_ℕ (pos_part a + half) (neg_part a)) nanos_per_sec)
to_int half infinite = raise overflow_error

abbrev int_le : ℤ → Fixed → Bool
int_le a x = le (finite (scaled a)) x

abbrev le_int : Fixed → ℤ → Bool
le_int x a = le x (finite (scaled a))

abbrev add : ℤ → ℤ → ℤ
add a b = sub_ℕ (pos_part a + pos_part b) (neg_part a + neg_part b)

abbrev sub : ℤ → ℤ → ℤ
sub a b = sub_ℕ (pos_part a + neg_part b) (neg_part a + pos_part b)

instance unfoldable pub Fixed-Float : Float Fixed
Fixed-Float = record {
  converts = λ z. true;
  of_int = λ z. finite (scaled z);
  inf = infinite;
  add = lift₂ add;
  sub = lift₂ sub;
  mul = lift₂ (λ a b. over (times_ℤ a b) nanos_per_sec);
  div = lift₂ (λ a b. over (scaled a) (pos_part b));
  abs = magnitude;
  le = le;
  lt = lt;
  eqb = same;
  is_finite = is_finite;
  round = to_int 500_000_000;
  trunc = to_int 0;
  int_le = int_le;
  le_int = le_int;
}

round_between :
    (a b : ℤ) (x : Fixed)
    → int_le a x ≡ true
    → le_int x b ≡ true
    → (z : ℤ) × (to_int 500_000_000 x ≡ ok z) × (a ≤ℤ z) × (z ≤ℤ b)
round_between a b (finite x) low high = (
  over (sub_ℕ (pos_part x + 500_000_000) (neg_part x)) nanos_per_sec,
  refl,
  ground arith,
  ground arith,
)
round_between a b infinite low high = absurd (ground arith)

le_trans : (x y z : Fixed) → le x y ≡ true → le y z ≡ true → le x z ≡ true
le_trans (finite x) (finite y) (finite z) h k = ground arith
le_trans (finite x) infinite (finite z) h k = ground arith
le_trans infinite (finite y) (finite z) h k = ground arith
le_trans infinite infinite (finite z) h k = ground arith
le_trans x y infinite h k = refl

seconds_mono :
    (a b : ℤ)
    → a ≤ℤ b
    → leb_ℤ
        (over (scaled (scaled a)) (nanos_per_sec * nanos_per_sec))
        (over (scaled (scaled b)) (nanos_per_sec * nanos_per_sec))
      ≡ true
seconds_mono a b h = ground arith

le_refl : (x : Fixed) → is_finite x ≡ true → le x x ≡ true
le_refl (finite a) h = ground arith
le_refl infinite h = refl

lt_le : (x y : Fixed) → lt x y ≡ true → le x y ≡ true
lt_le (finite a) (finite b) h = ground arith
lt_le x infinite h = refl
lt_le infinite (finite b) h = cc

not_lt_le : (x y : Fixed) → is_finite x ≡ true → is_finite y ≡ true → lt x y ≡ false → le y x ≡ true
not_lt_le (finite a) (finite b) h k n = ground arith
not_lt_le infinite y h k n = refl
not_lt_le (finite a) infinite h k n = cc

pub Fixed-IsOrdered : IsOrdered Fixed
unfolding Fixed-Float
Fixed-IsOrdered = record { le_refl = le_refl; lt_le = lt_le; not_lt_le = not_lt_le }

pub Fixed-IsFloat : IsFloat Fixed
unfolding Fixed-Float
Fixed-IsFloat = record {
  round_between = round_between;
  le_trans = le_trans;
  seconds_mono = seconds_mono;
}

instance unfoldable pub ℕ-Random : Random Fixed ℕ
ℕ-Random = record {
  random = λ r. (floating (finite (pos 300_000_000)), suc r);
  uniform = λ a b r. (floating (finite (scaled b)), suc r);
  seed = λ n. n;
}

pub ℕ-IsRandom : IsRandom Fixed ℕ
unfolding Fixed-Float ℕ-Random
ℕ-IsRandom = record {
  random_range = λ r. (finite (pos 300_000_000), refl, refl, refl, refl);
  uniform_range = λ a b r h. (finite (scaled b), refl, refl, ground arith, ground arith);
}
