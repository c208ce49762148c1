-- ===== src/Python/Float.antt =====
-- What the program does with a Python `float`. The type is a parameter: an instance of `Float`
-- gives its operations, and `IsFloat` states what the proofs use of IEEE 754 doubles.
use ros2_resilience.Prelude.{false, ℕ, Bool, true, ◌≡◌, ℤ, pos, ◌≤ℤ◌}
use ros2_resilience.Python.Result.{Result, ok}

pub record Float (F : Type 0) : Type 0 where
  -- whether `float(i)` returns; for an integer that is too large it raises `OverflowError`
  pub converts : ℤ → Bool
  -- `float(i)`, where it returns
  pub of_int : ℤ → F
  pub inf : F
  pub add : F → F → F
  pub sub : F → F → F
  pub mul : F → F → F
  -- the divisor is not zero: the program never divides by a zero
  pub div : F → F → F
  pub abs : F → F
  pub le : F → F → Bool
  pub lt : F → F → Bool
  pub eqb : F → F → Bool
  pub is_finite : F → Bool
  -- `round(x)` and `int(x)`, which raise for a value that is not finite
  pub round : F → Result ℤ
  pub trunc : F → Result ℤ
  -- the comparisons of an integer with a float, which Python makes exactly
  pub int_le : ℤ → F → Bool
  pub le_int : F → ℤ → Bool

abbrev pub nought : {F : Type 0} ⦃f : Float F⦄ → F
nought ⦃f⦄ = f.of_int (pos 0)

abbrev pub one : {F : Type 0} ⦃f : Float F⦄ → F
one ⦃f⦄ = f.of_int (pos 1)

abbrev pub nanos_per_sec : ℕ
nanos_per_sec = 1_000_000_000

-- `ns / 1e9`
unfoldable pub to_seconds : {F : Type 0} ⦃f : Float F⦄ → ℤ → F
to_seconds ⦃f⦄ ns = f.div (f.of_int ns) (f.of_int (pos nanos_per_sec))

-- `int(round(seconds * 1e9))`
unfoldable pub seconds_to_ns : {F : Type 0} ⦃f : Float F⦄ → F → Result ℤ
seconds_to_ns ⦃f⦄ seconds = f.round (f.mul seconds (f.of_int (pos nanos_per_sec)))

-- What IEEE 754 and Python's documentation promise, as far as the proofs use it.
pub record IsFloat (F : Type 0) ⦃f : Float F⦄ : Type 0 where
  -- rounding to the nearest integer stays between integer bounds
  pub round_between :
      (a b : ℤ) (x : F)
      → f.int_le a x ≡ true
      → f.le_int x b ≡ true
      → (z : ℤ) × (f.round x ≡ ok z) × (a ≤ℤ z) × (z ≤ℤ b)
  pub le_trans : (x y z : F) → f.le x y ≡ true → f.le y z ≡ true → f.le x z ≡ true
  -- the conversion of integers and the division by 1e9 round monotonically
  pub seconds_mono :
      (a b : ℤ)
      → a ≤ℤ b
      → f.le
          (f.div (f.of_int a) (f.of_int (pos nanos_per_sec)))
          (f.div (f.of_int b) (f.of_int (pos nanos_per_sec)))
        ≡ true

-- what IEEE 754 says of the comparisons of finite numbers
pub record IsOrdered (F : Type 0) ⦃f : Float F⦄ : Type 0 where
  pub le_refl : (x : F) → f.is_finite x ≡ true → f.le x x ≡ true
  pub lt_le : (x y : F) → f.lt x y ≡ true → f.le x y ≡ true
  pub not_lt_le :
      (x y : F) → f.is_finite x ≡ true → f.is_finite y ≡ true → f.lt x y ≡ false → f.le y x ≡ true
