-- ===== src/Python/Value.antt =====
-- The Python objects that reach a run-time check (`isinstance`, `type(x) in …`), and the checks
-- of numbers that the program's classes share.
use ros2_resilience.Prelude.{ℕ, suc, String, Bool, not, ◌&&◌, ◌||◌, ℤ, pos, negsuc, if◌then◌else◌}
use ros2_resilience.Python.Float.{Float, nought, one}
use ros2_resilience.Python.Result.{Result, ok, raise, type_error, value_error}

mutual
  pub data Value (F : Type 0) : Type 0 where
    null : Value F
    boolean : Bool → Value F
    integer : ℤ → Value F
    floating : F → Value F
    text : String → Value F
    sequence : Values F → Value F
    mapping : Entries F → Value F

  pub data Values (F : Type 0) : Type 0 where
    end : Values F
    item : Value F → Values F → Values F

  pub data Entries (F : Type 0) : Type 0 where
    empty : Entries F
    entry : String → Value F → Entries F → Entries F
    -- the key is a number or a bool
    numbered : Value F → Entries F → Entries F
    -- the key is `None`
    unnamed : Value F → Entries F → Entries F

module _ {F : Type 0} where
  -- `_validate_nonnegative_int`: a `bool` is refused although it is an `int`
  unfoldable pub validate_nonnegative_int : Value F → Result ℕ
  validate_nonnegative_int (integer (pos n)) = ok n
  validate_nonnegative_int (integer (negsuc n)) = raise value_error
  validate_nonnegative_int _ = raise type_error

  -- `_validate_positive_int`
  unfoldable pub validate_positive_int : Value F → Result ℕ
  validate_positive_int (integer (pos (suc n))) = ok (suc n)
  validate_positive_int (integer _) = raise value_error
  validate_positive_int _ = raise type_error

module _ {F : Type 0} ⦃f : Float F⦄ where
  -- finite and within [0.0, 1.0]
  unfoldable pub in_unit_range : F → Bool
  in_unit_range p = f.is_finite p && (f.le nought p && f.le p one)

  check_fraction : F → Result F
  check_fraction p = if in_unit_range p then ok p else raise value_error

  -- `_validate_probability` and `_validate_fraction`: the value as a float
  unfoldable pub validate_fraction : Value F → Result F
  unfolding check_fraction
  validate_fraction (integer z) = check_fraction (f.of_int z)
  validate_fraction (floating p) = check_fraction p
  validate_fraction _ = raise type_error

  check_positive : F → Result F
  check_positive x = if not (f.is_finite x) || f.le x nought then raise value_error else ok x

  -- `_validate_positive`
  unfoldable pub validate_positive : Value F → Result F
  unfolding check_positive
  validate_positive (integer z) = check_positive (f.of_int z)
  validate_positive (floating x) = check_positive x
  validate_positive _ = raise type_error
