-- ===== src/Core/Fields/Stored.antt =====
-- What the typed reads of core/validation.py give for a value that is stored under its key.
use ros2_resilience.Prelude.{ℕ, ℤ, pos, Bool, ◌≡◌, refl, String, some}
use ros2_resilience.Python.Float.{Float}
use ros2_resilience.Python.Result.{ok}
use ros2_resilience.Python.Value.{Value, boolean, integer, floating, text, mapping, Entries}
use ros2_resilience.Core.Fields.{
  find, get, found, nonnegative, nonempty_text, a_bool, an_int, a_number, require_mapping,
  require_key, require_nonempty_str, require_bool, require_int, require_nonnegative_int,
  require_float, require_positive_float, require_nonnegative_float, require_probability,
}
use ros2_resilience.Core.Accepted.{IsText, IsFinite, IsPositive, IsNonnegative, IsProbability}

module _ {F : Type 0} (section : Entries F) (key : String) where
  key_stored : (v : Value F) → find key section ≡ some v → require_key section key ≡ ok v
  unfolding require_key found
  key_stored v h = rw h refl

  pub text_stored :
      (s : String)
      → find key section ≡ some (text s)
      → IsText s
      → require_nonempty_str section key ≡ ok s
  unfolding require_nonempty_str nonempty_text
  text_stored s h filled = rw (key_stored (text s) h, filled) refl

  pub bool_stored :
      (b : Bool) → find key section ≡ some (boolean b) → require_bool section key ≡ ok b
  unfolding require_bool a_bool
  bool_stored b h = rw (key_stored (boolean b) h) refl

  pub int_stored : (z : ℤ) → find key section ≡ some (integer z) → require_int section key ≡ ok z
  unfolding require_int an_int
  int_stored z h = rw (key_stored (integer z) h) refl

  pub nonnegative_int_stored :
      (n : ℕ)
      → find key section ≡ some (integer (pos n))
      → require_nonnegative_int section key ≡ ok n
  unfolding require_nonnegative_int nonnegative
  nonnegative_int_stored n h = rw (int_stored (pos n) h) refl

  pub mapping_stored :
      (es : Entries F)
      → find key section ≡ some (mapping es)
      → require_mapping (get key section) ≡ ok es
  unfolding get require_mapping
  mapping_stored es h = rw (h, get) refl

module _ {F : Type 0} ⦃f : Float F⦄ (section : Entries F) (key : String) (x : F) where
  pub finite_stored :
      find key section ≡ some (floating x) → IsFinite x → require_float section key ≡ ok x
  unfolding require_float a_number
  finite_stored h finite = rw (key_stored section key (floating x) h, finite) refl

  pub positive_stored :
      find key section ≡ some (floating x)
      → IsPositive x
      → require_positive_float section key ≡ ok x
  unfolding require_positive_float
  positive_stored h p = rw (finite_stored h p.0, p.1) refl

  pub nonnegative_stored :
      find key section ≡ some (floating x)
      → IsNonnegative x
      → require_nonnegative_float section key ≡ ok x
  unfolding require_nonnegative_float
  nonnegative_stored h p = rw (finite_stored h p.0, p.1) refl

  pub probability_stored :
      find key section ≡ some (floating x)
      → IsProbability x
      → require_probability section key ≡ ok x
  unfolding require_probability
  probability_stored h p = rw (finite_stored h p.0, p.1) refl
