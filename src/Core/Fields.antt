-- ===== src/Core/Fields.antt =====
-- The `_require_*` helpers of ros2_resilience/core/validation.py: typed reads of a decoded mapping,
-- whose keys are texts. The texts of the errors are not modelled.
pub mod Reads
pub mod Stored
use Prim.Native.Char.{code}
use package.text.Mathlib.Text.{◌==◌ as str_eq}
use ros2_resilience.Prelude.{
  ℕ, ℤ, pos, negsuc, Bool, true, false, not, ◌&&◌, ◌||◌, String, Option, none, some, List, [], ◌∷◌,
  all, leb, ◌==◌, if◌then◌else◌,
}
use ros2_resilience.Python.Float.{Float, nought, one}
use ros2_resilience.Python.Result.{
  Result, ok, raise, validation_error, overflow_error, type_error, ◌>>=◌,
}
use ros2_resilience.Python.Value.{
  Value, null, boolean, integer, floating, text, mapping, Entries, empty, entry, numbered, unnamed,
}

-- a code point that `str.strip` removes
abbrev is_space : ℕ → Bool
is_space c =
    (leb 9 c && leb c 13)
    || (leb 28 c && leb c 32)
    || c == 133
    || c == 160
    || c == 5760
    || (leb 8192 c && leb c 8202)
    || c == 8232
    || c == 8233
    || c == 8239
    || c == 8287
    || c == 12288

-- `not s.strip()`
unfoldable pub is_blank : String → Bool
is_blank String.[] = true
is_blank (String.◌∷◌ c s) = is_space (code c) && is_blank s

unfoldable pub is_member : String → List String → Bool
is_member k [] = false
is_member k (j ∷ js) = str_eq k j || is_member k js

-- the kinds of keys that do not compare with each other
pub data KeyKind : Type 0 where
  text_key number_key null_key : KeyKind

abbrev is_text : KeyKind → Bool
is_text text_key = true
is_text _ = false

abbrev is_number : KeyKind → Bool
is_number number_key = true
is_number _ = false

-- whether `sorted` returns; one key is not compared
abbrev pub sortable : List KeyKind → Bool
sortable (k ∷ []) = true
sortable ks = all is_text ks || all is_number ks

nonnegative : ℤ → Result ℕ
nonnegative (pos n) = ok n
nonnegative (negsuc n) = raise validation_error

module _ {F : Type 0} where
  -- the value of a key
  unfoldable pub find : String → Entries F → Option (Value F)
  find k empty = none
  find k (entry j v es) = if str_eq k j then some v else find k es
  find k (numbered v es) = find k es
  find k (unnamed v es) = find k es

  -- `section.get(key)`
  unfoldable pub get : String → Entries F → Value F
  unfolding find
  get k es = elim (find k es) [ none ↦ null | some v ↦ v ]

  -- no key outside `allowed`
  unfoldable pub has_only : List String → Entries F → Bool
  unfolding is_member
  has_only allowed empty = true
  has_only allowed (entry k v es) = is_member k allowed && has_only allowed es
  has_only allowed (numbered v es) = false
  has_only allowed (unnamed v es) = false

  -- the kinds of the keys outside `allowed`
  unfoldable pub unknown_kinds : List String → Entries F → List KeyKind
  unfolding is_member
  unknown_kinds allowed empty = []
  unknown_kinds allowed (entry k v es) =
      let rest = unknown_kinds allowed es in if is_member k allowed then rest else text_key ∷ rest
  unknown_kinds allowed (numbered v es) = number_key ∷ unknown_kinds allowed es
  unknown_kinds allowed (unnamed v es) = null_key ∷ unknown_kinds allowed es

  -- `_require_mapping`
  unfoldable pub require_mapping : Value F → Result (Entries F)
  require_mapping (mapping es) = ok es
  require_mapping _ = raise validation_error

  -- `_reject_unknown_keys`; the keys are sorted for the message
  unfoldable pub reject_unknown_keys : Entries F → List String → Result (Unit {0})
  unfolding has_only unknown_kinds
  reject_unknown_keys section allowed =
      if has_only allowed section
      then ok tt
      else if sortable (unknown_kinds allowed section)
      then raise validation_error
      else raise type_error

  found : Option (Value F) → Result (Value F)
  found none = raise validation_error
  found (some v) = ok v

  -- `_require_key`
  unfoldable pub require_key : Entries F → String → Result (Value F)
  unfolding found find
  require_key section key = found (find key section)

  nonempty_text : Value F → Result String
  unfolding is_blank
  nonempty_text (text s) = if is_blank s then raise validation_error else ok s
  nonempty_text _ = raise validation_error

  -- `_require_nonempty_str`
  unfoldable pub require_nonempty_str : Entries F → String → Result String
  unfolding require_key nonempty_text
  require_nonempty_str section key = do value ← require_key section key; nonempty_text value

  a_bool : Value F → Result Bool
  a_bool (boolean b) = ok b
  a_bool _ = raise validation_error

  -- `_require_bool`
  unfoldable pub require_bool : Entries F → String → Result Bool
  unfolding require_key a_bool
  require_bool section key = do value ← require_key section key; a_bool value

  an_int : Value F → Result ℤ
  an_int (integer z) = ok z
  an_int _ = raise validation_error

  -- `_require_int`
  unfoldable pub require_int : Entries F → String → Result ℤ
  unfolding require_key an_int
  require_int section key = do value ← require_key section key; an_int value

  -- `_require_nonnegative_int`
  unfoldable pub require_nonnegative_int : Entries F → String → Result ℕ
  unfolding require_int nonnegative
  require_nonnegative_int section key = do value ← require_int section key; nonnegative value

module _ {F : Type 0} ⦃f : Float F⦄ where
  -- `float(value)`
  a_number : Value F → Result F
  a_number (integer z) = if f.converts z then ok (f.of_int z) else raise overflow_error
  a_number (floating x) = ok x
  a_number _ = raise validation_error

  -- `_require_float`
  unfoldable pub require_float : Entries F → String → Result F
  unfolding require_key a_number
  require_float section key = do
    value ← require_key section key
    x ← a_number value
    if not (f.is_finite x) then raise validation_error else ok x

  -- `_require_positive_float`
  unfoldable pub require_positive_float : Entries F → String → Result F
  unfolding require_float
  require_positive_float section key = do
    x ← require_float section key
    if f.le x nought then raise validation_error else ok x

  -- `_require_nonnegative_float`
  unfoldable pub require_nonnegative_float : Entries F → String → Result F
  unfolding require_float
  require_nonnegative_float section key = do
    x ← require_float section key
    if f.lt x nought then raise validation_error else ok x

  -- `_require_probability`
  unfoldable pub require_probability : Entries F → String → Result F
  unfolding require_float
  require_probability section key = do
    x ← require_float section key
    if not (f.le nought x && f.le x one) then raise validation_error else ok x
