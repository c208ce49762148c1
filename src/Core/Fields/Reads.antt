-- ===== src/Core/Fields/Reads.antt =====
-- What the typed reads of core/validation.py accept, and what they raise.
use package.text.Mathlib.TextEquality.{eq_iff}
use ros2_resilience.Prelude.{
  ℤ, pos, negsuc, Bool, true, false, not, ◌&&◌, ◌≡◌, refl, String, none, List, arith, if◌then◌else◌,
  Bool-cases, Option-cases, inl, inr,
}
use ros2_resilience.Python.Float.{Float, nought, one}
use ros2_resilience.Python.Result.{
  Error, ok, raise, validation_error, overflow_error, type_error, Checked, returned, refused,
  Checked-bind,
}
use ros2_resilience.Python.Value.{
  Value, null, boolean, integer, floating, text, mapping, Entries, empty, entry, numbered, unnamed,
}
use ros2_resilience.Core.Fields.{
  sortable, unknown_kinds, find, nonnegative, nonempty_text, a_bool, an_int, a_number, is_blank,
  is_member, has_only, require_mapping, reject_unknown_keys, require_key, require_nonempty_str,
  require_bool, require_int, require_nonnegative_int, require_float, require_positive_float,
  require_nonnegative_float, require_probability,
}
use ros2_resilience.Core.Sections.{demand}
use ros2_resilience.Core.Accepted.{IsText, IsFinite, IsPositive, IsNonnegative, IsProbability}

-- the exceptions of a refusal: `float` of an integer that is too large raises `OverflowError`, and the
-- sorting of unknown keys for the message raises `TypeError` where they do not compare
abbrev pub IsRefusal : Error → Type 0
IsRefusal validation_error = Unit
IsRefusal overflow_error = Unit
IsRefusal type_error = Unit
IsRefusal _ = ⊥

-- whatever was read
abbrev pub Anything : {A : Type 0} → A → Type 0
Anything a = Unit

unknown-Checked :
    {P : Unit {0} → Type 0} (b : Bool)
    → Checked IsRefusal P (if b then raise validation_error else raise type_error)
unknown-Checked true = refused tt
unknown-Checked false = refused tt

pub demand-Checked : (b : Bool) → Checked IsRefusal (λ _. b ≡ true) (demand b)
demand-Checked true = returned refl
demand-Checked false = (refused tt)

nonnegative-Checked : (z : ℤ) → Checked IsRefusal Anything (nonnegative z)
unfolding nonnegative
nonnegative-Checked (pos n) = returned tt
nonnegative-Checked (negsuc n) = (refused tt)

module _ {F : Type 0} where
  pub require_mapping-Checked : (v : Value F) → Checked IsRefusal Anything (require_mapping v)
  unfolding require_mapping
  require_mapping-Checked (mapping es) = returned tt
  require_mapping-Checked null = (refused tt)
  require_mapping-Checked (boolean b) = (refused tt)
  require_mapping-Checked (integer z) = (refused tt)
  require_mapping-Checked (floating x) = (refused tt)
  require_mapping-Checked (text s) = (refused tt)
  require_mapping-Checked (Value.sequence vs) = (refused tt)

  pub reject_unknown_keys-Checked :
      (section : Entries F) (allowed : List String)
      → Checked IsRefusal
          (λ _. has_only allowed section ≡ true)
          (reject_unknown_keys section allowed)
  unfolding reject_unknown_keys
  reject_unknown_keys-Checked section allowed = elim (Bool-cases (has_only allowed section)) [
    | inl known ↦ rw known (returned refl)
    | inr unknown ↦ rw unknown (unknown-Checked (sortable (unknown_kinds allowed section)))
  ]

  -- what `has_only` says of a key that is not allowed
  pub find-has_only :
      (k : String) (allowed : List String) (section : Entries F)
      → has_only allowed section ≡ true
      → is_member k allowed ≡ false
      → find k section ≡ none
  unfolding find has_only
  find-has_only k allowed empty h out = refl
  find-has_only k allowed (numbered v es) h out = cc
  find-has_only k allowed (unnamed v es) h out = cc
  find-has_only k allowed (entry j v es) h out =
      ground (arith, eq_iff k j, find-has_only k allowed es)

  pub require_key-Checked :
      (section : Entries F) (key : String) → Checked IsRefusal Anything (require_key section key)
  unfolding require_key
  require_key-Checked section key = elim (Option-cases (find key section)) [
    | inl missing ↦ rw missing (refused tt)
    | inr (v, set) ↦ rw set (returned tt)
  ]

  nonempty_text-Checked : (v : Value F) → Checked IsRefusal IsText (nonempty_text v)
  unfolding nonempty_text
  nonempty_text-Checked null = (refused tt)
  nonempty_text-Checked (boolean b) = (refused tt)
  nonempty_text-Checked (integer z) = (refused tt)
  nonempty_text-Checked (floating x) = (refused tt)
  nonempty_text-Checked (text s) = elim (Bool-cases (is_blank s)) [
    | inl blank ↦ rw blank (refused tt)
    | inr filled ↦ rw filled (returned filled)
  ]
  nonempty_text-Checked (Value.sequence vs) = (refused tt)
  nonempty_text-Checked (mapping es) = (refused tt)

  a_bool-Checked : (v : Value F) → Checked IsRefusal Anything (a_bool v)
  unfolding a_bool
  a_bool-Checked null = (refused tt)
  a_bool-Checked (boolean b) = returned tt
  a_bool-Checked (integer z) = (refused tt)
  a_bool-Checked (floating x) = (refused tt)
  a_bool-Checked (text s) = (refused tt)
  a_bool-Checked (Value.sequence vs) = (refused tt)
  a_bool-Checked (mapping es) = (refused tt)

  an_int-Checked : (v : Value F) → Checked IsRefusal Anything (an_int v)
  unfolding an_int
  an_int-Checked null = (refused tt)
  an_int-Checked (boolean b) = (refused tt)
  an_int-Checked (integer z) = returned tt
  an_int-Checked (floating x) = (refused tt)
  an_int-Checked (text s) = (refused tt)
  an_int-Checked (Value.sequence vs) = (refused tt)
  an_int-Checked (mapping es) = (refused tt)

  pub require_nonempty_str-Checked :
      (section : Entries F) (key : String)
      → Checked IsRefusal IsText (require_nonempty_str section key)
  unfolding require_nonempty_str
  require_nonempty_str-Checked section key =
      Checked-bind (require_key-Checked section key) λ v _. nonempty_text-Checked v

  pub require_bool-Checked :
      (section : Entries F) (key : String) → Checked IsRefusal Anything (require_bool section key)
  unfolding require_bool
  require_bool-Checked section key =
      Checked-bind (require_key-Checked section key) λ v _. a_bool-Checked v

  pub require_int-Checked :
      (section : Entries F) (key : String) → Checked IsRefusal Anything (require_int section key)
  unfolding require_int
  require_int-Checked section key =
      Checked-bind (require_key-Checked section key) λ v _. an_int-Checked v

  pub require_nonnegative_int-Checked :
      (section : Entries F) (key : String)
      → Checked IsRefusal Anything (require_nonnegative_int section key)
  unfolding require_nonnegative_int
  require_nonnegative_int-Checked section key =
      Checked-bind (require_int-Checked section key) λ z _. nonnegative-Checked z

module _ {F : Type 0} ⦃f : Float F⦄ where
  -- a value that passes a last test
  tested :
      (P : F → Type 0) (bad : Bool) (x : F)
      → (bad ≡ false → P x)
      → Checked IsRefusal P (if bad then raise validation_error else ok x)
  tested P true x h = (refused tt)
  tested P false x h = returned (h refl)

  a_number-Checked : (v : Value F) → Checked IsRefusal Anything (a_number v)
  unfolding a_number
  a_number-Checked null = (refused tt)
  a_number-Checked (boolean b) = (refused tt)
  a_number-Checked (integer z) = elim (Bool-cases (f.converts z)) [
    | inl small ↦ rw small (returned tt)
    | inr large ↦ rw large (refused tt)
  ]
  a_number-Checked (floating x) = returned tt
  a_number-Checked (text s) = (refused tt)
  a_number-Checked (Value.sequence vs) = (refused tt)
  a_number-Checked (mapping es) = (refused tt)

  pub require_float-Checked :
      (section : Entries F) (key : String) → Checked IsRefusal IsFinite (require_float section key)
  unfolding require_float
  require_float-Checked section key = Checked-bind (require_key-Checked section key) λ v _.
      Checked-bind (a_number-Checked v)
        λ x _. tested IsFinite (not (f.is_finite x)) x λ h. ground arith

  pub require_positive_float-Checked :
      (section : Entries F) (key : String)
      → Checked IsRefusal IsPositive (require_positive_float section key)
  unfolding require_positive_float
  require_positive_float-Checked section key =
      Checked-bind (require_float-Checked section key)
        λ x finite. tested IsPositive (f.le x nought) x λ h. (finite, h)

  pub require_nonnegative_float-Checked :
      (section : Entries F) (key : String)
      → Checked IsRefusal IsNonnegative (require_nonnegative_float section key)
  unfolding require_nonnegative_float
  require_nonnegative_float-Checked section key =
      Checked-bind (require_float-Checked section key)
        λ x finite. tested IsNonnegative (f.lt x nought) x λ h. (finite, h)

  pub require_probability-Checked :
      (section : Entries F) (key : String)
      → Checked IsRefusal IsProbability (require_probability section key)
  unfolding require_probability
  require_probability-Checked section key =
      Checked-bind (require_float-Checked section key) λ x finite.
        tested IsProbability (not (f.le nought x && f.le x one)) x λ h. (finite, ground arith)
