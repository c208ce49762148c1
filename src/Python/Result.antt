-- ===== src/Python/Result.antt =====
-- What a call of the program's pure code gives: a value, or the class of the exception that it
-- raises. An exception's message is not modelled.
use ros2_resilience.Prelude.{◌≡◌, refl, ◌⊎◌, inl, inr}

pub data Error : Type 0 where
  type_error value_error overflow_error zero_division key_error assertion_error : Error
  -- `QueueOverflowError` of faults/latency.py
  queue_overflow : Error
  -- `ScenarioValidationError` of core/validation.py
  validation_error : Error
  -- `LifecycleError` of core/experiment.py
  lifecycle_error : Error

pub data Result {ℓ} (A : Type ℓ) : Type ℓ where
  ok : A → Result A
  raise : Error → Result A

infixl 5 ◌>>=◌
abbrev pub ◌>>=◌ {ℓ κ} : {S : Type ℓ} {T : Type κ} → Result S → (S → Result T) → Result T
raise e >>= next = raise e
ok x >>= next = next x

-- what a call returns, if it returns, has the property
abbrev pub Ensures {ℓ κ} : {A : Type ℓ} → (A → Type κ) → Result A → Type κ
Ensures P (ok a) = P a
Ensures P (raise e) = Unit

pub Ensures-bind {ℓ κ μ} :
    {A : Type ℓ} {B : Type κ} (P : B → Type μ) (m : Result A) (f : A → Result B)
    → ((a : A) → m ≡ ok a → Ensures P (f a))
    → Ensures P (m >>= f)
Ensures-bind P (ok a) f h = h a refl
Ensures-bind P (raise e) f h = tt

-- the object that a method leaves: an exception leaves the old one
abbrev pub state_after {ℓ} : {A : Type ℓ} → A → Result A → A
state_after old (ok new) = new
state_after old (raise e) = old

pub Ensures-state_after {ℓ κ} :
    {A : Type ℓ} (P : A → Type κ) (old : A) (r : Result A)
    → P old
    → Ensures P r
    → P (state_after old r)
Ensures-state_after P old (ok new) h k = k
Ensures-state_after P old (raise e) h k = h

pub ok_injective : {A : Type 0} {a b : A} → ok a ≡ ok b → a ≡ b
ok_injective h = cc

pub Result-cases {ℓ} :
    {A : Type ℓ} (r : Result A) → ((e : Error) × (r ≡ raise e)) ⊎ ((a : A) × (r ≡ ok a))
Result-cases (ok a) = inr (a, refl)
Result-cases (raise e) = inl (e, refl)

-- a chain that returned: its first call returned, and the rest did from there
pub bind_returned {ℓ κ} :
    {S : Type ℓ} {T : Type κ} (next : S → Result T) (first : Result S) {t : T}
    → (first >>= next) ≡ ok t
    → (s : S) × (next s ≡ ok t) × (first ≡ ok s)
bind_returned next (raise e) h = cc
bind_returned next (ok s) h = (s, h, refl)

-- What a call returns has the property, and what it raises is of the given classes.
pub data Checked {A : Type 0} (E : Error → Type 0) (P : A → Type 0) : Result A → Type 0 where
  returned : {a : A} → P a → Checked E P (ok a)
  refused : {e : Error} → E e → Checked E P (raise e)

pub Checked-bind :
    {A B : Type 0} {E : Error → Type 0} {P : A → Type 0} {Q : B → Type 0} {m : Result A}
    {next : A → Result B}
    → Checked E P m
    → ((a : A) → P a → Checked E Q (next a))
    → Checked E Q (m >>= next)
Checked-bind (returned {a} h) k = k a h
Checked-bind (refused h) k = refused h

pub Checked-map :
    {A : Type 0} {E : Error → Type 0} {P Q : A → Type 0} {m : Result A}
    → ((a : A) → P a → Q a)
    → Checked E P m
    → Checked E Q m
Checked-map g (returned {a} h) = returned (g a h)
Checked-map g (refused h) = refused h

-- what is ensured of a first call is known to the rest of the chain
pub Ensures-then {ℓ κ μ ν} :
    {A : Type ℓ} {B : Type κ} (P : A → Type μ) (Q : B → Type ν) (m : Result A) (f : A → Result B)
    → Ensures P m
    → ((a : A) → P a → Ensures Q (f a))
    → Ensures Q (m >>= f)
Ensures-then P Q (ok a) f h k = k a h
Ensures-then P Q (raise e) f h k = tt
