-- ===== src/Python/Decimal.antt =====
-- `str(n)` and `f"{n:04d}"` of a number that is not negative. Numbers with the same text are equal.
use Prim.Native.Char.{Char, code}
use Prim.Native.Nat.{◌%◌, ◌≤◌, ◌<◌}
use Prim.Native.String.{◌++◌, count}
use package.text.Mathlib.TextLemmas.{nil-append, cons-append}
use ros2_resilience.Prelude.{
  ℕ, zero, suc, ◌+◌, ◌-◌, ◌*◌, ◌/◌, ◌≡◌, refl, sym, ap, true, Bool-cases, inl, inr, ◌∙◌, String,
  arith, ◌==◌, if◌then◌else◌,
}

-- the character of a digit
digit : ℕ → Char
digit zero = "0"
digit (suc zero) = "1"
digit (suc (suc zero)) = "2"
digit (suc (suc (suc zero))) = "3"
digit (suc (suc (suc (suc zero)))) = "4"
digit (suc (suc (suc (suc (suc zero))))) = "5"
digit (suc (suc (suc (suc (suc (suc zero)))))) = "6"
digit (suc (suc (suc (suc (suc (suc (suc zero))))))) = "7"
digit (suc (suc (suc (suc (suc (suc (suc (suc zero)))))))) = "8"
digit (suc (suc (suc (suc (suc (suc (suc (suc (suc d))))))))) = "9"

-- the digits of `n` in front of `out`; `n` rounds are enough, as each divides by ten
emit : ℕ → ℕ → String → String
unfolding digit
emit zero n out = out
emit (suc fuel) n out =
    let rest = emit fuel (n / 10) (String.◌∷◌ (digit (n % 10)) out) in if n == 0 then out else rest

-- `str(n)`
unfoldable pub str : ℕ → String
unfolding emit
str n = if n == 0 then "0" else emit n n ""

unfoldable pub zeros : ℕ → String
zeros zero = ""
zeros (suc k) = String.◌∷◌ "0" (zeros k)

-- `f"{n:04d}"`
unfoldable pub padded : ℕ → String
unfolding zeros str
padded n = zeros (4 - count (str n)) ++ str n

-- the number that the digits of a text spell behind `n`
value : String → ℕ → ℕ
value String.[] n = n
value (String.◌∷◌ c s) n = value s (n * 10 + (code c - 48))

code-digit : (d : ℕ) → d < 10 → code (digit d) ≡ d + 48
unfolding digit
code-digit zero h = refl
code-digit (suc zero) h = refl
code-digit (suc (suc zero)) h = refl
code-digit (suc (suc (suc zero))) h = refl
code-digit (suc (suc (suc (suc zero)))) h = refl
code-digit (suc (suc (suc (suc (suc zero))))) h = refl
code-digit (suc (suc (suc (suc (suc (suc zero)))))) h = refl
code-digit (suc (suc (suc (suc (suc (suc (suc zero))))))) h = refl
code-digit (suc (suc (suc (suc (suc (suc (suc (suc zero)))))))) h = refl
code-digit (suc (suc (suc (suc (suc (suc (suc (suc (suc d))))))))) h = omega arith

zero_eq : (n : ℕ) → (n == 0) ≡ true → n ≡ 0
zero_eq n h = ground arith

zero_of : (n : ℕ) → n ≤ 0 → n ≡ 0
zero_of n h = omega arith

value-emit : (fuel n : ℕ) (out : String) → n ≤ fuel → value (emit fuel n out) 0 ≡ value out n
unfolding emit value
value-emit zero n out h = rw (zero_of n h) refl
value-emit (suc fuel) n out h =
    ground (arith, value-emit fuel (n / 10) (String.◌∷◌ (digit (n % 10)) out), code-digit (n % 10))

value-str : (n : ℕ) → value (str n) 0 ≡ n
unfolding str value
value-str n = elim (Bool-cases (n == 0)) [
  | inl is_zero ↦ rw is_zero (sym (zero_eq n is_zero))
  | inr positive ↦ rw positive (value-emit n n "" (omega arith))
]

value-zeros : (k : ℕ) (s : String) → value (zeros k ++ s) 0 ≡ value s 0
unfolding value zeros
value-zeros zero s = rw (nil-append s) refl
value-zeros (suc k) s = rw (cons-append "0" (zeros k) s) (value-zeros k s)

value-padded : (n : ℕ) → value (padded n) 0 ≡ n
unfolding padded
value-padded n = value-zeros (4 - count (str n)) (str n) ∙ value-str n

pub padded-injective : (m n : ℕ) → padded m ≡ padded n → m ≡ n
padded-injective m n h = sym (value-padded m) ∙ ap (λ s. value s 0) h ∙ value-padded n

pub str-injective : (m n : ℕ) → str m ≡ str n → m ≡ n
str-injective m n h = sym (value-str m) ∙ ap (λ s. value s 0) h ∙ value-str n
