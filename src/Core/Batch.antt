-- ===== src/Core/Batch.antt =====
-- ros2_resilience/core/batch.py: the seeds and the identifiers of the trials of a batch.
use Prim.Native.String.{◌++◌}
use package.text.Mathlib.TextLemmas.{append_cancel_left}
use ros2_resilience.Prelude.{ℕ, ℤ, pos, negsuc, ◌+ℤ◌, ◌≡◌, ◌≢◌, String}
use ros2_resilience.Python.Decimal.{padded, padded-injective}
use ros2_resilience.Python.Result.{Result, ok, raise, value_error}

unfoldable pub derive_seed : ℤ → ℤ → Result ℤ
unfolding ◌+ℤ◌
derive_seed base_seed (negsuc n) = raise value_error
derive_seed base_seed (pos i) = ok (base_seed +ℤ pos i)

unfoldable pub trial_id : String → ℤ → Result String
unfolding padded
trial_id batch_id (negsuc n) = raise value_error
trial_id batch_id (pos i) = ok (batch_id ++ ("-" ++ padded i))

ok_injective : {A : Type 0} {a b : A} → ok a ≡ ok b → a ≡ b
ok_injective h = cc

injective :
    (batch_id : String) (i j : ℕ) → trial_id batch_id (pos i) ≡ trial_id batch_id (pos j) → i ≡ j
unfolding trial_id
injective batch_id i j h = padded-injective i j (
    append_cancel_left "-" (padded i) (padded j)
      (append_cancel_left batch_id ("-" ++ padded i) ("-" ++ padded j) (ok_injective h)))

-- Trials of one batch with different indices have different identifiers, those that need more than
-- four digits included.
pub trial_id-distinct :
    (batch_id : String) (i j : ℕ) → i ≢ j → trial_id batch_id (pos i) ≢ trial_id batch_id (pos j)
trial_id-distinct batch_id i j h same = h (injective batch_id i j same)
