-- ===== src/Prelude/Integers.antt =====
-- Integers over the native numbers, and `parseInt` where a sign counts.
use Prim.Native.Nat.{ℕ, zero, suc}
use mathlib.Core.Option.{Option, none, some}
use mathlib.Core.List.{[], ◌∷◌}
use r2storage.Prelude.Tests.{◌==◌, if◌then◌else◌}
use r2storage.Prelude.Strings.{Text, decimal, drop_spaces, is_digit, span}

pub data ℤ : Type 0 where
  pos negsuc : ℕ → ℤ

unfoldable pub neg : ℕ → ℤ
neg zero = pos 0
neg (suc n) = negsuc n

-- `n - 1`
unfoldable pub pred_ℤ : ℤ → ℤ
pred_ℤ (pos zero) = negsuc 0
pred_ℤ (pos (suc n)) = pos n
pred_ℤ (negsuc n) = negsuc (suc n)

digits_value : Text × Text → Option ℕ
digits_value ([], rest) = none
digits_value (d ∷ ds, rest) = some (decimal (d ∷ ds))

signed_value : Text → Option ℤ
unfolding digits_value span is_digit neg
signed_value [] = none
signed_value (c ∷ s) =
    if c == b'-'
    then elim (digits_value (span is_digit s)) [ none ↦ none | some n ↦ some (neg n) ]
    else elim (digits_value (span is_digit (if c == b'+' then s else c ∷ s))) [
      | none ↦ none
      | some n ↦ some (pos n)
    ]

-- `parseInt(s, 10)`, where nothing stands for NaN.
unfoldable pub parse_int : Text → Option ℤ
unfolding signed_value drop_spaces
parse_int s = signed_value (drop_spaces s)
