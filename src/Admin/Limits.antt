-- ===== src/Admin/Limits.antt =====
-- backend/src/quota.ts: the limit that is stored as a text and read back.
use r2storage.Admin.{AdminState, patch_quota, set_storage_quota}
use r2storage.Prelude.{
  Bool-cases, Text, [], all, ap, arith, decimal, decimal_from, false, inl, inr, is_digit, is_space,
  leb, parse_nat, refl, some, span, suc, sym, true, zero, ℕ, ◌%◌, ◌*◌, ◌+◌, ◌/◌, ◌<◌, ◌↔◌, ◌∙◌, ◌∷◌,
  ◌≡◌, ◌≢◌,
}
use r2storage.Quota.{storage_quota, used_bytes, would_exceed, would_exceed_quota}
use r2storage.S3.Cors.{decimal_text, decimal_text_fuel}

pow10 : ℕ → ℕ
pow10 zero = 1
pow10 (suc n) = 10 * pow10 n

decimal_from-decimal_text_fuel :
    (fuel n : ℕ) (acc : Text)
    → n < pow10 fuel
    → decimal_from 0 (decimal_text_fuel fuel n acc) ≡ decimal_from n acc
unfolding decimal_from decimal_text_fuel pow10
decimal_from-decimal_text_fuel zero n acc h = ap (λ m. decimal_from m acc) (omega (arith, h))
decimal_from-decimal_text_fuel (suc fuel) n acc h = elim (Bool-cases (leb n 9)) [
  | inl e ↦ rw e (ap (λ m. decimal_from m acc) (ground arith))
  | inr e ↦ rw e (
      decimal_from-decimal_text_fuel fuel (n / 10) ((b'0' + n % 10) ∷ acc) (ground arith)
      ∙ ap (λ m. decimal_from m acc) (ground arith))
]

all-decimal_text_fuel :
    (fuel n : ℕ) (acc : Text)
    → all is_digit acc ≡ true
    → all is_digit (decimal_text_fuel fuel n acc) ≡ true
unfolding decimal_text_fuel is_digit
all-decimal_text_fuel zero n acc h = h
all-decimal_text_fuel (suc fuel) n acc h = elim (Bool-cases (leb n 9)) [
  | inl e ↦ rw e (ground (arith, h))
  | inr e ↦ rw e (all-decimal_text_fuel fuel (n / 10) ((b'0' + n % 10) ∷ acc) (ground (arith, h)))
]

span-all : (s : Text) → all is_digit s ≡ true → span is_digit s ≡ (s, [])
unfolding span
span-all [] h = refl
span-all (c ∷ s) h = ground (arith, span-all s)

is_digit→not-is_space : (c : ℕ) → is_digit c ≡ true → is_space c ≡ false
unfolding is_digit is_space
is_digit→not-is_space c h = ground arith

parse_nat-digits :
    (c : ℕ) (s : Text) → all is_digit (c ∷ s) ≡ true → parse_nat (c ∷ s) ≡ some (decimal (c ∷ s))
unfolding parse_nat
parse_nat-digits c s h = ground (arith, span-all (c ∷ s), is_digit→not-is_space c)

nonempty_decimal_text_fuel :
    (fuel n c : ℕ) (acc : Text)
    → (d : ℕ) × (t : Text) × (decimal_text_fuel fuel n (c ∷ acc) ≡ d ∷ t)
unfolding decimal_text_fuel
nonempty_decimal_text_fuel zero n c acc = (c, acc, refl)
nonempty_decimal_text_fuel (suc fuel) n c acc = elim (Bool-cases (leb n 9)) [
  | inl e ↦ rw e (b'0' + n % 10, c ∷ acc, refl)
  | inr e ↦ rw e (nonempty_decimal_text_fuel fuel (n / 10) (b'0' + n % 10) (c ∷ acc))
]

nonempty_decimal_text : (n : ℕ) → (d : ℕ) × (t : Text) × (decimal_text n ≡ d ∷ t)
unfolding decimal_text_fuel
nonempty_decimal_text n = elim (Bool-cases (leb n 9)) [
  | inl e ↦ rw e (b'0' + n % 10, [], refl)
  | inr e ↦ rw e (nonempty_decimal_text_fuel 19 (n / 10) (b'0' + n % 10) [])
]

parse_nat-decimal_text : (n : ℕ) → n < 100000000000000000000 → parse_nat (decimal_text n) ≡ some n
unfolding decimal_from pow10
parse_nat-decimal_text n h =
    let (d, t, same) = nonempty_decimal_text n in
    let digits = rw same at (all-decimal_text_fuel 20 n [] refl) in
    rw same (
      parse_nat-digits d t digits
      ∙ ap some (ap decimal (sym same) ∙ decimal_from-decimal_text_fuel 20 n [] h))

-- A limit below 10^20 that the control plane sets is the quota from then on, whatever the default of
-- the environment: a change is refused exactly when it takes the stored bytes above the limit, and
-- never where the limit is 0.
pub would_exceed_quota-patch_quota :
    (boot_quota n added removed : ℕ) (s : AdminState)
    → n < 100000000000000000000
    → let w = (patch_quota (some n) s).0.stored in
      (would_exceed_quota boot_quota added removed w ≡ true)
      ↔ ((n ≢ 0) × (n + removed < used_bytes s.stored.objects + added))
unfolding patch_quota set_storage_quota would_exceed_quota would_exceed storage_quota
would_exceed_quota-patch_quota boot_quota n added removed s h =
    rw (parse_nat-decimal_text n h) (ground arith)
