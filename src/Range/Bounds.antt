-- ===== src/Range/Bounds.antt =====
-- The positions that any Range header, well-formed or not, can be answered with.
use r2storage.Prelude.{
  Bool-cases, Option, Text, [], arith, decimal, inl, inr, leb, ltb, none, refl, some, subst,
  text_eq, ℕ, ◌+◌, ◌-◌, ◌<◌, ◌==◌, ◌||◌, ◌∷◌, ◌≡◌, ◌≤◌,
}
use r2storage.Range.{
  RangeSpec, from_range, full, invalid, is_finite, last_position, parse_range_header, partial,
  range_match, resolve_match, resolve_range, suffix_range,
}

abbrev InBounds : ℕ → RangeSpec → Type 0
InBounds size full = Unit
InBounds size invalid = Unit
InBounds size (partial s e len) = (s ≤ e) × (e < size) × (len ≡ e - s + 1)

suffix_range-InBounds : (n size : ℕ) → InBounds size (suffix_range n size)
unfolding suffix_range
suffix_range-InBounds n size = elim (Bool-cases (is_finite n)) [
  | inr e ↦ rw e tt
  | inl e ↦ elim (Bool-cases (n == 0 || size == 0)) [
    | inl bad ↦ rw (e, bad) tt
    | inr good ↦ rw (e, good) (ground arith, ground arith, ground arith)
  ]
]

last_position-inside : (es : Text) (size : ℕ) → last_position es size ≤ size - 1
unfolding last_position
last_position-inside es size = elim (Bool-cases (text_eq es [])) [
  | inl e ↦ rw e (omega arith)
  | inr e ↦ rw e (omega arith)
]

from_range-InBounds : (start : ℕ) (es : Text) (size : ℕ) → InBounds size (from_range start es size)
unfolding from_range
from_range-InBounds start es size = elim (Bool-cases (is_finite start)) [
  | inr e ↦ rw e tt
  | inl e ↦ elim (Bool-cases (leb size start || ltb (last_position es size) start)) [
    | inl bad ↦ rw (e, bad) tt
    | inr good ↦
        let inside = last_position-inside es size in
        rw (e, good) (ground (arith, inside), ground (arith, inside), refl)
  ]
]

resolve_range-InBounds : (ds es : Text) (size : ℕ) → InBounds size (resolve_range ds es size)
unfolding resolve_range
resolve_range-InBounds [] [] size = tt
resolve_range-InBounds [] (e ∷ es) size = suffix_range-InBounds (decimal (e ∷ es)) size
resolve_range-InBounds (d ∷ ds) es size = from_range-InBounds (decimal (d ∷ ds)) es size

resolve_match-InBounds :
    (m : Option (Text × Text)) (size : ℕ) → InBounds size (resolve_match m size)
unfolding resolve_match
resolve_match-InBounds none size = tt
resolve_match-InBounds (some (ds, es)) size = resolve_range-InBounds ds es size

parse_range_header-InBounds :
    (range : Option Text) (size : ℕ) → InBounds size (parse_range_header range size)
unfolding parse_range_header
parse_range_header-InBounds none size = tt
parse_range_header-InBounds (some range) size = resolve_match-InBounds (range_match range) size

-- Whatever the header, a partial answer's first position is not after its last, the last lies in the
-- object, and the length counts the positions from the first to the last.
pub parse_range_header-bounds :
    (range : Option Text) (size s e len : ℕ)
    → parse_range_header range size ≡ partial s e len
    → (s ≤ e) × (e < size) × (len ≡ e - s + 1)
parse_range_header-bounds range size s e len h =
    subst (InBounds size) h (parse_range_header-InBounds range size)
