-- ===== src/Range/Selection.antt =====
-- The positions that a parsed Range header selects, against the positions that it asks for.
use r2storage.Prelude.{
  Bool-cases, Text, [], all, ap, arith, codes, decimal, drop_spaces, false, inl, inr, is_digit,
  is_space, leb, ltb, min, refl, some, span, strip_prefix, subst, sym, text_eq, true, ℕ, ◌++◌, ◌+◌,
  ◌-◌, ◌<◌, ◌==◌, ◌||◌, ◌↔◌, ◌∙◌, ◌∷◌, ◌≡◌, ◌≢◌, ◌≤◌,
}
use r2storage.Range.{
  RangeSpec, after_dash, after_prefix, after_unit, from_range, full, invalid, is_finite,
  parse_range_header, partial, range_match, resolve_match, resolve_range, suffix_range,
}

-- The positions of an object of `size` bytes that `bytes=ds-es` names.
abbrev pub Asked : Text → Text → ℕ → ℕ → Type 0
Asked [] es size i = (i < size) × (size ≤ i + decimal es)
Asked (d ∷ ds) [] size i = (i < size) × (decimal (d ∷ ds) ≤ i)
Asked (d ∷ ds) (e ∷ es) size i = (i < size) × (decimal (d ∷ ds) ≤ i) × (i ≤ decimal (e ∷ es))

-- What a specification has to be for the asked positions.
abbrev pub Serves : (ℕ → Type 0) → ℕ → RangeSpec → Type 0
Serves P size full = ⊥
Serves P size invalid = (i : ℕ) → ¬ P i
Serves P size (partial s e l) =
    (s ≤ e) × (e < size) × (l + s ≡ e + 1) × ((i : ℕ) → ((s ≤ i) × (i ≤ e)) ↔ P i)

suffix_range-Serves :
    (n size : ℕ)
    → is_finite n ≡ true
    → Serves (λ i. (i < size) × (size ≤ i + n)) size (suffix_range n size)
unfolding suffix_range
suffix_range-Serves n size f = rw f (elim (Bool-cases (n == 0 || size == 0)) [
  | inl bad ↦ rw bad (λ i h. ground arith)
  | inr good ↦ rw good (ground arith, ground arith, ground arith, λ i. ground arith)
])

from_range-Serves_open :
    (a size : ℕ)
    → is_finite a ≡ true
    → Serves (λ i. (i < size) × (a ≤ i)) size (from_range a [] size)
unfolding from_range text_eq
from_range-Serves_open a size f = rw f (elim (Bool-cases (leb size a || ltb (size - 1) a)) [
  | inl bad ↦ rw bad (λ i h. ground arith)
  | inr good ↦ rw good (ground arith, ground arith, ground arith, λ i. ground arith)
])

from_range-Serves_closed :
    (a size e : ℕ) (es : Text)
    → is_finite a ≡ true
    → Serves (λ i. (i < size) × (a ≤ i) × (i ≤ decimal (e ∷ es))) size (from_range a (e ∷ es) size)
unfolding from_range text_eq
from_range-Serves_closed a size e es f =
    let b : ℕ = decimal (e ∷ es) in
    rw f (elim (Bool-cases (leb size a || ltb (min b (size - 1)) a)) [
      | inl bad ↦ rw bad (λ i h. ground arith)
      | inr good ↦ rw good (ground arith, ground arith, ground arith, λ i. ground arith)
    ])

resolve_range-Serves :
    (ds es : Text) (size : ℕ)
    → (ds ++ es) ≢ []
    → is_finite (decimal ds) ≡ true
    → is_finite (decimal es) ≡ true
    → Serves (Asked ds es size) size (resolve_range ds es size)
unfolding resolve_range
resolve_range-Serves [] [] size h f g = absurd (h refl)
resolve_range-Serves [] (e ∷ es) size h f g = suffix_range-Serves (decimal (e ∷ es)) size g
resolve_range-Serves (d ∷ ds) [] size h f g = from_range-Serves_open (decimal (d ∷ ds)) size f
resolve_range-Serves (d ∷ ds) (e ∷ es) size h f g =
    from_range-Serves_closed (decimal (d ∷ ds)) size e es f

-- The printed form of a single range, with the spaces that the expression allows around it.
abbrev pub range_text : Text → Text → Text → Text → Text
range_text before ds es after = before ++ (codes "bytes=" ++ (ds ++ (b'-' ∷ (es ++ after))))

drop_spaces-append : (ws s : Text) → all is_space ws ≡ true → drop_spaces (ws ++ s) ≡ drop_spaces s
unfolding drop_spaces
drop_spaces-append [] s h = refl
drop_spaces-append (c ∷ ws) s h = elim (Bool-cases (is_space c)) [
  | inl e ↦ rw e (drop_spaces-append ws s (ground arith))
  | inr e ↦ cc
]

span-append :
    (ds r : Text) (c : ℕ)
    → all is_digit ds ≡ true
    → is_digit c ≡ false
    → span is_digit (ds ++ (c ∷ r)) ≡ (ds, c ∷ r)
unfolding span
span-append [] r c h n = rw n
span-append (d ∷ ds) r c h n = ground (arith, span-append ds r c)

is_space→not-is_digit : (c : ℕ) → is_space c ≡ true → is_digit c ≡ false
unfolding is_space is_digit
is_space→not-is_digit c h = ground arith

span-append_spaces :
    (es ws : Text)
    → all is_digit es ≡ true
    → all is_space ws ≡ true
    → span is_digit (es ++ ws) ≡ (es, ws)
unfolding span
span-append_spaces [] [] h k = refl
span-append_spaces [] (w ∷ ws) h k = ground (arith, is_space→not-is_digit w)
span-append_spaces (e ∷ es) ws h k = ground (arith, span-append_spaces es ws)

after_unit-append :
    (ds es after : Text)
    → all is_digit ds ≡ true
    → all is_digit es ≡ true
    → all is_space after ≡ true
    → after_unit (ds ++ (b'-' ∷ (es ++ after))) ≡ some (ds, es)
unfolding after_unit after_dash is_digit
after_unit-append ds es after hd he ha =
    rw (span-append ds (es ++ after) b'-' hd refl, span-append_spaces es after he ha, ha)

range_match-range_text :
    (before ds es after : Text)
    → all is_space before ≡ true
    → all is_digit ds ≡ true
    → all is_digit es ≡ true
    → all is_space after ≡ true
    → range_match (range_text before ds es after) ≡ some (ds, es)
unfolding range_match strip_prefix drop_spaces is_space
range_match-range_text before ds es after hb hd he ha =
    ap (λ s. after_prefix (strip_prefix (codes "bytes=") s))
      (drop_spaces-append before (range_text [] ds es after) hb)
    ∙ after_unit-append ds es after hd he ha

-- A well-formed single range with at least one bound, in any surrounding spaces and with bounds that
-- a double can hold, is answered exactly: `partial` bounds lie inside the object, its length counts
-- the positions, and it selects exactly the asked positions; `invalid` comes only when the header
-- asks for no position of the object; the whole object is never served instead.
pub parse_range_header-Serves :
    (before ds es after : Text) (size : ℕ)
    → all is_space before ≡ true
    → all is_digit ds ≡ true
    → all is_digit es ≡ true
    → all is_space after ≡ true
    → (ds ++ es) ≢ []
    → is_finite (decimal ds) ≡ true
    → is_finite (decimal es) ≡ true
    → Serves
        (Asked ds es size)
        size
        (parse_range_header (some (range_text before ds es after)) size)
unfolding parse_range_header resolve_match
parse_range_header-Serves before ds es after size hb hd he ha ne f g =
    subst (λ m. Serves (Asked ds es size) size (resolve_match m size))
      (sym (range_match-range_text before ds es after hb hd he ha))
      (resolve_range-Serves ds es size ne f g)
