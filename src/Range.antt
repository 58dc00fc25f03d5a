-- ===== src/Range.antt =====
-- backend/src/api/range.ts: `parseRangeHeader`. The conditional headers are in the child
-- Preconditions. Header values are code units; a header that is absent or empty has no value.
pub mod Preconditions
pub mod Conditional
pub mod Selection
pub mod Bounds
mod Tests
use r2storage.Prelude.{
  Bool, Option, Text, [], all, codes, decimal, drop_spaces, if◌then◌else◌, is_digit, is_space, leb,
  ltb, min, none, not, some, span, strip_prefix, text_eq, ℕ, ◌+◌, ◌-◌, ◌==◌, ◌^◌, ◌||◌, ◌∷◌,
}

pub data RangeSpec : Type 0 where
  full invalid : RangeSpec
  partial : ℕ → ℕ → ℕ → RangeSpec

-- `Number.isFinite` of the double nearest to a whole number: from 2^1024 - 2^970 on it is Infinity.
unfoldable pub is_finite : ℕ → Bool
is_finite v = ltb v (2 ^ 1024 - 2 ^ 970)

-- What follows `bytes=` up to the end: digits, a dash, digits and spaces.
after_dash : Text → Text → Option (Text × Text)
after_dash ds [] = none
after_dash ds (c ∷ s) =
    let (es, rest) = span is_digit s in
    if c == b'-' then (if all is_space rest then some (ds, es) else none) else none

after_unit : Text → Option (Text × Text)
unfolding after_dash
after_unit s = let (ds, rest) = span is_digit s in after_dash ds rest

after_prefix : Option Text → Option (Text × Text)
unfolding after_unit
after_prefix none = none
after_prefix (some s) = after_unit s

-- `/^\s*bytes=(\d*)-(\d*)\s*$/.exec(range)`, with its two groups.
unfoldable pub range_match : Text → Option (Text × Text)
unfolding after_prefix
range_match s = after_prefix (strip_prefix (codes "bytes=") (drop_spaces s))

-- `bytes=-suffix`. A whole number is below `size` exactly when its double is, since sizes are exact.
unfoldable pub suffix_range : ℕ → ℕ → RangeSpec
unfolding is_finite
suffix_range suffix size =
    if not (is_finite suffix) || suffix == 0 || size == 0
    then invalid
    else partial (size - min suffix size) (size - 1) (min suffix size)

-- `bytes=start-` and `bytes=start-end`; no last position means the end of the object.
unfoldable pub last_position : Text → ℕ → ℕ
last_position es size = if text_eq es [] then size - 1 else min (decimal es) (size - 1)

unfoldable pub from_range : ℕ → Text → ℕ → RangeSpec
unfolding is_finite last_position
from_range start es size =
    if not (is_finite start)
    then full
    else if leb size start || ltb (last_position es size) start
    then invalid
    else partial start (last_position es size) (last_position es size - start + 1)

unfoldable pub resolve_range : Text → Text → ℕ → RangeSpec
unfolding suffix_range from_range
resolve_range [] [] size = full
resolve_range [] (e ∷ es) size = suffix_range (decimal (e ∷ es)) size
resolve_range (d ∷ ds) es size = from_range (decimal (d ∷ ds)) es size

unfoldable pub resolve_match : Option (Text × Text) → ℕ → RangeSpec
unfolding resolve_range
resolve_match none size = full
resolve_match (some (ds, es)) size = resolve_range ds es size

unfoldable pub parse_range_header : Option Text → ℕ → RangeSpec
unfolding range_match resolve_match
parse_range_header none size = full
parse_range_header (some range) size = resolve_match (range_match range) size
