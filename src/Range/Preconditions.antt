-- ===== src/Range/Preconditions.antt =====
-- backend/src/api/range.ts: `notModified`, `readPreconditionFailed`, `checkWritePreconditions`.
-- `Headers` lists the names, in lower case, with their values. `Date.parse` is a parameter: the
-- milliseconds since 1970 of a date text, negative for earlier dates, or nothing for NaN.
use mathlib.Core.List.{reverse}
use r2storage.Prelude.{
  Bool, List, Option, String, Text, [], any, codes, false, get_or_else, if◌then◌else◌, leb, negsuc,
  none, not, pos, some, split, strip_prefix, text_eq, trim, true, ℕ, ℤ, ◌&&◌, ◌/◌, ◌==◌, ◌||◌, ◌∷◌,
}

-- `headers[name]`, and the same where an empty text counts as absent.
unfoldable pub lookup_text {ℓ} : {A : Type ℓ} → Text → List (Text × A) → Option A
lookup_text name [] = none
lookup_text name ((k, v) ∷ h) = if text_eq k name then some v else lookup_text name h

abbrev pub Headers : Type 0
Headers = List (Text × Text)

unfoldable pub nonempty : Option Text → Option Text
nonempty none = none
nonempty (some v) = if text_eq v [] then none else some v

-- `typeof v === 'string' && v`
unfoldable pub header : Headers → String → Option Text
unfolding nonempty lookup_text
header h name = nonempty (lookup_text (codes name) h)

unfoldable pub raw_header : Headers → String → Option Text
unfolding lookup_text
raw_header h name = lookup_text (codes name) h

trim_option : Option Text → Option Text
trim_option none = none
trim_option (some v) = some (trim v)

-- `headers[name]?.trim()` where it is not empty.
unfoldable pub trimmed_header : Headers → String → Option Text
unfolding nonempty trim_option
trimmed_header h name = nonempty (trim_option (raw_header h name))

-- The code units that `.` does not match.
is_line_end : ℕ → Bool
is_line_end c = c == 10 || c == 13 || c == 0x2028 || c == 0x2029

-- `.replace(/^W\//, '')`
strip_weak : Text → Text
strip_weak t = get_or_else (strip_prefix (codes "W/") t) t

unquote_tail : Text → Text → Text
unfolding is_line_end
unquote_tail t [] = t
unquote_tail t (c ∷ s) = if c == b'"' && not (any is_line_end s) then reverse s else t

-- `.replace(/^"(.*)"$/, '$1')`
unquote : Text → Text
unfolding unquote_tail
unquote [] = []
unquote (c ∷ s) = if c == b'"' then unquote_tail (c ∷ s) (reverse s) else c ∷ s

unfoldable pub normalized : Text → Text
unfolding strip_weak unquote
normalized tag = unquote (strip_weak (trim tag))

abbrev pub is_star : Text → Bool
is_star tag = text_eq (trim tag) (codes "*")

-- `value.split(',').some((tag) => normalized(tag) === et)`
unfoldable pub lists_tag : Text → Text → Bool
lists_tag value etag = any (λ tag. text_eq (normalized tag) (normalized etag)) (split b',' value)

unfoldable pub lists_tag_or_star : Text → Text → Bool
lists_tag_or_star value etag =
    any (λ tag. is_star tag || text_eq (normalized tag) (normalized etag)) (split b',' value)

pub record Version : Type 0 where
  pub etag : Text
  pub updated_at : ℕ

pub data WritePrecondition : Type 0 where
  ok precondition_failed conflict : WritePrecondition

-- `Math.floor(t / 1000) <= Math.floor(since / 1000)`, where `t` is not negative.
seconds_not_after : ℕ → ℤ → Bool
seconds_not_after t (pos since) = leb (t / 1000) (since / 1000)
seconds_not_after t (negsuc since) = false

module _ (date_parse : Text → Option ℤ) where
  -- Whether an instant is at most the date of the header, in whole seconds; NaN gives the default,
  -- and a date before 1970 is before every instant of the clock.
  unfoldable pub not_after : Bool → ℕ → Text → Bool
  unfolding seconds_not_after
  not_after default t ims = elim (date_parse ims) [
    | none ↦ default
    | some since ↦ seconds_not_after t since
  ]

  unfoldable pub not_modified : Headers → Version → Bool
  not_modified h v = elim (header h "if-none-match") [
    | some inm ↦ lists_tag_or_star inm v.etag
    | none ↦ elim (header h "if-modified-since") [
      | some ims ↦ not_after false v.updated_at ims
      | none ↦ false
    ]
  ]

  unfoldable pub read_precondition_failed : Headers → Version → Bool
  read_precondition_failed h v = elim (header h "if-match") [
    | some if_match ↦ if is_star if_match then false else not (lists_tag if_match v.etag)
    | none ↦ elim (header h "if-unmodified-since") [
      | some date ↦ not (not_after true v.updated_at date)
      | none ↦ false
    ]
  ]

  unfoldable pub if_match_write : Text → Option Version → WritePrecondition
  if_match_write if_match none = precondition_failed
  if_match_write if_match (some v) =
      if is_star if_match then ok else if lists_tag if_match v.etag then ok else precondition_failed

  unfoldable pub unmodified_write : Text → Option Version → WritePrecondition
  unmodified_write date none = ok
  unmodified_write date (some v) =
      if not_after true v.updated_at date then ok else precondition_failed

  unfoldable pub none_match_write : Text → Option Version → WritePrecondition
  none_match_write tag none = ok
  none_match_write tag (some v) =
      if is_star tag
      then conflict
      else if text_eq (normalized (trim tag)) (normalized v.etag)
      then conflict
      else ok

  unfoldable pub check_write_preconditions : Headers → Option Version → WritePrecondition
  unfolding if_match_write unmodified_write none_match_write
  check_write_preconditions h existing = elim (header h "if-match") [
    | some if_match ↦ if_match_write if_match existing
    | none ↦ elim (header h "if-unmodified-since") [
      | some date ↦ unmodified_write date existing
      | none ↦ elim (header h "if-none-match") [
        | some tag ↦ none_match_write tag existing
        | none ↦ ok
      ]
    ]
  ]
