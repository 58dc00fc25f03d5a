-- ===== src/Auth/S3Auth/Canonical.antt =====
-- backend/src/auth/s3auth.ts: the canonical forms of a request's path, query and headers, the
-- expressions that read an Authorization header, and the date header's AMZ form.
use r2storage.Prelude.{
  Bool, List, Option, Text, [], all, codes, drop, false, filter, get_or_else, if◌then◌else◌,
  is_digit, is_space, join, join_with, leb, length, map, none, not, some, span, split, starts_with,
  suc, take, text_eq, to_lower, trim, true, zero, ℕ, ◌&&◌, ◌++◌, ◌==◌, ◌||◌, ◌∷◌,
}
use r2storage.Range.Preconditions.{Headers, lookup_text}
use r2storage.S3.Chunked.{cut_at}
use r2storage.S3.Listing.{text_lt}

unfoldable pub canonical_uri_candidates : Text → List Text
canonical_uri_candidates raw_path =
    if starts_with (codes "/s3/") raw_path then raw_path ∷ drop 3 raw_path ∷ [] else raw_path ∷ []

-- A pair of the query, split at its first `=`.
unfoldable pub query_pair : Text → Text × Text
query_pair raw_pair = let (name, value) = cut_at b'=' raw_pair in (name, get_or_else value [])

-- The order of the pairs: `a` does not come after `b`.
unfoldable pub pair_le : Text × Text → Text × Text → Bool
pair_le (n, v) (m, w) = if text_eq n m then not (text_lt w v) else text_lt n m

unfoldable pub insert_by {ℓ} : {A : Type ℓ} → (A → A → Bool) → A → List A → List A
insert_by le x [] = x ∷ []
insert_by le x (y ∷ ys) = let rest = insert_by le x ys in if le x y then x ∷ y ∷ ys else y ∷ rest

unfoldable pub sort_by {ℓ} : {A : Type ℓ} → (A → A → Bool) → List A → List A
unfolding insert_by
sort_by le [] = []
sort_by le (x ∷ xs) = insert_by le x (sort_by le xs)

unfoldable pub pair_text : Text × Text → Text
pair_text (n, v) = n ++ (b'=' ∷ v)

abbrev is_nonempty : Text → Bool
is_nonempty t = not (text_eq t [])

unfoldable pub canonical_query_string : Text → Text
unfolding query_pair pair_le pair_text
canonical_query_string raw_query =
    join b'&'
      (map pair_text (sort_by pair_le (map query_pair (filter is_nonempty (split b'&' raw_query)))))

-- The query without its signature.
unfoldable pub signed_query : Text → Text
signed_query raw_query = join b'&' (
    filter (λ pair. is_nonempty pair && not (starts_with (codes "X-Amz-Signature=") pair))
      (split b'&' raw_query))

starts_with_space : Text → Bool
starts_with_space [] = false
starts_with_space (c ∷ s) = is_space c

-- `.replace(/\s{2,}/g, ' ')`, told whether a run has been replaced and goes on.
collapse_spaces : Bool → Text → Text
unfolding starts_with_space
collapse_spaces inside [] = []
collapse_spaces inside (c ∷ s) = elim (is_space c) [
  | false ↦ c ∷ collapse_spaces false s
  | true ↦ elim inside [
    | true ↦ collapse_spaces (starts_with_space s) s
    | false ↦ elim (starts_with_space s) [
      | true ↦ 32 ∷ collapse_spaces true s
      | false ↦ c ∷ collapse_spaces false s
    ]
  ]
]

canonical_header : Headers → Text → Text
unfolding collapse_spaces
canonical_header h name =
    let value = get_or_else (lookup_text name h) (get_or_else (lookup_text (to_lower name) h) []) in
    name ++ (b':' ∷ collapse_spaces false (trim value)) ++ (10 ∷ [])

text_le : Text → Text → Bool
text_le a b = not (text_lt b a)

unfoldable pub build_canonical_headers : Headers → List Text → Text
unfolding canonical_header text_le
build_canonical_headers h signed_headers =
    join_with [] (map (canonical_header h) (sort_by text_le signed_headers))

-- What follows the literal in the text, both compared through `fold`.
strip_folded : (ℕ → ℕ) → Text → Text → Option Text
strip_folded fold [] s = some s
strip_folded fold (p ∷ ps) [] = none
strip_folded fold (p ∷ ps) (c ∷ s) = if fold p == fold c then strip_folded fold ps s else none

captured : Text × Text → Option Text
captured ([], rest) = none
captured (c ∷ s, rest) = some (c ∷ s)

-- The group of the first match of `/literal(class+)/`.
unfoldable pub match_after : (ℕ → ℕ) → Text → (ℕ → Bool) → Text → Option Text
unfolding strip_folded captured span
match_after fold literal p [] = none
match_after fold literal p (c ∷ s) =
    let later = match_after fold literal p s in
    elim (strip_folded fold literal (c ∷ s)) [
      | none ↦ later
      | some rest ↦ elim (captured (span p rest)) [ none ↦ later | some g ↦ some g ]
    ]

-- `[^,\s]`, and `[0-9a-f]` without regard to case.
unfoldable pub is_token : ℕ → Bool
is_token c = not (c == b',') && not (is_space c)

unfoldable pub is_hex : ℕ → Bool
is_hex c = is_digit c || (leb b'a' c && leb c b'f') || (leb b'A' c && leb c b'F')

-- `signedMatch[1].split(';')`, trimmed, in lower case, and without the empty names.
unfoldable pub signed_names : Text → List Text
signed_names t = filter is_nonempty (map (λ name. to_lower (trim name)) (split b';' t))

-- `.replace(/[:-]|\.\d{3}/g, '')`, told how many code units of a match are left.
amz_of_iso : ℕ → Text → Text
amz_of_iso n [] = []
amz_of_iso (suc n) (c ∷ s) = amz_of_iso n s
amz_of_iso zero (c ∷ s) =
    if c == b':' || c == b'-'
    then amz_of_iso 0 s
    else if c == b'.' && length (take 3 s) == 3 && all is_digit (take 3 s)
    then amz_of_iso 3 s
    else c ∷ amz_of_iso 0 s

unfoldable pub format_amz_date : Text → Text
unfolding amz_of_iso
format_amz_date iso = amz_of_iso 0 iso
