-- ===== src/S3/Listing.antt =====
-- backend/src/api/s3.ts: the pages of ListObjects (both versions) and of ListMultipartUploads. The
-- rows come in the order of the database query, ascending by key. Comparisons of texts are by code
-- units, as in JavaScript.
pub mod Coverage
pub mod Resume
mod Tests
use mathlib.Core.List.{reverse}
use r2storage.Prelude.{
  Bool, List, Option, Text, [], drop, false, get_or_else, if◌then◌else◌, leb, length, ltb, min,
  none, not, parse_nat, some, starts_with, take, text_eq, true, ℕ, ◌&&◌, ◌+◌, ◌==◌, ◌||◌, ◌∷◌,
}
use r2storage.Store.{UploadRow}

pub data Item {ℓ} (A : Type ℓ) : Type ℓ where
  content : A → Item A
  folded : Text → Item A

pub record Page {ℓ} (A : Type ℓ) : Type ℓ where
  pub items : List (Item A)
  pub truncated : Bool
  pub last_consumed : Text

-- `a < b`
unfoldable pub text_lt : Text → Text → Bool
text_lt [] [] = false
text_lt [] (y ∷ ys) = true
text_lt (x ∷ xs) [] = false
text_lt (x ∷ xs) (y ∷ ys) = if x == y then text_lt xs ys else ltb x y

-- `text.indexOf(d)`
unfoldable pub index_of : Text → Text → Option ℕ
index_of d [] = if starts_with d [] then some 0 else none
index_of d (c ∷ s) =
    if starts_with d (c ∷ s)
    then some 0
    else elim (index_of d s) [ none ↦ none | some i ↦ some (i + 1) ]

-- The common prefix that a key folds into, where there is a delimiter and it occurs past the prefix.
unfoldable pub common_prefix : Text → Text → Text → Option Text
common_prefix prefix [] k = none
common_prefix prefix (d ∷ ds) k = elim (index_of (d ∷ ds) (drop (length prefix) k)) [
  | none ↦ none
  | some i ↦ some (take (length prefix + i + length (d ∷ ds)) k)
]

-- `prev && prev.kind === 'prefix' && prev.prefix === cp`, on the items with the latest in front.
unfoldable pub is_last_prefix {ℓ} : {A : Type ℓ} → Text → List (Item A) → Bool
is_last_prefix cp (folded p ∷ items) = text_eq p cp
is_last_prefix cp other = false

abbrev pub close_page {ℓ} : {A : Type ℓ} → List (Item A) → Bool → Text → Page A
close_page items truncated last = record {
  items = reverse items;
  truncated = truncated;
  last_consumed = last;
}

-- The item that a key adds: nothing where it folds into the prefix that was added last.
unfoldable pub next_item {ℓ} :
    {A : Type ℓ} → Text → Text → Text → A → List (Item A) → Option (Item A)
next_item prefix delimiter k a items = elim (common_prefix prefix delimiter k) [
  | none ↦ some (content a)
  | some cp ↦ if is_last_prefix cp items then none else some (folded cp)
]

-- The loop over the keys of ListObjects; `last` is the key that was looked at before.
unfoldable pub list_loop : Text → Text → ℕ → List (Item Text) → Text → List Text → Page Text
list_loop prefix delimiter max_keys items last [] = close_page items false last
list_loop prefix delimiter max_keys items last (k ∷ ks) =
    elim (next_item prefix delimiter k k items) [
      | none ↦ list_loop prefix delimiter max_keys items k ks
      | some item ↦ elim (leb max_keys (length items)) [
        | true ↦ close_page items true k
        | false ↦ list_loop prefix delimiter max_keys (item ∷ items) k ks
      ]
    ]

-- `keys.filter((k) => (resumeAfter ? k > resumeAfter : true))`
unfoldable pub keys_after : Text → List Text → List Text
keys_after marker [] = []
keys_after marker (k ∷ ks) =
    if text_eq marker [] || text_lt marker k then k ∷ keys_after marker ks else keys_after marker ks

unfoldable pub list_objects : Text → Text → ℕ → Text → List Text → Page Text
unfolding list_loop keys_after
list_objects prefix delimiter max_keys marker keys =
    list_loop prefix delimiter max_keys [] [] (keys_after marker keys)

-- The continuation token or NextMarker of a page, before its encoding.
unfoldable pub next_marker : Page Text → Option Text
next_marker p = if p.truncated then some p.last_consumed else none

-- Whether ListMultipartUploads skips an upload for its two markers.
unfoldable pub is_skipped : Text → Text → UploadRow → Bool
is_skipped key_marker id_marker u =
    not (text_eq key_marker [])
    && (text_lt u.key key_marker
        || (text_eq u.key key_marker
            && (text_eq id_marker [] || not (text_lt id_marker u.upload_id))))

unfoldable pub upload_loop :
    Text → Text → ℕ → Text → Text → List (Item UploadRow) → List UploadRow → Page UploadRow
upload_loop prefix delimiter max_uploads key_marker id_marker items [] = close_page items false []
upload_loop prefix delimiter max_uploads key_marker id_marker items (u ∷ us) =
    elim (is_skipped key_marker id_marker u) [
      | true ↦ upload_loop prefix delimiter max_uploads key_marker id_marker items us
      | false ↦ elim (next_item prefix delimiter u.key u items) [
        | none ↦ upload_loop prefix delimiter max_uploads key_marker id_marker items us
        | some item ↦ elim (leb max_uploads (length items)) [
          | true ↦ close_page items true []
          | false ↦ upload_loop prefix delimiter max_uploads key_marker id_marker (item ∷ items) us
        ]
      ]
    ]

unfoldable pub list_uploads : Text → Text → ℕ → Text → Text → List UploadRow → Page UploadRow
unfolding upload_loop
list_uploads prefix delimiter max_uploads key_marker id_marker us =
    upload_loop prefix delimiter max_uploads key_marker id_marker [] us

last_key : List (Item UploadRow) → Text
last_key [] = []
last_key (content u ∷ items) = u.key
last_key (folded p ∷ items) = p

-- nextKeyMarker
unfoldable pub next_key_marker : Page UploadRow → Text
unfolding last_key
next_key_marker p = if p.truncated then last_key (reverse p.items) else []

-- `Math.min` of 1000 and the parsed limit, 1000 where it is absent or no number from 0 on.
unfoldable pub page_limit : Option Text → ℕ
page_limit none = 1000
page_limit (some v) = if text_eq v [] then 1000 else min (get_or_else (parse_nat v) 1000) 1000
