-- ===== src/S3/Tagging.antt =====
-- backend/src/api/tags.ts and metadata.ts: tag sets and object metadata from headers. JSON columns
-- hold the decoded value; a map is the list of its entries in the order of insertion.
use r2storage.Prelude.{
  Bool, List, Option, Text, [], all, any, codes, false, if◌then◌else◌, is_digit, is_some, leb,
  length, ltb, none, not, some, span, split, strip_prefix, text_eq, to_lower, true, ℕ, ◌&&◌, ◌++◌,
  ◌==◌, ◌||◌, ◌∷◌,
}
use r2storage.Range.Preconditions.{Headers, header, lookup_text}
use r2storage.Store.{Metadata, Tags}

abbrev pub max_tags : ℕ
max_tags = 10

-- Names that `key in {}` finds on Object.prototype.
unfoldable pub is_inherited : Text → Bool
is_inherited k =
    any (λ name. text_eq name k)
      (codes "constructor"
        ∷ codes "__defineGetter__"
        ∷ codes "__defineSetter__"
        ∷ codes "hasOwnProperty"
        ∷ codes "__lookupGetter__"
        ∷ codes "__lookupSetter__"
        ∷ codes "isPrototypeOf"
        ∷ codes "propertyIsEnumerable"
        ∷ codes "toString"
        ∷ codes "valueOf"
        ∷ codes "__proto__"
        ∷ codes "toLocaleString"
        ∷ [])

-- TAG_CHARSET: `/^[A-Za-z0-9 +\-=._:/@]*$/`
tag_char : ℕ → Bool
tag_char c =
    (leb b'A' c && leb c b'Z')
    || (leb b'a' c && leb c b'z')
    || is_digit c
    || any (λ d. d == c) (codes " +-=._:/@")

-- A pair split at its first `=`; nothing where there is none or the key is empty.
split_pair : Text → Option (Text × Text)
split_pair [] = none
split_pair (c ∷ s) =
    let (k, rest) = span (λ d. not (d == b'=')) (c ∷ s) in
    if c == b'=' then none else elim rest [ [] ↦ none | _ ∷ v ↦ some (k, v) ]

module _ (decode_uri : Text → Option Text) where
  decode_pair : Option (Text × Text) → Option (Text × Text)
  decode_pair none = none
  decode_pair (some (k, v)) = elim (decode_uri k) [
    | none ↦ none
    | some k' ↦ elim (decode_uri v) [ none ↦ none | some v' ↦ some (k', v') ]
  ]

  -- The checks on one entry, and its addition at the end.
  add_tag : Tags → Option (Text × Text) → Option Tags
  unfolding is_inherited
  add_tag tags none = none
  add_tag tags (some (k, v)) =
      if text_eq k [] || ltb 128 (length k) || ltb 256 (length v)
      then none
      else if is_some (lookup_text k tags) || is_inherited k
      then none
      else some (tags ++ (k, v) ∷ [])

  parse_pairs : List Text → Option Tags → Option Tags
  unfolding decode_pair add_tag split_pair
  parse_pairs [] tags = tags
  parse_pairs (p ∷ ps) none = none
  parse_pairs (p ∷ ps) (some tags) =
      parse_pairs ps (if text_eq p [] then some tags else add_tag tags (decode_pair (split_pair p)))

  valid_tags : Option Tags → Option Tags
  unfolding tag_char
  valid_tags none = none
  valid_tags (some tags) =
      if ltb max_tags (length tags)
      then none
      else if all (λ t. all tag_char t.0 && all tag_char t.1) tags
      then some tags
      else none

  unfoldable pub parse_tagging_header : Text → Option Tags
  unfolding parse_pairs valid_tags
  parse_tagging_header value = valid_tags (parse_pairs (split b'&' value) (some []))

-- serializeTags
unfoldable pub serialize_tags : Tags → Option Tags
serialize_tags [] = none
serialize_tags (t ∷ tags) = some (t ∷ tags)

-- extractMetadataFromHeaders and serializeMetadata.
user_metadata : Headers → List (Text × Text)
user_metadata [] = []
user_metadata ((name, value) ∷ h) = elim (strip_prefix (codes "x-amz-meta-") name) [
  | none ↦ user_metadata h
  | some k ↦ if text_eq value [] then user_metadata h else (to_lower k, value) ∷ user_metadata h
]

unfoldable pub extract_metadata : Headers → Metadata
unfolding user_metadata
extract_metadata h = record {
  user = user_metadata h;
  content_disposition = header h "content-disposition";
  content_encoding = header h "content-encoding";
  cache_control = header h "cache-control";
}

no_entries : List (Text × Text) → Bool
no_entries [] = true
no_entries (e ∷ es) = false

unfoldable pub serialize_metadata : Metadata → Option Metadata
unfolding no_entries
serialize_metadata m =
    if no_entries m.user
      && not (is_some m.content_disposition)
      && not (is_some m.content_encoding)
      && not (is_some m.cache_control)
    then none
    else some m
