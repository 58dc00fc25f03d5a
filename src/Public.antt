-- ===== src/Public.antt =====
-- backend/src/api/public.ts: objects served under the hosts of custom domains and of the base domain.
-- The CustomDomain table is the list of its domains with their buckets; `decode_uri` is
-- decodeURIComponent. A reply that is JSON stands by its status and its `error`.
pub mod Scope
mod Tests
use mathlib.Core.List.{reverse}
use r2storage.Prelude.{
  List, Option, Text, [], codes, get_or_else, if◌then◌else◌, is_some, none, not, some, strip_prefix,
  text_eq, to_lower, ◌++◌, ◌==◌, ◌||◌, ◌∷◌,
}
use r2storage.Range.{parse_range_header}
use r2storage.Range.Preconditions.{Headers, Version, header, lookup_text, not_modified}
use r2storage.S3.{Request}
use r2storage.S3.Chunked.{cut_at}
use r2storage.S3.Cors.{actual, cors_headers_for_request, set_header, set_headers}
use r2storage.S3.Get.{
  GetReply, default_cache_control, get_failed, metadata_headers, send_content, unmodified,
}
use r2storage.Storage.Blob.{refuses_blob}
use r2storage.Storage.Engine.{Platform}
use r2storage.Store.{Bucket, Bytes, ObjectRow, World, find_bucket, find_object, read_file}

-- `host.endsWith(suffix)`, with what stands before.
unfoldable pub strip_suffix : Text → Text → Option Text
strip_suffix suffix s = elim (strip_prefix (reverse suffix) (reverse s)) [
  | none ↦ none
  | some rest ↦ some (reverse rest)
]

-- `s.replace(p, '')`, at the first occurrence of the text.
unfoldable pub remove_first : Text → Text → Text
remove_first p [] = elim (strip_prefix p []) [ none ↦ [] | some rest ↦ rest ]
remove_first p (c ∷ s) =
    let rest = remove_first p s in
    elim (strip_prefix p (c ∷ s)) [ none ↦ c ∷ rest | some after ↦ after ]

-- `(req.headers.host || '').split(':')[0].toLowerCase()`
unfoldable pub request_host : Headers → Text
request_host h = to_lower (cut_at b':' (get_or_else (header h "host") [])).0

unfoldable pub drop_slashes : Text → Text
drop_slashes [] = []
drop_slashes (c ∷ s) = if c == b'/' then drop_slashes s else c ∷ s

pub data PublicReply : Type 0 where
  not_handled : PublicReply
  handled : GetReply → PublicReply

module _ (pf : Platform) (pieces : Bytes → List Bytes) (base_domain : Text) where
  -- The bucket that a host names: nothing, or the empty text, where it is no storage host.
  unfoldable pub host_bucket : List (Text × Text) → Text → Option Text
  host_bucket domains host = elim (lookup_text host domains) [
    | some bucket ↦ some bucket
    | none ↦
        if is_some (strip_suffix (b'.' ∷ base_domain) host)
        then some (remove_first (b'.' ∷ base_domain) host)
        else none
  ]

  -- The key: the one of the route, or the decoded path of the URL; nothing where it does not decode.
  unfoldable pub public_key : Option Text → Text → Option Text
  public_key (some k) url = some k
  public_key none url = pf.decode_uri (drop_slashes (cut_at b'?' url).0)

  unfoldable pub public_headers : Request → Bucket → ObjectRow → Headers
  public_headers r bucket o =
      let origin = if text_eq bucket.cors_origins [] then codes "*" else bucket.cors_origins in
      let allowed =
        set_headers
          (cors_headers_for_request bucket.cors_rules (get_or_else (header r.headers "origin") [])
            actual)
          (set_header (codes "access-control-allow-origin") origin []) in
      let typed =
        set_headers
          (((codes "content-type", o.content_type) ∷ (codes "etag", o.etag) ∷ [])
            ++ metadata_headers o.metadata)
          allowed in
      set_header (codes "accept-ranges") (codes "bytes") (default_cache_control typed)

  -- Below the lookup of the object.
  unfoldable pub serve_row : Request → Bucket → ObjectRow → World → GetReply
  unfolding public_headers
  serve_row r bucket o w =
      let version : Version = record { etag = o.etag; updated_at = o.updated_at } in
      elim (read_file o.storage_path w.files) [
        | none ↦ get_failed 404 "Object storage file missing."
        | some stored ↦
            if refuses_blob pf.enc_key stored
            then get_failed 500 "InternalError"
            else if not_modified pf.date_parse r.headers version
            then unmodified
            else send_content pf pieces (public_headers r bucket o) o
                (parse_range_header (header r.headers "range") o.size) w
      ]

  unfoldable pub serve_key : Request → Text → Text → World → GetReply
  unfolding serve_row
  serve_key r bucket_name k w = elim (find_bucket bucket_name w.buckets) [
    | none ↦ get_failed 403 "Bucket is private."
    | some bucket ↦
        if not bucket.is_public
        then get_failed 403 "Bucket is private."
        else elim (find_object bucket_name k w.objects) [
          | none ↦ get_failed 404 "Object not found."
          | some o ↦ serve_row r bucket o w
        ]
  ]

  unfoldable pub try_serve_public_object :
      List (Text × Text) → Request → Text → Option Text → World → PublicReply
  unfolding serve_key host_bucket public_key
  try_serve_public_object domains r url explicit w = elim (public_key explicit url) [
    | none ↦ not_handled
    | some k ↦ elim (host_bucket domains (request_host r.headers)) [
      | none ↦ not_handled
      | some bucket_name ↦
          if text_eq bucket_name [] || text_eq k []
          then not_handled
          else handled (serve_key r bucket_name k w)
    ]
  ]

  -- GET /public/*
  unfoldable pub public_route : List (Text × Text) → Request → Text → World → GetReply
  public_route domains r url w = elim (try_serve_public_object domains r url (some r.key) w) [
    | handled reply ↦ reply
    | not_handled ↦ get_failed 404 "Asset not found."
  ]
