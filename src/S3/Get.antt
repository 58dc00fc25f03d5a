-- ===== src/S3/Get.antt =====
-- backend/src/api/s3.ts: GET /s3/:bucket/* (GetObject, GetObjectTagging, GetObjectAttributes,
-- ListParts), HEAD /s3/:bucket and GET /s3. A reply holds what the XML or the headers are made of;
-- `pieces` cuts the plaintext of a blob the way it comes through the decipher.
pub mod Served
mod Tests
use mathlib.Core.List.{reverse}
use r2storage.Prelude.{
  Bool, List, Option, String, Text, [], codes, drop, false, filter, get_or_else, if◌then◌else◌,
  is_some, length, ltb, map, min, none, not, parse_nat, some, take, text_eq, to_lower, ℕ, ◌&&◌,
  ◌++◌, ◌+◌, ◌-◌, ◌||◌, ◌∷◌,
}
use r2storage.Range.{RangeSpec, full, invalid, parse_range_header, partial}
use r2storage.Range.Preconditions.{
  Headers, Version, header, lookup_text, not_modified, raw_header, read_precondition_failed,
  trimmed_header,
}
use r2storage.S3.{
  AuthResult, Reply, Request, denied_reply, failed, has_query, read_access, refuses, succeeded,
}
use r2storage.S3.Checks.{SseC, customer_key_md5, sse_c_error, validate_sse_c}
use r2storage.S3.Cors.{apply_cors_headers, decimal_text, set_header, set_headers}
use r2storage.S3.Listing.{text_lt}
use r2storage.S3.Multipart.{sort_parts}
use r2storage.Storage.Blob.{is_encrypted, maybe_decrypt, refuses_blob}
use r2storage.Storage.Engine.{Platform}
use r2storage.Storage.Stream.{slice_stream}
use r2storage.Store.{
  Bucket, Bytes, Metadata, ObjectRow, PartRow, Tags, World, find_bucket, find_object, find_upload,
  parts_of, read_file,
}

pub data ChecksumMode : Type 0 where
  no_checksum with_checksum bad_mode : ChecksumMode

unfoldable pub checksum_mode : Headers → ChecksumMode
checksum_mode h = elim (trimmed_header h "x-amz-checksum-mode") [
  | none ↦ no_checksum
  | some raw ↦
      if text_eq (to_lower raw) (codes "enabled") || text_eq (to_lower raw) (codes "full")
      then with_checksum
      else bad_mode
]

pub record PartsPage : Type 0 where
  pub marker : ℕ
  pub next_part_number_marker : ℕ
  pub max_parts : ℕ
  pub truncated : Bool
  pub parts : List PartRow

-- A content reply: its status, its headers, Content-Length, the positions of Content-Range, and the
-- bytes of the stream, or nothing where reading it fails.
pub data GetReply : Type 0 where
  get_failed : ℕ → String → GetReply
  unmodified : GetReply
  tagging : Tags → GetReply
  attributes : ObjectRow → Option Text → GetReply
  parts_page : PartsPage → GetReply
  content_reply : ℕ → Headers → ℕ → Option (ℕ × ℕ) → Option Bytes → GetReply

system_header : String → Option Text → Headers
system_header name none = []
system_header name (some v) = if text_eq v [] then [] else (codes name, v) ∷ []

unfoldable pub metadata_headers : Option Metadata → Headers
unfolding system_header
metadata_headers none = []
metadata_headers (some m) =
    system_header "content-disposition" m.content_disposition
    ++ system_header "content-encoding" m.content_encoding
    ++ system_header "cache-control" m.cache_control
    ++ map (λ e. (codes "x-amz-meta-" ++ e.0, e.1)) m.user

sse_c_headers : {pf : Platform} → SseC pf → Headers
sse_c_headers (customer_key_md5 m) =
    (codes "x-amz-server-side-encryption-customer-algorithm", codes "AES256")
    ∷ (codes "x-amz-server-side-encryption-customer-key-md5", m)
    ∷ []
sse_c_headers other = []

unfoldable pub default_cache_control : Headers → Headers
default_cache_control h =
    if is_some (lookup_text (codes "cache-control") h)
    then h
    else set_header (codes "cache-control") (codes "public, max-age=31536000") h

tag_headers : Option Tags → Headers
tag_headers none = []
tag_headers (some []) = []
tag_headers (some (t ∷ tags)) = (codes "x-amz-tagging-count", decimal_text (length (t ∷ tags))) ∷ []

unfoldable pub stored_checksum : ChecksumMode → ObjectRow → Option Text
stored_checksum with_checksum o = elim o.checksum_crc32 [
  | none ↦ none
  | some c ↦ if text_eq c [] then none else some c
]
stored_checksum other o = none

checksum_headers : Option Text → Headers
checksum_headers none = []
checksum_headers (some c) =
    (codes "x-amz-checksum-crc32", c) ∷ (codes "x-amz-checksum-type", codes "FULL_OBJECT") ∷ []

override : Request → String → String → Headers
override r name parameter = elim (raw_header r.query parameter) [
  | none ↦ []
  | some v ↦ (codes name, v) ∷ []
]

-- The response headers of an object, in the order in which the route sets them.
unfoldable pub object_headers :
    {pf : Platform} → Request → Bucket → ObjectRow → SseC pf → ChecksumMode → Headers
unfolding sse_c_headers default_cache_control tag_headers checksum_headers override
object_headers r bucket o ssec mode =
    let typed =
      set_headers
        (sse_c_headers ssec
          ++ ((codes "content-type", o.content_type) ∷ (codes "etag", o.etag) ∷ [])
          ++ metadata_headers o.metadata)
        (apply_cors_headers bucket r.headers []) in
    set_headers
      (((codes "accept-ranges", codes "bytes") ∷ [])
        ++ tag_headers o.tags
        ++ checksum_headers (stored_checksum mode o)
        ++ override r "content-type" "response-content-type"
        ++ override r "content-disposition" "response-content-disposition"
        ++ override r "content-encoding" "response-content-encoding"
        ++ override r "content-language" "response-content-language"
        ++ override r "cache-control" "response-cache-control"
        ++ override r "expires" "response-expires")
      (default_cache_control typed)

unfoldable pub list_parts : Request → Text → World → GetReply
list_parts r id w = elim (find_upload id w.uploads) [
  | none ↦ get_failed 404 "NoSuchUpload"
  | some u ↦
      if not (text_eq u.bucket_name r.bucket_name && text_eq u.key r.key)
      then get_failed 404 "NoSuchUpload"
      else let marker =
          get_or_else (parse_nat (get_or_else (header r.query "part-number-marker") (codes "0")))
            0 in
        let max_parts =
          min
            (get_or_else (parse_nat (get_or_else (header r.query "max-parts") (codes "1000"))) 1000)
            1000 in
        let rest = sort_parts (filter (λ p. ltb marker p.part_number) (parts_of id w.parts)) in
        let page = take max_parts rest in
        parts_page (record {
          marker = marker;
          next_part_number_marker = elim (reverse page) as (λ _. ℕ) [
            | [] ↦ 0
            | p ∷ ps ↦ p.part_number
          ];
          max_parts = max_parts;
          truncated = ltb max_parts (length rest);
          parts = page;
        })
]

module _ (pf : Platform) (pieces : Bytes → List Bytes) where
  -- getObjectStreamRange on the stored bytes: a plaintext file is read between the positions; the
  -- plaintext of an encrypted one is sliced. A blob whose tag is wrong is taken to fail at once.
  unfoldable pub read_range : Bytes → ℕ → ℕ → Option Bytes
  read_range stored start end =
      if is_some pf.enc_key && is_encrypted stored
      then elim (maybe_decrypt pf.gcm pf.enc_key stored) [
        | none ↦ none
        | some plain ↦ some (slice_stream start end 0 (pieces plain))
      ]
      else some (take (end - start + 1) (drop start stored))

  -- A blob whose opening throws is answered by the server's handler of errors.
  unfoldable pub send_content : Headers → ObjectRow → RangeSpec → World → GetReply
  unfolding read_range
  send_content h o invalid w = get_failed 416 "InvalidRange"
  send_content h o full w = elim (read_file o.storage_path w.files) [
    | none ↦ get_failed 404 "NoSuchKey"
    | some stored ↦
        if refuses_blob pf.enc_key stored
        then get_failed 500 "InternalError"
        else content_reply 200 h o.size none (maybe_decrypt pf.gcm pf.enc_key stored)
  ]
  send_content h o (partial start end size) w = elim (read_file o.storage_path w.files) [
    | none ↦ get_failed 404 "NoSuchKey"
    | some stored ↦
        if refuses_blob pf.enc_key stored
        then get_failed 500 "InternalError"
        else content_reply 206 h size (some (start, end)) (read_range stored start end)
  ]

  unfoldable pub send_object : Request → Bucket → ChecksumMode → ObjectRow → World → GetReply
  unfolding object_headers send_content
  send_object r bucket mode o w =
      let ssec = validate_sse_c pf r.headers false in
      let version : Version = record { etag = o.etag; updated_at = o.updated_at } in
      elim (sse_c_error pf ssec) [
        | some (status, code) ↦ get_failed status code
        | none ↦
            if read_precondition_failed pf.date_parse r.headers version
            then get_failed 412 "PreconditionFailed"
            else if not_modified pf.date_parse r.headers version
            then unmodified
            else send_content (object_headers r bucket o ssec mode) o
                (parse_range_header (header r.headers "range") o.size) w
      ]

  unfoldable pub found_object : Request → World → (ObjectRow → GetReply) → GetReply
  found_object r w answer = elim (find_object r.bucket_name r.key w.objects) [
    | none ↦ get_failed 404 "NoSuchKey"
    | some o ↦ answer o
  ]

  unfoldable pub get_resource : Request → Bucket → World → GetReply
  unfolding found_object list_parts send_object
  get_resource r bucket w =
      let mode = checksum_mode r.headers in
      elim mode as (λ _. GetReply) [
        | bad_mode ↦ get_failed 400 "InvalidArgument"
        | _ ↦
            if has_query r "tagging"
            then found_object r w (λ o. tagging (get_or_else o.tags []))
            else if has_query r "attributes"
            then found_object r w (λ o. attributes o (stored_checksum mode o))
            else elim (raw_header r.query "uploadId") [
              | some id ↦ list_parts r id w
              | none ↦ found_object r w (λ o. send_object r bucket mode o w)
            ]
      ]

  -- Whether the request may read the bucket.
  unfoldable pub may_read : Request → Bucket → Bool
  may_read r bucket = bucket.is_public || not (refuses r read_access)

  unfoldable pub get_object : Request → World → GetReply
  unfolding get_resource may_read
  get_object r w = elim (find_bucket r.bucket_name w.buckets) [
    | none ↦ get_failed 404 "NoSuchBucket"
    | some bucket ↦
        if not (may_read r bucket) then get_failed 403 "AccessDenied" else get_resource r bucket w
  ]

  unfoldable pub head_bucket : Request → World → Reply
  unfolding may_read
  head_bucket r w = elim (find_bucket r.bucket_name w.buckets) [
    | none ↦ failed 404 "NoSuchBucket"
    | some bucket ↦ if not (may_read r bucket) then denied_reply else succeeded 200 none
  ]

unfoldable pub insert_bucket : Bucket → List Bucket → List Bucket
insert_bucket b [] = b ∷ []
insert_bucket b (c ∷ cs) =
    let rest = insert_bucket b cs in if text_lt c.name b.name then c ∷ rest else b ∷ c ∷ cs

unfoldable pub sort_buckets : List Bucket → List Bucket
unfolding insert_bucket
sort_buckets [] = []
sort_buckets (b ∷ bs) = insert_bucket b (sort_buckets bs)

-- GET /s3: the buckets listed, or nothing for a 403.
unfoldable pub list_buckets : AuthResult → World → Option (List Bucket)
list_buckets auth w =
    if not auth.authenticated
    then none
    else let name = get_or_else auth.bucket_filter [] in
      if text_eq name []
      then some (sort_buckets w.buckets)
      else some
          (elim (find_bucket name w.buckets) as (λ _. List Bucket) [ none ↦ [] | some b ↦ b ∷ [] ])
