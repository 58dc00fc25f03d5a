-- ===== src/S3/Copy.antt =====
-- backend/src/api/s3.ts: CopyObject and UploadPartCopy, a PUT with an x-amz-copy-source header.
pub mod Quota
pub mod Clone
use r2storage.Platform.{count}
use r2storage.Prelude.{
  Bool, Option, Text, [], codes, decimal, drop, false, get_or_else, if◌then◌else◌, inl, inr,
  is_digit, leb, ltb, min, none, not, some, span, strip_prefix, take, text_eq, to_lower, trim, true,
  ℕ, ◌&&◌, ◌+◌, ◌-◌, ◌==◌, ◌||◌, ◌∷◌, ◌⊎◌,
}
use r2storage.Quota.{would_exceed_quota}
use r2storage.Range.Preconditions.{Headers, check_write_preconditions, header}
use r2storage.S3.{
  Reply, Request, S3Error, failed, part_target, permission_denied, read_access, rejection,
  succeeded,
}
use r2storage.S3.Checks.{sse_c_error, validate_sse_c}
use r2storage.S3.Put.{header_tags, part_too_long, precondition_error, quota_reply, version_of}
use r2storage.S3.Tagging.{extract_metadata, serialize_metadata}
use r2storage.Storage.Blob.{refuses_blob}
use r2storage.Storage.Engine.{Platform, Saved, abort_part, copy_object_file, read_object, save_part}
use r2storage.Store.{
  Bytes, FilePath, ObjectRow, Tags, World, find_bucket, find_object, find_upload, read_file,
  size_of, upsert_object, upsert_part,
}

-- `decoded.indexOf('/')` with something on both sides.
source_parts : Text × Text → Option (Text × Text)
source_parts ([], rest) = none
source_parts (b ∷ bs, []) = none
source_parts (b ∷ bs, _ ∷ []) = none
source_parts (b ∷ bs, _ ∷ (k ∷ ks)) = some (b ∷ bs, k ∷ ks)

split_source : Text → Option (Text × Text)
unfolding source_parts
split_source t = source_parts (span (λ c. not (c == b'/')) t)

before_query : Text → Text
before_query t = (span (λ c. not (c == b'?')) t).0

drop_slash : Text → Text
drop_slash t = get_or_else (strip_prefix (codes "/") t) t

-- `.trim().toUpperCase()` compared with COPY and REPLACE, which is a comparison of ASCII texts.
pub data Directive : Type 0 where
  copies replaces : Directive

unfoldable pub read_directive : Option Text → Option Directive
read_directive none = some copies
read_directive (some v) =
    if text_eq (to_lower (trim v)) (codes "copy")
    then some copies
    else if text_eq (to_lower (trim v)) (codes "replace")
    then some replaces
    else none

-- The tagging directive: anything but REPLACE copies.
unfoldable pub tag_directive : Option Directive → Directive
tag_directive (some replaces) = replaces
tag_directive other = copies

module _ (pf : Platform) (boot_quota : ℕ) where
  unfoldable pub copy_source : Text → Option (Text × Text)
  unfolding split_source before_query drop_slash
  copy_source v = elim (pf.decode_uri (before_query (drop_slash v))) [
    | none ↦ none
    | some decoded ↦ split_source decoded
  ]

  -- Tags of the copy: those of the source, or those of the header; `none` is a malformed header.
  unfoldable pub copy_tags : Headers → ObjectRow → Option (Option Tags)
  copy_tags h src = elim (tag_directive (read_directive (header h "x-amz-tagging-directive"))) [
    | copies ↦ some src.tags
    | replaces ↦ header_tags pf boot_quota h
  ]

  unfoldable pub copy_row : ℕ → Request → Directive → Option Tags → FilePath → ObjectRow → ObjectRow
  copy_row now r directive tags path src = record {
    bucket_name = r.bucket_name;
    key = r.key;
    size = src.size;
    content_type = elim directive [
      | copies ↦ src.content_type
      | replaces ↦ get_or_else (header r.headers "content-type") src.content_type
    ];
    etag = src.etag;
    storage_path = path;
    metadata = elim directive [
      | copies ↦ src.metadata
      | replaces ↦ serialize_metadata (extract_metadata r.headers)
    ];
    tags = tags;
    checksum_crc32 = src.checksum_crc32;
    updated_at = now;
  }

  -- `srcObj.size - existing > 0 && wouldExceedQuota(srcObj.size - existing)`
  unfoldable pub copy_too_long : ObjectRow → Option ObjectRow → World → Bool
  copy_too_long src dest w =
      ltb (size_of dest) src.size && would_exceed_quota boot_quota (src.size - size_of dest) 0 w

  -- From the tags on: the blob is cloned and the row of the destination stored.
  unfoldable pub finish_copy : ℕ → Request → Directive → ObjectRow → World → World × Reply
  finish_copy now r directive src w = elim (copy_tags r.headers src) [
    | none ↦ (w, failed 400 "InvalidTag")
    | some tags ↦ elim (copy_object_file pf src.storage_path r.bucket_name r.key w) [
      | none ↦ (w, failed 500 "InternalError")
      | some (w', path) ↦ (
        record w' { objects = upsert_object (copy_row now r directive tags path src) w'.objects },
        succeeded 200 (some src.etag),
      )
    ]
  ]

  unfoldable pub checked_copy : ℕ → Request → Directive → ObjectRow → World → World × Reply
  unfolding finish_copy copy_too_long
  checked_copy now r directive src w =
      let dest = find_object r.bucket_name r.key w.objects in
      elim (precondition_error
        (check_write_preconditions pf.date_parse r.headers (version_of dest))) [
          | some e ↦ (w, rejection e)
          | none ↦
              if copy_too_long src dest w
              then (w, quota_reply)
              else finish_copy now r directive src w
        ]

  is_copies : Directive → Bool
  is_copies copies = true
  is_copies replaces = false

  unfoldable pub copy_object : ℕ → Request → Text × Text → ObjectRow → World → World × Reply
  unfolding checked_copy is_copies
  copy_object now r (src_bucket, src_key) src w =
      elim (read_directive (header r.headers "x-amz-metadata-directive")) [
        | none ↦ (w, failed 400 "InvalidArgument")
        | some directive ↦
            if text_eq src_bucket r.bucket_name && text_eq src_key r.key && is_copies directive
            then (w, failed 400 "InvalidRequest")
            else checked_copy now r directive src w
      ]

  last_group : ℕ → Text × Text → Option (ℕ × ℕ)
  last_group s (e ∷ es, []) = some (s, decimal (e ∷ es))
  last_group s other = none

  first_group : Text × Text → Option (ℕ × ℕ)
  unfolding last_group
  first_group (d ∷ ds, c ∷ rest) =
      if c == b'-' then last_group (decimal (d ∷ ds)) (span is_digit rest) else none
  first_group other = none

  -- `/^bytes=(\d+)-(\d+)$/`
  range_groups : Option Text → Option (ℕ × ℕ)
  unfolding first_group
  range_groups none = none
  range_groups (some s) = first_group (span is_digit s)

  -- The bytes of the source that UploadPartCopy takes, as a start and a length.
  unfoldable pub copy_span : Option Text → ℕ → S3Error ⊎ (ℕ × ℕ)
  unfolding range_groups
  copy_span none size = inr (0, size)
  copy_span (some v) size = elim (range_groups (strip_prefix (codes "bytes=") v)) [
    | none ↦ inl (400, "InvalidArgument")
    | some (s, e) ↦
        if ltb e s || leb size s
        then inl (400, "InvalidRange")
        else inr (s, min e (size - 1) - s + 1)
  ]

  store_part_copy : ℕ → Bytes → Text → ℕ → World × Saved → World × Reply
  store_part_copy now iv id n (w, saved) = (
    record w {
      parts =
          upsert_part
            (record {
              upload_id = id;
              part_number = n;
              etag = saved.etag;
              size = saved.size;
              storage_path = saved.storage_path;
              created_at = now;
            })
            w.parts;
    },
    succeeded 200 (some saved.etag),
  )

  -- The stream of the source: the whole blob where the span is that of the row's size, and else the
  -- bytes of the span.
  unfoldable pub span_bytes : ℕ → ℕ → ℕ → Bytes → Bytes
  span_bytes first count size bytes =
      if first == 0 && count == size then bytes else take count (drop first bytes)

  -- A blob that is refused throws before the part's file is opened; one that cannot be decrypted
  -- breaks the stream.
  read_part_copy : ℕ → Bytes → Text → ℕ → ObjectRow → ℕ × ℕ → World → World × Reply
  unfolding store_part_copy
  read_part_copy now iv id n src (first, count) w = elim (read_file src.storage_path w.files) [
    | none ↦ (w, failed 404 "NoSuchKey")
    | some stored ↦
        if refuses_blob pf.enc_key stored
        then (w, failed 500 "InternalError")
        else elim (read_object pf src.storage_path w) [
          | none ↦ (abort_part pf id n w, failed 500 "InternalError")
          | some bytes ↦
              store_part_copy now iv id n
                (save_part pf id n iv (span_bytes first count src.size bytes) w)
        ]
  ]

  unfoldable pub upload_part_copy :
      ℕ → Bytes → Request → Text → ℕ → ObjectRow → World → World × Reply
  unfolding read_part_copy
  upload_part_copy now iv r id n src w = elim (find_upload id w.uploads) [
    | none ↦ (w, failed 404 "NoSuchUpload")
    | some _ ↦ elim (copy_span (header r.headers "x-amz-copy-source-range") src.size) [
      | inl e ↦ (w, rejection e)
      | inr (first, count) ↦
          if part_too_long pf boot_quota id n count w
          then (w, quota_reply)
          else read_part_copy now iv id n src (first, count) w
    ]
  ]

  -- The source must exist, and the principal must be able to read it unless its bucket is public.
  unfoldable pub find_source : Request → Text × Text → World → S3Error ⊎ ObjectRow
  find_source r (src_bucket, src_key) w = elim (find_bucket src_bucket w.buckets) [
    | none ↦ inl (404, "NoSuchBucket")
    | some b ↦ elim (find_object src_bucket src_key w.objects) [
      | none ↦ inl (404, "NoSuchKey")
      | some src ↦
          if not b.is_public && permission_denied r.auth src_bucket read_access
          then inl (403, "AccessDenied")
          else inr src
    ]
  ]

  dispatch_copy : ℕ → Bytes → Request → Text × Text → World → S3Error ⊎ ObjectRow → World × Reply
  unfolding copy_object upload_part_copy
  dispatch_copy now iv r source w (inl e) = (w, rejection e)
  dispatch_copy now iv r source w (inr src) = elim (part_target r) [
    | some (id, n) ↦ upload_part_copy now iv r id n src w
    | none ↦ copy_object now r source src w
  ]

  copy_sse_c_error : Headers → Option S3Error
  copy_sse_c_error h = elim (sse_c_error pf (validate_sse_c pf h false)) [
    | some e ↦ some e
    | none ↦ sse_c_error pf (validate_sse_c pf h true)
  ]

  unfoldable pub put_copy : ℕ → Bytes → Request → Text → World → World × Reply
  unfolding dispatch_copy copy_sse_c_error
  put_copy now iv r v w = elim (copy_source v) [
    | none ↦ (w, failed 400 "InvalidArgument")
    | some source ↦ elim (copy_sse_c_error r.headers) [
      | some e ↦ (w, rejection e)
      | none ↦ dispatch_copy now iv r source w (find_source r source w)
    ]
  ]
