-- ===== src/S3/Put.antt =====
-- backend/src/api/s3.ts: PUT of an object, of a part of an upload, and of an object's tags. `now` is
-- the clock of the row's `updatedAt`, `iv` the random IV of the write.
pub mod Quota
pub mod Outcome
pub mod Overwrite
use r2storage.Prelude.{
  Bool, Option, Text, codes, false, get_or_else, if◌then◌else◌, none, not, some, ℕ, ◌&&◌, ◌+◌, ◌-◌,
  ◌==◌,
}
use r2storage.Quota.{would_exceed_quota}
use r2storage.Range.Preconditions.{
  Headers, Version, WritePrecondition, check_write_preconditions, conflict, header, ok,
  precondition_failed, raw_header,
}
use r2storage.S3.{
  BodyRead, Reply, Request, S3Error, broken, chunk_error_reply, declared_length, failed,
  part_target, refused, rejection, stream_error_reply, succeeded, whole,
}
use r2storage.S3.Checks.{integrity_error, sse_c_error, validate_sse_c}
use r2storage.S3.Tagging.{
  extract_metadata, parse_tagging_header, serialize_metadata, serialize_tags,
}
use r2storage.Storage.Engine.{
  Platform, Saved, abort_part, delete_object_file, save_object, save_part,
}
use r2storage.Store.{
  Bytes, ObjectRow, PartRow, Tags, World, find_object, find_part, find_upload, part_size_of,
  parts_of, parts_size, size_of, upsert_object, upsert_part,
}

abbrev pub version_of : Option ObjectRow → Option Version
version_of none = none
version_of (some r) = some (record { etag = r.etag; updated_at = r.updated_at })

-- The 412 and 409 replies to a failed write precondition.
unfoldable pub precondition_error : WritePrecondition → Option S3Error
precondition_error ok = none
precondition_error precondition_failed = some (412, "PreconditionFailed")
precondition_error conflict = some (409, "ConditionalRequestConflict")

abbrev pub quota_reply : Reply
quota_reply = failed 507 "InsufficientStorage"

module _ (pf : Platform) (boot_quota : ℕ) where
  -- The x-amz-tagging header: absent, or parsed.
  unfoldable pub header_tags : Headers → Option (Option Tags)
  header_tags h = elim (raw_header h "x-amz-tagging") [
    | none ↦ some none
    | some v ↦ elim (parse_tagging_header pf.decode_uri v) [
      | none ↦ none
      | some tags ↦ some (serialize_tags tags)
    ]
  ]

  unfoldable pub content_type_of : Request → Text
  content_type_of r =
      get_or_else (header r.headers "content-type")
        (get_or_else (pf.mime_type r.key) (codes "application/octet-stream"))

  -- The row that a successful PutObject stores.
  unfoldable pub put_row : ℕ → Request → Option Tags → Saved → ObjectRow
  unfolding content_type_of
  put_row now r tags saved = record {
    bucket_name = r.bucket_name;
    key = r.key;
    size = saved.size;
    content_type = content_type_of r;
    etag = saved.etag;
    storage_path = saved.storage_path;
    metadata = serialize_metadata (extract_metadata r.headers);
    tags = tags;
    checksum_crc32 = some saved.crc32;
    updated_at = now;
  }

  -- After the blob has been written: every refusal deletes the file that was just written.
  unfoldable pub finish_put :
      ℕ → Request → Option Text → Option ObjectRow → World × Saved → World × Reply
  finish_put now r trailer existing (w, saved) =
      let cleaned = delete_object_file pf saved.storage_path w in
      elim (integrity_error pf r.headers trailer saved) [
        | some e ↦ (cleaned, rejection e)
        | none ↦ elim (header_tags r.headers) [
          | none ↦ (cleaned, failed 400 "InvalidTag")
          | some tags ↦
              if would_exceed_quota boot_quota saved.size (size_of existing) w
              then (cleaned, quota_reply)
              else (
                record w { objects = upsert_object (put_row now r tags saved) w.objects },
                succeeded 200 (some saved.etag),
              )
        ]
      ]

  unfoldable pub write_put :
      ℕ → Bytes → Request → Option ObjectRow → World → BodyRead → World × Reply
  unfolding finish_put
  write_put now iv r existing w (refused c) = (w, chunk_error_reply c)
  write_put now iv r existing w (broken e) = (w, stream_error_reply e)
  write_put now iv r existing w (whole bytes trailer) =
      finish_put now r trailer existing (save_object pf r.bucket_name r.key iv bytes w)

  -- The early reject of a declared length.
  unfoldable pub declared_too_long : Request → Option ObjectRow → World → Bool
  declared_too_long r existing w =
      not (declared_length r.headers == 0)
      && would_exceed_quota boot_quota (declared_length r.headers) (size_of existing) w

  -- PutObject proper.
  unfoldable pub store_object : ℕ → Bytes → Request → World → World × Reply
  unfolding write_put declared_too_long
  store_object now iv r w =
      let existing = find_object r.bucket_name r.key w.objects in
      elim (precondition_error
        (check_write_preconditions pf.date_parse r.headers (version_of existing))) [
          | some e ↦ (w, rejection e)
          | none ↦
              if declared_too_long r existing w
              then (w, quota_reply)
              else write_put now iv r existing w r.body
        ]

  part_row : ℕ → Text → ℕ → Saved → PartRow
  part_row now id n saved = record {
    upload_id = id;
    part_number = n;
    etag = saved.etag;
    size = saved.size;
    storage_path = saved.storage_path;
    created_at = now;
  }

  unfoldable pub finish_part : ℕ → Request → Option Text → Text → ℕ → World × Saved → World × Reply
  unfolding part_row
  finish_part now r trailer id n (w, saved) =
      let cleaned = delete_object_file pf saved.storage_path w in
      if would_exceed_quota boot_quota saved.size (part_size_of (find_part id n w.parts)) w
      then (cleaned, quota_reply)
      else elim (integrity_error pf r.headers trailer saved) [
        | some e ↦ (cleaned, rejection e)
        | none ↦ (
          record w { parts = upsert_part (part_row now id n saved) w.parts },
          succeeded 200 (some saved.etag),
        )
      ]

  write_part : ℕ → Bytes → Request → Text → ℕ → World → BodyRead → World × Reply
  unfolding finish_part
  write_part now iv r id n w (refused c) = (w, chunk_error_reply c)
  write_part now iv r id n w (broken e) = (abort_part pf id n w, stream_error_reply e)
  write_part now iv r id n w (whole bytes trailer) =
      finish_part now r trailer id n (save_part pf id n iv bytes w)

  -- `partsSum - existing + length > 0 && wouldExceedQuota(...)`; a part's size is in the sum.
  unfoldable pub part_too_long : Text → ℕ → ℕ → World → Bool
  part_too_long id n added w =
      let total =
        parts_size (parts_of id w.parts) - part_size_of (find_part id n w.parts) + added in
      not (total == 0) && would_exceed_quota boot_quota total 0 w

  unfoldable pub upload_part : ℕ → Bytes → Request → Text → ℕ → World → World × Reply
  unfolding write_part part_too_long
  upload_part now iv r id n w = elim (find_upload id w.uploads) [
    | none ↦ (w, failed 404 "NoSuchUpload")
    | some _ ↦
        if part_too_long id n (declared_length r.headers) w
        then (w, quota_reply)
        else write_part now iv r id n w r.body
  ]

  -- The part of the route below the checks of the principal, without tagging and copies.
  unfoldable pub put_payload : ℕ → Bytes → Request → World → World × Reply
  unfolding upload_part store_object
  put_payload now iv r w = elim (sse_c_error pf (validate_sse_c pf r.headers false)) [
    | some e ↦ (w, rejection e)
    | none ↦ elim (part_target r) [
      | some (id, n) ↦ upload_part now iv r id n w
      | none ↦ store_object now iv r w
    ]
  ]
