-- ===== src/S3/Multipart.antt =====
-- backend/src/api/s3.ts: CreateMultipartUpload, CompleteMultipartUpload and AbortMultipartUpload.
-- The part list of a completion is what the two regular expressions read from its XML body: the
-- numbers and the ETags, each in order. The upload id of a creation is given (randomUUID).
pub mod Complete
pub mod Listed
pub mod Joined
pub mod Sorting
pub mod Scope
use r2storage.Prelude.{
  List, Option, Text, [], drop, false, get_elem?, get_or_else, if◌then◌else◌, leb, none, some,
  text_eq, ℕ, ◌++◌, ◌∷◌,
}
use r2storage.Quota.{would_exceed_quota}
use r2storage.Range.Preconditions.{check_write_preconditions, header}
use r2storage.S3.{
  Reply, Request, denied_reply, failed, has_query, permission_denied, refuses, rejection, succeeded,
  write_access,
}
use r2storage.S3.Checks.{sse_c_error, validate_sse_c}
use r2storage.S3.Put.{content_type_of, header_tags, precondition_error, quota_reply, version_of}
use r2storage.S3.Tagging.{extract_metadata, serialize_metadata}
use r2storage.Storage.Engine.{Platform, Saved, read_buffer, save_object}
use r2storage.Store.{
  Bytes, ObjectRow, PartRow, UploadRow, World, delete_parts, delete_upload, find_bucket,
  find_object, find_part, find_upload, parts_size, remove_upload_files, size_of, upsert_object,
}

-- What reading a body that is capped at 1 MB gives.
pub data XmlRead : Type 0 where
  too_large unreadable : XmlRead
  part_list : List ℕ → List Text → XmlRead

unfoldable pub insert_part : PartRow → List PartRow → List PartRow
insert_part p [] = p ∷ []
insert_part p (q ∷ qs) =
    if leb p.part_number q.part_number then p ∷ q ∷ qs else q ∷ insert_part p qs

-- `[...parts].sort((a, b) => a.partNumber - b.partNumber)`, which is stable.
unfoldable pub sort_parts : List PartRow → List PartRow
unfolding insert_part
sort_parts [] = []
sort_parts (p ∷ ps) = insert_part p (sort_parts ps)

-- The stored part of each number of the list, if each has the ETag that stands at its place.
unfoldable pub select_parts : Text → List PartRow → List ℕ → List Text → Option (List PartRow)
select_parts id stored [] etags = some []
select_parts id stored (n ∷ ns) etags = elim (find_part id n stored) [
  | none ↦ none
  | some p ↦
      if text_eq p.etag (get_or_else (get_elem? etags 0) [])
      then elim (select_parts id stored ns (drop 1 etags)) [ none ↦ none | some ps ↦ some (p ∷ ps) ]
      else none
]

module _ (pf : Platform) (boot_quota : ℕ) where
  unfoldable pub create_upload : ℕ → Text → Request → World → World × Reply
  create_upload now id r w = elim (header_tags pf boot_quota r.headers) [
    | none ↦ (w, failed 400 "InvalidTag")
    | some tags ↦ elim (sse_c_error pf (validate_sse_c pf r.headers false)) [
      | some e ↦ (w, rejection e)
      | none ↦ (
        record w {
          uploads =
              record {
                upload_id = id;
                bucket_name = r.bucket_name;
                key = r.key;
                content_type = content_type_of pf boot_quota r;
                metadata = serialize_metadata (extract_metadata r.headers);
                tags = tags;
                created_at = now;
              }
              ∷ w.uploads;
        },
        succeeded 200 none,
      )
    ]
  ]

  -- The plaintexts of the parts one after another; a missing or unreadable part is an exception.
  unfoldable pub join_parts : List PartRow → World → Option Bytes
  join_parts [] w = some []
  join_parts (p ∷ ps) w = elim (read_buffer pf p.storage_path w) [
    | none ↦ none
    | some b ↦ elim (join_parts ps w) [ none ↦ none | some bs ↦ some (b ++ bs) ]
  ]

  -- assembleUpload: the parts in the order of their numbers, written like a PUT of the key.
  unfoldable pub assemble_upload :
      Text → Text → Bytes → List PartRow → World → Option (World × Saved)
  unfolding join_parts
  assemble_upload bucket k iv parts w = elim (join_parts (sort_parts parts) w) [
    | none ↦ none
    | some bytes ↦ some (save_object pf bucket k iv bytes w)
  ]

  unfoldable pub complete_row : ℕ → Request → UploadRow → Saved → ObjectRow
  complete_row now r upload saved = record {
    bucket_name = r.bucket_name;
    key = r.key;
    size = saved.size;
    content_type = upload.content_type;
    etag = saved.etag;
    storage_path = saved.storage_path;
    metadata = upload.metadata;
    tags = upload.tags;
    checksum_crc32 = some saved.crc32;
    updated_at = now;
  }

  -- The upload's row with its parts' rows, and the directory of its parts, are gone afterwards.
  unfoldable pub drop_upload : Text → World → World
  drop_upload id w = record w {
    uploads = delete_upload id w.uploads;
    parts = delete_parts id w.parts;
    files = remove_upload_files id w.files;
  }

  unfoldable pub finish_complete :
      ℕ → Request → UploadRow → Option (World × Saved) → World → World × Reply
  finish_complete now r upload none w = (w, failed 500 "InternalError")
  finish_complete now r upload (some (w', saved)) w = (
    drop_upload upload.upload_id
        (record w' { objects = upsert_object (complete_row now r upload saved) w'.objects }),
    succeeded 200 (some saved.etag),
  )

  -- From the selected parts on.
  unfoldable pub complete_parts :
      ℕ → Bytes → Request → UploadRow → List PartRow → World → World × Reply
  unfolding finish_complete
  complete_parts now iv r upload parts w =
      let existing = find_object r.bucket_name r.key w.objects in
      elim (precondition_error
        (check_write_preconditions pf.date_parse r.headers (version_of existing))) [
          | some e ↦ (w, rejection e)
          | none ↦
              if would_exceed_quota boot_quota (parts_size parts) (size_of existing) w
              then (w, quota_reply)
              else finish_complete now r upload (assemble_upload r.bucket_name r.key iv parts w) w
        ]

  complete_selected :
      ℕ → Bytes → Request → UploadRow → Option (List PartRow) → World → World × Reply
  unfolding complete_parts
  complete_selected now iv r upload none w = (w, failed 400 "InvalidPart")
  complete_selected now iv r upload (some []) w = (w, failed 400 "InvalidPartOrder")
  complete_selected now iv r upload (some (p ∷ ps)) w = complete_parts now iv r upload (p ∷ ps) w

  complete_body : ℕ → Bytes → Request → UploadRow → XmlRead → World → World × Reply
  unfolding complete_selected
  complete_body now iv r upload too_large w = (w, failed 413 "EntityTooLarge")
  complete_body now iv r upload unreadable w = (w, failed 500 "InternalError")
  complete_body now iv r upload (part_list numbers etags) w =
      complete_selected now iv r upload (select_parts upload.upload_id w.parts numbers etags) w

  unfoldable pub complete_upload : ℕ → Bytes → Request → XmlRead → World → World × Reply
  unfolding complete_body
  complete_upload now iv r xml w = elim (header r.query "uploadId") [
    | none ↦ (w, failed 400 "InvalidRequest")
    | some id ↦ elim (find_upload id w.uploads) [
      | none ↦ (w, failed 404 "NoSuchUpload")
      | some upload ↦ complete_body now iv r upload xml w
    ]
  ]

  -- POST /s3/:bucket/*
  unfoldable pub post_object : ℕ → Bytes → Text → Request → XmlRead → World → World × Reply
  unfolding create_upload complete_upload
  post_object now iv id r xml w = elim (find_bucket r.bucket_name w.buckets) [
    | none ↦ (w, failed 404 "NoSuchBucket")
    | some _ ↦
        if refuses r write_access
        then (w, denied_reply)
        else if has_query r "uploads"
        then create_upload now id r w
        else complete_upload now iv r xml w
  ]

  -- The ?uploadId branch of DELETE /s3/:bucket/*.
  unfoldable pub abort_upload : Request → Text → World → World × Reply
  unfolding drop_upload
  abort_upload r id w =
      if permission_denied r.auth r.bucket_name write_access
      then (w, denied_reply)
      else elim (find_upload id w.uploads) [
        | none ↦ (w, failed 404 "NoSuchUpload")
        | some _ ↦ (drop_upload id w, succeeded 204 none)
      ]
