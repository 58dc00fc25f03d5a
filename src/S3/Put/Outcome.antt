-- ===== src/S3/Put/Outcome.antt =====
-- The ways a PutObject can end.
use r2storage.Prelude.{
  Bool-cases, Option, Option-cases, String, Text, false, inl, inr, length, none, refl, some, ℕ, ◌≡◌,
}
use r2storage.Quota.{would_exceed_quota}
use r2storage.Range.Preconditions.{check_write_preconditions}
use r2storage.S3.{
  BodyRead, ChunkCode, Reply, Request, broken, chunk_error_reply, failed, invalid_request, refused,
  signature_does_not_match, stream_error_reply, succeeded, whole,
}
use r2storage.S3.Checks.{integrity_error}
use r2storage.S3.Put.{
  declared_too_long, finish_put, header_tags, precondition_error, put_row, store_object, version_of,
  write_put,
}
use r2storage.Storage.Engine.{
  Platform, Saved, delete_object_file, etag_of, file_path, save_object, saved_at, write_blob,
}
use r2storage.Store.{Bytes, FilePath, ObjectRow, Tags, World, find_object, size_of, upsert_object}

module _ (pf : Platform) (boot_quota : ℕ) where
  abbrev pub put_path : Request → FilePath
  put_path r = file_path pf r.bucket_name r.key

  abbrev pub put_saved : Request → Bytes → Saved
  put_saved r bytes = saved_at pf (put_path r) bytes

  abbrev pub blob_written : Bytes → Request → Bytes → World → World
  blob_written iv r bytes w = write_blob pf (put_path r) iv bytes w

  abbrev pub row_stored : ℕ → Bytes → Request → Bytes → Option Tags → World → World
  row_stored now iv r bytes tags w = record (blob_written iv r bytes w) {
    objects = upsert_object (put_row pf boot_quota now r tags (put_saved r bytes)) w.objects;
  }

  -- Either a failure, which leaves every table as it was and at most the file of the key deleted, or
  -- a success, which writes the blob and the row of the key and nothing else.
  pub data PutOutcome (now : ℕ) (iv : Bytes) (r : Request) (w : World) (res : World × Reply)
      : Type 0 where
    refused_put :
        (status : ℕ) (code : String) → res ≡ (w, failed status code) → PutOutcome now iv r w res
    cleaned_put :
        (bytes : Bytes) (trailer : Option Text) (status : ℕ) (code : String)
        → r.body ≡ whole bytes trailer
        → res ≡ (delete_object_file pf (put_path r) (blob_written iv r bytes w), failed status code)
        → PutOutcome now iv r w res
    stored_put :
        (bytes : Bytes) (trailer : Option Text) (tags : Option Tags)
        → r.body ≡ whole bytes trailer
        → would_exceed_quota boot_quota
            (length bytes)
            (size_of (find_object r.bucket_name r.key w.objects))
            w
          ≡ false
        → integrity_error pf r.headers trailer (put_saved r bytes) ≡ none
        → res ≡ (row_stored now iv r bytes tags w, succeeded 200 (some (etag_of pf bytes)))
        → PutOutcome now iv r w res

  module _ (now : ℕ) (iv : Bytes) (r : Request) (w : World) where
    abbrev existing : Option ObjectRow
    existing = find_object r.bucket_name r.key w.objects

    finish_put-PutOutcome :
        (bytes : Bytes) (trailer : Option Text)
        → r.body ≡ whole bytes trailer
        → PutOutcome now iv r w (
            finish_put pf boot_quota now r trailer existing
              (save_object pf r.bucket_name r.key iv bytes w))
    unfolding finish_put save_object saved_at would_exceed_quota
    finish_put-PutOutcome bytes trailer e =
        elim (Option-cases (integrity_error pf r.headers trailer (put_saved r bytes))) [
          | inr ((status, code), bad) ↦
              cleaned_put bytes trailer status code e (rw (bad, finish_put))
          | inl good ↦ elim (Option-cases (header_tags pf boot_quota r.headers)) [
            | inl absent ↦
                cleaned_put bytes trailer 400 "InvalidTag" e (rw (good, absent, finish_put))
            | inr (tags, parsed) ↦
                elim (Bool-cases
                  (would_exceed_quota boot_quota (length bytes) (size_of existing) w)) [
                    | inl over ↦
                        cleaned_put bytes trailer 507 "InsufficientStorage" e
                          (rw (good, parsed, over, finish_put))
                    | inr fits ↦
                        stored_put bytes trailer tags e fits good
                          (rw (good, parsed, fits, finish_put))
                  ]
          ]
        ]

    chunk_error_reply-PutOutcome : (c : ChunkCode) → PutOutcome now iv r w (w, chunk_error_reply c)
    unfolding chunk_error_reply
    chunk_error_reply-PutOutcome signature_does_not_match = refused_put _ _ refl
    chunk_error_reply-PutOutcome invalid_request = refused_put _ _ refl

    write_put-PutOutcome :
        (b : BodyRead)
        → r.body ≡ b
        → PutOutcome now iv r w (write_put pf boot_quota now iv r existing w b)
    unfolding write_put stream_error_reply
    write_put-PutOutcome (refused c) e = chunk_error_reply-PutOutcome c
    write_put-PutOutcome (broken none) e = refused_put _ _ refl
    write_put-PutOutcome (broken (some c)) e = chunk_error_reply-PutOutcome c
    write_put-PutOutcome (whole bytes trailer) e = finish_put-PutOutcome bytes trailer e

    -- Every PutObject ends in one of three ways: with an error that leaves every table and file as it
    -- was; with an error after the blob was written, which leaves every table as it was and deletes the
    -- file of the key; or with success, where the payload passed the quota and the integrity checks and
    -- the blob and the row of the key are written and nothing else.
    pub store_object-PutOutcome : PutOutcome now iv r w (store_object pf boot_quota now iv r w)
    unfolding store_object
    store_object-PutOutcome =
        elim (Option-cases (
          precondition_error
            (check_write_preconditions pf.date_parse r.headers (version_of existing)))) [
              | inr ((status, code), bad) ↦ refused_put status code (rw (bad, store_object))
              | inl good ↦ elim (Bool-cases (declared_too_long pf boot_quota r existing w)) [
                | inl over ↦ refused_put 507 "InsufficientStorage" (rw (good, over, store_object))
                | inr fits ↦ rw (good, fits, store_object) (write_put-PutOutcome r.body refl)
              ]
            ]
