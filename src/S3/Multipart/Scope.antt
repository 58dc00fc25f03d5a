-- ===== src/S3/Multipart/Scope.antt =====
-- Who may abort an upload.
use r2storage.Prelude.{[], false, none, refl, some, true, ℕ, ◌≡◌}
use r2storage.S3.{Request, permission_denied, succeeded, write_access}
use r2storage.S3.Multipart.{abort_upload, drop_upload}
use r2storage.Storage.Engine.{Platform}
use r2storage.Store.{UploadRow, World, find_upload, parts_of}
use r2storage.Store.Laws.{find_upload-delete_upload, parts_of-delete_parts}

module _ (pf : Platform) (boot_quota : ℕ) where
  -- An abort is authorised against the bucket of its URL alone: a principal that may write that bucket,
  -- and may not write the bucket of the upload with the given id, aborts that upload all the same. Its
  -- row is gone afterwards and so are the rows of its parts.
  pub abort_upload_ignores_owner :
      (r : Request) (w : World) (upload : UploadRow)
      → permission_denied r.auth r.bucket_name write_access ≡ false
      → permission_denied r.auth upload.bucket_name write_access ≡ true
      → find_upload upload.upload_id w.uploads ≡ some upload
      → let (after, reply) = abort_upload pf boot_quota r upload.upload_id w in
        (reply ≡ succeeded 204 none)
        × (find_upload upload.upload_id after.uploads ≡ none)
        × (parts_of upload.upload_id after.parts ≡ [])
  unfolding abort_upload drop_upload
  abort_upload_ignores_owner r w upload allowed denied found =
      rw (allowed, found, abort_upload)
        (
          refl,
          find_upload-delete_upload upload.upload_id w.uploads,
          parts_of-delete_parts upload.upload_id w.parts,
        )
