-- ===== src/S3/Multipart/Joined.antt =====
-- What CompleteMultipartUpload leaves at its key.
use mathlib.Core.List.{Perm}
use r2storage.Prelude.{
  Bool-cases, List, Option, Option-cases, Text, [], inl, inr, length, none, refl, some, subst,
  text_eq_refl, ℕ, ◌∙◌, ◌∷◌, ◌≡◌,
}
use r2storage.Quota.{would_exceed_quota}
use r2storage.Range.Preconditions.{check_write_preconditions, header}
use r2storage.S3.{Reply, Request, failed, succeeded}
use r2storage.S3.Multipart.{
  XmlRead, assemble_upload, complete_body, complete_parts, complete_row, complete_selected,
  complete_upload, drop_upload, finish_complete, join_parts, part_list, select_parts, sort_parts,
  too_large, unreadable,
}
use r2storage.S3.Multipart.Listed.{
  IsConcat, IsSelection, find_upload-id, join_parts-IsConcat, select_parts-IsSelection,
}
use r2storage.S3.Multipart.Sorting.{IsAscending, sort_parts-IsAscending}
use r2storage.S3.Put.{precondition_error, version_of}
use r2storage.Storage.Blob.{GcmLaws, iv_len, maybe_encrypt}
use r2storage.Storage.Blob.RoundTrip.{stream_decrypt-maybe_encrypt}
use r2storage.Storage.Engine.{Platform, file_path, read_object, safe_bucket, save_object, saved_at}
use r2storage.Store.{
  Bytes, ObjectRow, PartRow, UploadRow, World, find_object, find_upload, parts_size, size_of,
  upsert_object, write_file,
}
use r2storage.Store.Laws.{
  find_object-upsert_object, find_upload-delete_upload, path_eq_refl, read_file-remove_upload_files,
  read_file-write_file,
}

module _ (pf : Platform) (boot_quota : ℕ) (now : ℕ) (iv : Bytes) (r : Request) (w : World) where
  -- The key has a row and a blob that reads as the plaintexts of the parts in an ascending order of
  -- their numbers; the row has its size, the reply its ETag, and the upload is gone.
  abbrev pub IsJoined : List PartRow → Text → Option Text → World → Type 0
  IsJoined parts id etag after =
      (ordered : List PartRow) × (bytes : Bytes) × (row : ObjectRow) × IsAscending ordered
      × Perm ordered parts
      × IsConcat pf w ordered bytes
      × (find_object r.bucket_name r.key after.objects ≡ some row)
      × (row.size ≡ length bytes)
      × (etag ≡ some row.etag)
      × (read_object pf row.storage_path after ≡ some bytes)
      × (find_upload id after.uploads ≡ none)

  -- From the parts that were selected on.
  abbrev pub IsCompletion : List PartRow → Text → World × Reply → Type 0
  IsCompletion parts id (after, failed status code) = after ≡ w
  IsCompletion parts id (after, succeeded status etag) = IsJoined parts id etag after

  -- What the body of the request lists was stored for the upload, and was joined.
  abbrev pub IsAssembled : Text → XmlRead → World × Reply → Type 0
  IsAssembled id xml (after, failed status code) = after ≡ w
  IsAssembled id xml (after, succeeded status etag) =
      (numbers : List ℕ) × (etags : List Text) × (parts : List PartRow) × (xml
        ≡ part_list numbers etags)
      × IsSelection id w.parts numbers etags parts
      × IsJoined parts id etag after

  -- The whole operation: nothing changes, or the upload that the request names existed and the parts
  -- that it lists were joined.
  abbrev pub IsAnswer : XmlRead → World × Reply → Type 0
  IsAnswer xml (after, failed status code) = after ≡ w
  IsAnswer xml (after, succeeded status etag) =
      (id : Text) × (upload : UploadRow) × (header r.query "uploadId" ≡ some id)
      × (find_upload id w.uploads ≡ some upload)
      × IsAssembled id xml (after, succeeded status etag)

  IsCompletion-IsAssembled :
      (id : Text) (numbers : List ℕ) (etags : List Text) (parts : List PartRow)
      (res : World × Reply)
      → select_parts id w.parts numbers etags ≡ some parts
      → IsCompletion parts id res
      → IsAssembled id (part_list numbers etags) res
  IsCompletion-IsAssembled id numbers etags parts (after, failed status code) e h = h
  IsCompletion-IsAssembled id numbers etags parts (after, succeeded status etag) e h =
      (numbers, etags, parts, refl, select_parts-IsSelection id w.parts numbers etags parts e, h)

  IsAssembled-IsAnswer :
      (id : Text) (upload : UploadRow) (xml : XmlRead) (res : World × Reply)
      → header r.query "uploadId" ≡ some id
      → find_upload id w.uploads ≡ some upload
      → IsAssembled id xml res
      → IsAnswer xml res
  IsAssembled-IsAnswer id upload xml (after, failed status code) e e' h = h
  IsAssembled-IsAnswer id upload xml (after, succeeded status etag) e e' h = (id, upload, e, e', h)

  module _ (laws : GcmLaws pf.gcm) (hi : length iv ≡ iv_len) where
    joined :
        (upload : UploadRow) (parts : List PartRow) (bytes : Bytes)
        → join_parts pf boot_quota (sort_parts parts) w ≡ some bytes
        → let (after, saved) = save_object pf r.bucket_name r.key iv bytes w in
          IsJoined parts upload.upload_id (some saved.etag) (
            drop_upload pf boot_quota upload.upload_id (record after {
              objects = upsert_object (complete_row pf boot_quota now r upload saved) after.objects;
            }))
    unfolding drop_upload complete_row save_object saved_at file_path read_object
    joined upload parts bytes e =
        let p = file_path pf r.bucket_name r.key in
        let saved = saved_at pf p bytes in
        let row = complete_row pf boot_quota now r upload saved in
        let stored = maybe_encrypt pf.gcm pf.enc_key iv bytes in
        (
          sort_parts parts,
          bytes,
          row,
          (sort_parts-IsAscending parts).0,
          (sort_parts-IsAscending parts).1,
          join_parts-IsConcat pf boot_quota w (sort_parts parts) bytes e,
          find_object-upsert_object row r.bucket_name r.key w.objects
              ∙ rw (text_eq_refl r.bucket_name, text_eq_refl r.key) refl,
          refl,
          refl,
          rw
              (
                read_file-remove_upload_files upload.upload_id (safe_bucket r.bucket_name)
                    (pf.sha256_hex r.key) (write_file p stored w.files),
                read_file-write_file p p stored w.files,
                path_eq_refl p,
                read_object,
              )
              (stream_decrypt-maybe_encrypt pf.gcm laws pf.enc_key iv bytes hi),
          find_upload-delete_upload upload.upload_id w.uploads,
        )

    complete_parts-IsCompletion :
        (upload : UploadRow) (parts : List PartRow)
        → IsCompletion parts upload.upload_id (complete_parts pf boot_quota now iv r upload parts w)
    unfolding complete_parts finish_complete assemble_upload
    complete_parts-IsCompletion upload parts =
        let dest = find_object r.bucket_name r.key w.objects in
        elim (Option-cases (
          precondition_error
            (check_write_preconditions pf.date_parse r.headers (version_of dest)))) [
              | inr ((status, code), bad) ↦ rw (bad, complete_parts) refl
              | inl good ↦
                  elim (Bool-cases
                    (would_exceed_quota boot_quota (parts_size parts) (size_of dest) w)) [
                      | inl over ↦ rw (good, over, complete_parts) refl
                      | inr fits ↦
                          elim (Option-cases (join_parts pf boot_quota (sort_parts parts) w)) [
                            | inl lost ↦ rw (good, fits, lost, complete_parts, assemble_upload) refl
                            | inr (bytes, e) ↦
                                rw (good, fits, e, complete_parts, assemble_upload)
                                  (joined upload parts bytes e)
                          ]
                    ]
            ]

    complete_body-IsAssembled :
        (upload : UploadRow) (xml : XmlRead)
        → IsAssembled upload.upload_id xml (complete_body pf boot_quota now iv r upload xml w)
    unfolding complete_body complete_selected
    complete_body-IsAssembled upload too_large = refl
    complete_body-IsAssembled upload unreadable = refl
    complete_body-IsAssembled upload (part_list numbers etags) =
        selected upload numbers etags (select_parts upload.upload_id w.parts numbers etags) refl
      where
        selected :
            (u : UploadRow) (ns : List ℕ) (es : List Text) (o : Option (List PartRow))
            → select_parts u.upload_id w.parts ns es ≡ o
            → IsAssembled u.upload_id
                (part_list ns es)
                (complete_selected pf boot_quota now iv r u o w)
        selected u ns es none e = refl
        selected u ns es (some []) e = refl
        selected u ns es (some (p ∷ ps)) e =
            IsCompletion-IsAssembled u.upload_id ns es (p ∷ ps) _ e
              (complete_parts-IsCompletion u (p ∷ ps))

    -- For a cipher with the documented laws and an IV of 12 bytes: a CompleteMultipartUpload either
    -- fails and changes nothing, or its uploadId names an upload, each number that its body lists
    -- is a stored part of that upload whose ETag is the listed one (empty where none is listed),
    -- and the plaintexts of these parts, joined in an ascending order of their numbers with none
    -- lost or doubled, are what the key's blob reads as afterwards; the row has its size, the reply
    -- the row's ETag, and the upload is gone.
    pub complete_upload-IsAnswer :
        (xml : XmlRead) → IsAnswer xml (complete_upload pf boot_quota now iv r xml w)
    unfolding complete_upload
    complete_upload-IsAnswer xml = elim (Option-cases (header r.query "uploadId")) [
      | inl absent ↦ rw (absent, complete_upload) refl
      | inr (id, given) ↦ elim (Option-cases (find_upload id w.uploads)) [
        | inl unknown ↦ rw (given, unknown, complete_upload) refl
        | inr (upload, found) ↦
            rw (given, found, complete_upload)
              (IsAssembled-IsAnswer id upload xml _ given found (
                subst
                  (λ name. IsAssembled name xml (complete_body pf boot_quota now iv r upload xml w))
                  (find_upload-id id w.uploads upload found)
                  (complete_body-IsAssembled upload xml)))
      ]
    ]
