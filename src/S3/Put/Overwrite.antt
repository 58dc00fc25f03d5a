-- ===== src/S3/Put/Overwrite.antt =====
-- What PutObject does to the object of its key.
use r2storage.Prelude.{
  Option, Text, ap, false, length, none, refl, some, subst, sym, text_eq, text_eq_refl, ℕ, ◌&&◌,
  ◌∙◌, ◌≡◌,
}
use r2storage.Range.Preconditions.{check_write_preconditions}
use r2storage.S3.{Reply, Request, S3Error, rejection, succeeded, whole}
use r2storage.S3.Checks.{integrity_error}
use r2storage.S3.Put.{
  declared_too_long, finish_put, precondition_error, put_row, store_object, version_of, write_put,
}
use r2storage.S3.Put.Outcome.{
  PutOutcome, cleaned_put, put_path, put_saved, refused_put, row_stored, store_object-PutOutcome,
  stored_put,
}
use r2storage.Storage.Blob.{GcmLaws, iv_len, maybe_encrypt}
use r2storage.Storage.Blob.RoundTrip.{stream_decrypt-maybe_encrypt}
use r2storage.Storage.Engine.{
  Platform, delete_object_file, file_path, read_object, save_object, saved_at,
}
use r2storage.Store.{Bytes, FilePath, ObjectRow, World, find_object, read_file, write_file}
use r2storage.Store.Laws.{
  find_object-upsert_object, path_eq_refl, read_file-remove_file_self, read_file-write_file,
}

module _ (pf : Platform) (boot_quota : ℕ) (now : ℕ) (iv : Bytes) (r : Request) (w : World) where
  read_written :
      (laws : GcmLaws pf.gcm) (p : FilePath) (bytes : Bytes) (v : World)
      → length iv ≡ iv_len
      → v.files ≡ write_file p (maybe_encrypt pf.gcm pf.enc_key iv bytes) w.files
      → read_object pf p v ≡ some bytes
  unfolding read_object
  read_written laws p bytes v hi e =
      rw
        (
          e,
          read_file-write_file p p (maybe_encrypt pf.gcm pf.enc_key iv bytes) w.files,
          path_eq_refl p,
          read_object,
        )
        (stream_decrypt-maybe_encrypt pf.gcm laws pf.enc_key iv bytes hi)

  -- The payload of the request is what the key's row describes and its blob reads as, and the rows
  -- of all other keys are those of the world before.
  pub record IsStored (w' : World) (etag : Option Text) : Type 0 where
    pub bytes : Bytes
    pub trailer : Option Text
    pub row : ObjectRow
    pub received : r.body ≡ whole bytes trailer
    pub listed : find_object r.bucket_name r.key w'.objects ≡ some row
    pub sized : row.size ≡ length bytes
    pub reported : etag ≡ some row.etag
    pub readable : read_object pf row.storage_path w' ≡ some bytes
    pub others :
        (b k : Text)
        → (text_eq r.bucket_name b && text_eq r.key k) ≡ false
        → find_object b k w'.objects ≡ find_object b k w.objects

  outcome-read_object :
      (res : World × Reply) (w' : World) (status : ℕ) (etag : Option Text)
      → GcmLaws pf.gcm
      → length iv ≡ iv_len
      → PutOutcome pf boot_quota now iv r w res
      → res ≡ (w', succeeded status etag)
      → IsStored w' etag
  unfolding put_row saved_at
  outcome-read_object res w' status etag laws hi (refused_put s c q) e = cc
  outcome-read_object res w' status etag laws hi (cleaned_put b t s c eb q) e = cc
  outcome-read_object res w' status etag laws hi (stored_put b t tags eb fits good q) e =
      let row = put_row pf boot_quota now r tags (put_saved pf boot_quota r b) in
      let same : row_stored pf boot_quota now iv r b tags w ≡ w' = ap (λ x. x.0) (sym q ∙ e) in
      subst (λ v. IsStored v etag) same
        (record {
          bytes = b;
          trailer = t;
          row = row;
          received = eb;
          listed =
              find_object-upsert_object row r.bucket_name r.key w.objects
              ∙ rw (text_eq_refl r.bucket_name, text_eq_refl r.key) refl;
          sized = refl;
          reported = cc;
          readable = read_written laws (put_path pf boot_quota r) b _ hi refl;
          others = λ b' k h. find_object-upsert_object row b' k w.objects ∙ rw h refl;
        })

  -- A PutObject that succeeds has stored its payload: the key's row reports the size and the reply's
  -- ETag, and reading its blob gives the payload; the rows of all other keys are as before.
  pub store_object-read_object :
      (w' : World) (status : ℕ) (etag : Option Text)
      → GcmLaws pf.gcm
      → length iv ≡ iv_len
      → store_object pf boot_quota now iv r w ≡ (w', succeeded status etag)
      → IsStored w' etag
  store_object-read_object w' status etag laws hi e =
      outcome-read_object _ w' status etag laws hi
        (store_object-PutOutcome pf boot_quota now iv r w) e

  -- A PutObject onto an existing object whose payload then fails its Content-MD5, CRC-32 or trailer
  -- check is answered with that error, but leaves the old row pointing to a deleted file: the
  -- existing object's blob is lost.
  pub store_object_loses_blob :
      (old : ObjectRow) (bytes : Bytes) (trailer : Option Text) (error : S3Error)
      → find_object r.bucket_name r.key w.objects ≡ some old
      → old.storage_path ≡ file_path pf r.bucket_name r.key
      → precondition_error (
          check_write_preconditions pf.date_parse r.headers
            (version_of (find_object r.bucket_name r.key w.objects)))
        ≡ none
      → declared_too_long pf boot_quota r (find_object r.bucket_name r.key w.objects) w ≡ false
      → r.body ≡ whole bytes trailer
      → integrity_error pf r.headers trailer (saved_at pf (file_path pf r.bucket_name r.key) bytes)
        ≡ some error
      → let res = store_object pf boot_quota now iv r w in
        (res.1 ≡ rejection error)
        × (find_object r.bucket_name r.key res.0.objects ≡ some old)
        × (read_file old.storage_path res.0.files ≡ none)
  unfolding store_object write_put finish_put save_object delete_object_file
  store_object_loses_blob old bytes trailer error ho hp hc hd hb hi =
      rw (hc, hd, hb, hi, store_object, write_put, finish_put)
        (
          refl,
          ho,
          subst
              (λ p.
                read_file p
                  (delete_object_file pf (file_path pf r.bucket_name r.key)
                    (save_object pf r.bucket_name r.key iv bytes w).0).files
                ≡ none)
              (sym hp)
              (read_file-remove_file_self (file_path pf r.bucket_name r.key)
                (save_object pf r.bucket_name r.key iv bytes w).0.files),
        )
