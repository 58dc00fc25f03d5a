-- ===== src/Admin/Buckets/Leftovers.antt =====
-- backend/src/api/admin.ts: what uploads and deletions of the dashboard leave as it was.
use r2storage.Admin.{AdminState}
use r2storage.Admin.Buckets.{delete_bucket, delete_files, upload_object, uploaded_row}
use r2storage.Prelude.{
  Bool, Bool-cases, List, Option, Option-cases, Text, [], any, ap, arith, codes, false, filter,
  get_or_else, if◌then◌else◌, inl, inr, length, none, not, refl, some, some_inj, subst, sym,
  text_eq, text_eq_iff, text_eq_refl, true, ℕ, ◌&&◌, ◌∙◌, ◌∷◌, ◌≡◌,
}
use r2storage.Quota.{would_exceed_quota}
use r2storage.Quota.Invariant.{UnderQuota, upsert_object-UnderQuota}
use r2storage.Storage.Blob.{GcmLaws, iv_len, maybe_encrypt}
use r2storage.Storage.Blob.RoundTrip.{stream_decrypt-maybe_encrypt}
use r2storage.Storage.Engine.{
  Platform, Saved, etag_of, file_path, read_object, save_object, saved_at,
}
use r2storage.Store.{
  Bucket, Bytes, FilePath, ObjectRow, World, find_bucket, find_object, is_object, path_eq,
  read_file, remove_file, size_of, upsert_object, write_file,
}
use r2storage.Store.Laws.{
  find_object-some, find_object-upsert_object, path_eq_refl, read_file-remove_file,
  read_file-remove_file_self, read_file-write_file,
}

module _ (pf : Platform) (boot_quota : ℕ) where
  uploaded_row-key :
      (now : ℕ) (name k mimetype : Text) (saved : Saved) (rows : List ObjectRow)
      (found : Option ObjectRow)
      → find_object name k rows ≡ found
      → let row = uploaded_row pf boot_quota now name k mimetype saved found in
        (row.bucket_name ≡ name) × (row.key ≡ k) × (row.size ≡ saved.size)
  unfolding uploaded_row
  uploaded_row-key now name k mimetype saved rows (some old) h =
      let (same, same') = find_object-some name k rows old h in (same, same', refl)
  uploaded_row-key now name k mimetype saved rows none h = (refl, refl, refl)

  abbrev kind_of : Text → Text → Text
  kind_of k mimetype =
      if text_eq mimetype []
      then get_or_else (pf.mime_type k) (codes "application/octet-stream")
      else mimetype

  -- The row that an accepted upload stores.
  abbrev row_of : ℕ → Text → Text → Text → Bytes → World → ObjectRow
  row_of now name k mimetype bytes w =
      uploaded_row pf boot_quota now name k (kind_of k mimetype)
        (saved_at pf (file_path pf name k) bytes) (find_object name k w.objects)

  -- The state that it leaves.
  abbrev after_upload : ℕ → Bytes → Text → Text → Text → Bytes → World → World
  after_upload now iv name k mimetype bytes w = record (save_object pf name k iv bytes w).0 {
    objects = upsert_object (row_of now name k mimetype bytes w) w.objects;
  }

  -- An upload keeps the stored bytes within the quota.
  pub upload_object-UnderQuota :
      (now : ℕ) (iv : Bytes) (name : Text) (file : Option (Text × Text × Bytes)) (w : World)
      → UnderQuota boot_quota w
      → UnderQuota boot_quota (upload_object pf boot_quota now iv name file w).0
  unfolding upload_object save_object saved_at
  upload_object-UnderQuota now iv name none w u = u
  upload_object-UnderQuota now iv name (some (k, mimetype, bytes)) w u =
      elim (Option-cases (find_bucket name w.buckets)) [
        | inl e ↦ rw (e, upload_object) u
        | inr (bucket, e) ↦
            elim (Bool-cases (
              would_exceed_quota boot_quota (length bytes) (size_of (find_object name k w.objects))
                w)) [
                  | inl e' ↦ rw (e, e', upload_object) u
                  | inr e' ↦
                      let row = row_of now name k mimetype bytes w in
                      let (same, same', sized) =
                        uploaded_row-key now name k (kind_of k mimetype)
                          (save_object pf name k iv bytes w).1 w.objects
                          (find_object name k w.objects) refl in
                      rw (e, e', upload_object)
                        (upsert_object-UnderQuota boot_quota w
                          (after_upload now iv name k mimetype bytes w) row
                          (rw (sized, same, same') e') refl refl)
                ]
      ]

  -- For a cipher with the documented laws and an IV of 12 bytes: after a successful upload over an
  -- existing object, the blob of the key's row reads as the new bytes and the row has their size and
  -- ETag, but the old object's checksum, metadata and tags.
  pub upload_object_keeps_checksum :
      (now : ℕ) (iv : Bytes) (name k mimetype : Text) (bytes : Bytes) (old : ObjectRow)
      (w w' : World)
      → GcmLaws pf.gcm
      → length iv ≡ iv_len
      → find_object name k w.objects ≡ some old
      → upload_object pf boot_quota now iv name (some (k, mimetype, bytes)) w ≡ (w', 201)
      → (row : ObjectRow) × (find_object name k w'.objects ≡ some row)
        × (row.size ≡ length bytes)
        × (row.etag ≡ etag_of pf bytes)
        × (read_object pf row.storage_path w' ≡ some bytes)
        × (row.checksum_crc32 ≡ old.checksum_crc32)
        × (row.metadata ≡ old.metadata)
        × (row.tags ≡ old.tags)
  unfolding upload_object save_object saved_at uploaded_row read_object
  upload_object_keeps_checksum now iv name k mimetype bytes old w w' laws hi h h' =
      elim (Option-cases (find_bucket name w.buckets)) [
        | inl e ↦ absurd (omega (arith, ap (λ x. x.1) (rw (e, upload_object) at h')))
        | inr (bucket, e) ↦
            elim (Bool-cases (
              would_exceed_quota boot_quota (length bytes) (size_of (find_object name k w.objects))
                w)) [
                  | inl e' ↦ absurd (omega (arith, ap (λ x. x.1) (rw (e, e', upload_object) at h')))
                  | inr e' ↦
                      let (same, same') = find_object-some name k w.objects old h in
                      let row = row_of now name k mimetype bytes w in
                      let stored : upsert_object row w.objects ≡ w'.objects =
                        ap (λ x. x.0.objects) (rw (e, e', upload_object) at h') in
                      let path = file_path pf name k in
                      let sealed = maybe_encrypt pf.gcm pf.enc_key iv bytes in
                      let files : write_file path sealed w.files ≡ w'.files =
                        ap (λ x. x.0.files) (rw (e, e', upload_object) at h') in
                      let readable : read_object pf path w' ≡ some bytes =
                        rw
                          (
                            ← files,
                            read_file-write_file path path sealed w.files,
                            path_eq_refl path,
                            read_object,
                          )
                          (stream_decrypt-maybe_encrypt pf.gcm laws pf.enc_key iv bytes hi) in
                      let own : is_object name k row ≡ true =
                        rw (h, same, same', text_eq_refl name, text_eq_refl k) refl in
                      let found = rw own at (find_object-upsert_object row name k w.objects) in
                      (
                        row,
                        subst (λ rows. find_object name k rows ≡ some row) stored found,
                        rw h refl,
                        rw h refl,
                        rw h readable,
                        rw h refl,
                        rw h refl,
                        rw h refl,
                      )
                ]
      ]

find_bucket-filter :
    (name other : Text) (bs : List Bucket)
    → find_bucket other (filter (λ b. not (text_eq b.name name)) bs)
      ≡ (if text_eq other name then none else find_bucket other bs)
unfolding find_bucket
find_bucket-filter name other [] = ground arith
find_bucket-filter name other (b ∷ bs) = ground (
  arith,
  text_eq_iff b.name name,
  text_eq_iff b.name other,
  text_eq_iff other name,
  find_bucket-filter name other bs,
)

find_object-filter :
    (name bucket k : Text) (rs : List ObjectRow)
    → find_object bucket k (filter (λ o. not (text_eq o.bucket_name name)) rs)
      ≡ (if text_eq bucket name then none else find_object bucket k rs)
unfolding find_object
find_object-filter name bucket k [] = ground arith
find_object-filter name bucket k (r ∷ rs) = ground (
  arith,
  text_eq_iff r.bucket_name name,
  text_eq_iff r.bucket_name bucket,
  text_eq_iff bucket name,
  find_object-filter name bucket k rs,
)

read_file-delete_files :
    (p : FilePath) (os : List ObjectRow) (files : List (FilePath × Bytes))
    → read_file p files ≡ none
    → read_file p (delete_files os files) ≡ none
unfolding delete_files
read_file-delete_files p [] files h = h
read_file-delete_files p (o ∷ os) files h =
    read_file-delete_files p os (remove_file o.storage_path files) (
      read_file-remove_file o.storage_path p files
      ∙ elim (Bool-cases (path_eq o.storage_path p)) [ inl e ↦ rw e refl | inr e ↦ rw e h ])

read_file-owned :
    (name k : Text) (rs : List ObjectRow) (o : ObjectRow) (files : List (FilePath × Bytes))
    → find_object name k rs ≡ some o
    → read_file o.storage_path (delete_files (filter (λ r. text_eq r.bucket_name name) rs) files)
      ≡ none
unfolding find_object delete_files
read_file-owned name k [] o files h = cc
read_file-owned name k (r ∷ rs) o files h = elim (Bool-cases (text_eq r.bucket_name name)) [
  | inl e ↦ elim (Bool-cases (text_eq r.key k)) [
    | inl e' ↦
        let same : r.storage_path ≡ o.storage_path =
          ap (λ x. x.storage_path) (some_inj (rw (e, e') at h)) in
        rw (e, sym same)
          (read_file-delete_files r.storage_path (filter (λ x. text_eq x.bucket_name name) rs)
            (remove_file r.storage_path files) (read_file-remove_file_self r.storage_path files))
    | inr e' ↦
        rw e (read_file-owned name k rs o (remove_file r.storage_path files) (rw (e, e') at h))
  ]
  | inr e ↦ rw e (read_file-owned name k rs o files (rw e at h))
]

-- Whether a row of the bucket has the file.
abbrev pub owns : Text → FilePath → List ObjectRow → Bool
owns name p rs = any (λ o. text_eq o.bucket_name name && path_eq o.storage_path p) rs

read_file-unowned :
    (name : Text) (p : FilePath) (rs : List ObjectRow) (files : List (FilePath × Bytes))
    → owns name p rs ≡ false
    → read_file p (delete_files (filter (λ r. text_eq r.bucket_name name) rs) files)
      ≡ read_file p files
unfolding delete_files
read_file-unowned name p [] files h = refl
read_file-unowned name p (r ∷ rs) files h = elim (Bool-cases (text_eq r.bucket_name name)) [
  | inr e ↦ rw e (read_file-unowned name p rs files (rw e at h))
  | inl e ↦ elim (Bool-cases (path_eq r.storage_path p)) [
    | inl e' ↦ absurd (cc (rw (e, e') at h))
    | inr e' ↦ rw e (
        read_file-unowned name p rs (remove_file r.storage_path files) (rw (e, e') at h)
        ∙ read_file-remove_file r.storage_path p files
        ∙ rw e' refl)
  ]
]

-- Deleting a bucket that exists removes it, every object of it and their files. The rows of all other
-- buckets, the objects of other buckets, every file that no object of the bucket has, the bucket's
-- uploads and their parts, the domains that name it and the keys that are limited to it all stay.
pub delete_bucket_leaves :
    (name : Text) (s : AdminState) (found : Bucket)
    → find_bucket name s.stored.buckets ≡ some found
    → let after = (delete_bucket name s).0 in
      ((bucket : Text)
        → find_bucket bucket after.stored.buckets
          ≡ (if text_eq bucket name then none else find_bucket bucket s.stored.buckets))
      × ((bucket k : Text)
          → find_object bucket k after.stored.objects
            ≡ (if text_eq bucket name then none else find_object bucket k s.stored.objects))
      × ((k : Text) (o : ObjectRow)
          → find_object name k s.stored.objects ≡ some o
          → read_file o.storage_path after.stored.files ≡ none)
      × ((p : FilePath)
          → owns name p s.stored.objects ≡ false
          → read_file p after.stored.files ≡ read_file p s.stored.files)
      × (after.stored.uploads ≡ s.stored.uploads)
      × (after.stored.parts ≡ s.stored.parts)
      × (after.domains ≡ s.domains)
      × (after.key_entries ≡ s.key_entries)
unfolding delete_bucket
delete_bucket_leaves name s found h =
    rw (h, delete_bucket)
      (
        λ bucket. find_bucket-filter name bucket s.stored.buckets,
        λ bucket k. find_object-filter name bucket k s.stored.objects,
        λ k o e. read_file-owned name k s.stored.objects o s.stored.files e,
        λ p e. read_file-unowned name p s.stored.objects s.stored.files e,
        refl,
        refl,
        refl,
        refl,
      )
