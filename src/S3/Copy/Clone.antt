-- ===== src/S3/Copy/Clone.antt =====
-- What CopyObject leaves at its destination.
use r2storage.Prelude.{
  Bool-cases, Option, Option-cases, Text, false, inl, inr, refl, some, text_eq, text_eq_refl, ℕ,
  ◌&&◌, ◌∙◌, ◌≡◌,
}
use r2storage.Range.Preconditions.{check_write_preconditions, header}
use r2storage.S3.{Reply, Request, failed, succeeded}
use r2storage.S3.Copy.{
  Directive, checked_copy, copy_object, copy_row, copy_tags, copy_too_long, finish_copy, is_copies,
  read_directive,
}
use r2storage.S3.Put.{precondition_error, version_of}
use r2storage.Storage.Engine.{Platform, copy_object_file, file_path, read_object}
use r2storage.Store.{
  Bytes, ObjectRow, Tags, World, find_object, read_file, upsert_object, write_file,
}
use r2storage.Store.Laws.{find_object-upsert_object, path_eq_refl, read_file-write_file}

module _ (pf : Platform) (boot_quota : ℕ) (now : ℕ) (r : Request) (src : ObjectRow)
    (w : World) where
  -- The destination has a row with the size and the ETag of the source, its blob reads as the one of
  -- the source did, and the rows of all other keys are those of the world before.
  abbrev pub IsCloned : World → Type 0
  IsCloned after =
      (row : ObjectRow) × (find_object r.bucket_name r.key after.objects ≡ some row)
      × (row.size ≡ src.size)
      × (row.etag ≡ src.etag)
      × (read_object pf row.storage_path after ≡ read_object pf src.storage_path w)
      × ((b k : Text)
          → (text_eq r.bucket_name b && text_eq r.key k) ≡ false
          → find_object b k after.objects ≡ find_object b k w.objects)

  cloned :
      (directive : Directive) (tags : Option Tags) (stored : Bytes)
      → read_file src.storage_path w.files ≡ some stored
      → IsCloned (record w {
        files = write_file (file_path pf r.bucket_name r.key) stored w.files;
        objects =
            upsert_object
              (copy_row pf boot_quota now r directive tags (file_path pf r.bucket_name r.key) src)
              w.objects;
      })
  unfolding copy_row read_object
  cloned directive tags stored there =
      let p = file_path pf r.bucket_name r.key in
      let row = copy_row pf boot_quota now r directive tags p src in
      (
        row,
        find_object-upsert_object row r.bucket_name r.key w.objects
            ∙ rw (text_eq_refl r.bucket_name, text_eq_refl r.key) refl,
        refl,
        refl,
        rw (read_file-write_file p p stored w.files, path_eq_refl p, there, read_object) refl,
        (λ b k h. find_object-upsert_object row b k w.objects ∙ rw h refl),
      )

  abbrev pub IsCopyResult : World × Reply → Type 0
  IsCopyResult (after, failed status code) = after ≡ w
  IsCopyResult (after, succeeded status etag) = (etag ≡ some src.etag) × IsCloned after

  finish_copy-IsCopyResult :
      (directive : Directive) → IsCopyResult (finish_copy pf boot_quota now r directive src w)
  unfolding finish_copy copy_object_file copy_row
  finish_copy-IsCopyResult directive = elim (Option-cases (copy_tags pf boot_quota r.headers src)) [
    | inl bad ↦ rw (bad, finish_copy) refl
    | inr (tags, good) ↦ elim (Option-cases (read_file src.storage_path w.files)) [
      | inl gone ↦ rw (good, gone, finish_copy, copy_object_file) refl
      | inr (stored, there) ↦
          rw (good, there, finish_copy, copy_object_file) (refl, cloned directive tags stored there)
    ]
  ]

  checked_copy-IsCopyResult :
      (directive : Directive) → IsCopyResult (checked_copy pf boot_quota now r directive src w)
  unfolding checked_copy
  checked_copy-IsCopyResult directive =
      let dest = find_object r.bucket_name r.key w.objects in
      elim (Option-cases (
        precondition_error (check_write_preconditions pf.date_parse r.headers (version_of dest)))) [
          | inr ((status, code), bad) ↦ rw (bad, checked_copy) refl
          | inl good ↦ elim (Bool-cases (copy_too_long pf boot_quota src dest w)) [
            | inl over ↦ rw (good, over, checked_copy) refl
            | inr fits ↦ rw (good, fits, checked_copy) (finish_copy-IsCopyResult directive)
          ]
        ]

  -- A CopyObject either fails and changes nothing at all, or reports the source's ETag and leaves a
  -- clone: the destination's row has the source's size and ETag, its blob reads as the source's blob
  -- did before the copy, and the rows of all other keys are as before.
  pub copy_object-IsCopyResult :
      (source : Text × Text) → IsCopyResult (copy_object pf boot_quota now r source src w)
  unfolding copy_object
  copy_object-IsCopyResult (b, k) =
      elim (Option-cases (read_directive (header r.headers "x-amz-metadata-directive"))) [
        | inl bad ↦ rw (bad, copy_object) refl
        | inr (d, good) ↦
            elim (Bool-cases
              (text_eq b r.bucket_name && text_eq k r.key && is_copies pf boot_quota d)) [
                | inl same ↦ rw (good, same, copy_object) refl
                | inr other ↦ rw (good, other, copy_object) (checked_copy-IsCopyResult d)
              ]
      ]
