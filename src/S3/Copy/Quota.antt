-- ===== src/S3/Copy/Quota.antt =====
-- Copies and the quota.
use r2storage.Prelude.{
  Bool-cases, Option-cases, Text, arith, false, inl, inr, ltb, text_eq, ℕ, ◌&&◌, ◌+◌, ◌-◌, ◌≡◌, ◌≤◌,
  ◌⊎◌,
}
use r2storage.Quota.{storage_quota, used_bytes, would_exceed, would_exceed_quota}
use r2storage.Quota.Invariant.{UnderQuota, size_of-find_object, used_bytes-upsert_object}
use r2storage.Range.Preconditions.{check_write_preconditions, header}
use r2storage.S3.{Request}
use r2storage.S3.Copy.{
  Directive, checked_copy, copy_object, copy_row, copy_tags, copy_too_long, finish_copy, is_copies,
  read_directive,
}
use r2storage.S3.Put.{precondition_error, version_of}
use r2storage.Storage.Engine.{Platform, copy_object_file, file_path}
use r2storage.Store.{ObjectRow, World, find_object, read_file, size_of}

copy_fits :
    (quota used src dest : ℕ)
    → (ltb dest src && would_exceed quota used (src - dest) 0) ≡ false
    → dest ≤ used
    → (quota ≡ 0) ⊎ (used ≤ quota)
    → (quota ≡ 0) ⊎ (used + src ≤ quota + dest)
unfolding would_exceed
copy_fits quota used src dest h d u = ground arith

module _ (pf : Platform) (boot_quota : ℕ) (now : ℕ) (r : Request) (w : World) where
  finish_copy-UnderQuota :
      (directive : Directive) (src : ObjectRow)
      → copy_too_long pf boot_quota src (find_object r.bucket_name r.key w.objects) w ≡ false
      → UnderQuota boot_quota w
      → UnderQuota boot_quota (finish_copy pf boot_quota now r directive src w).0
  unfolding finish_copy copy_object_file copy_row copy_too_long would_exceed_quota
  finish_copy-UnderQuota directive src h u =
      elim (Option-cases (copy_tags pf boot_quota r.headers src)) [
        | inl bad ↦ rw (bad, finish_copy) u
        | inr (tags, good) ↦ elim (Option-cases (read_file src.storage_path w.files)) [
          | inl gone ↦ rw (good, gone, finish_copy, copy_object_file) u
          | inr (stored, e) ↦
              rw (good, e, finish_copy, copy_object_file)
                (elim (copy_fits (storage_quota boot_quota w.storage_limit) (used_bytes w.objects)
                  src.size (size_of (find_object r.bucket_name r.key w.objects)) h
                  (size_of-find_object r.bucket_name r.key w.objects) u) [
                    | inl unlimited ↦ inl unlimited
                    | inr fits ↦ inr (
                        omega (
                          arith,
                          used_bytes-upsert_object
                              (copy_row pf boot_quota now r directive tags
                                (file_path pf r.bucket_name r.key) src)
                              w.objects,
                          fits,
                        ))
                  ])
        ]
      ]

  checked_copy-UnderQuota :
      (directive : Directive) (src : ObjectRow)
      → UnderQuota boot_quota w
      → UnderQuota boot_quota (checked_copy pf boot_quota now r directive src w).0
  unfolding checked_copy
  checked_copy-UnderQuota directive src u =
      elim (Option-cases (
        precondition_error (
          check_write_preconditions pf.date_parse r.headers
            (version_of (find_object r.bucket_name r.key w.objects))))) [
              | inr (e, bad) ↦ rw (bad, checked_copy) u
              | inl good ↦
                  elim (Bool-cases (
                    copy_too_long pf boot_quota src (find_object r.bucket_name r.key w.objects)
                      w)) [
                        | inl over ↦ rw (good, over, checked_copy) u
                        | inr fits ↦
                            rw (good, fits, checked_copy)
                              (finish_copy-UnderQuota directive src fits u)
                      ]
            ]

  -- CopyObject keeps the stored bytes within the quota, although it looks at the quota only when the
  -- copy is larger than what it replaces.
  pub copy_object-UnderQuota :
      (source : Text × Text) (src : ObjectRow)
      → UnderQuota boot_quota w
      → UnderQuota boot_quota (copy_object pf boot_quota now r source src w).0
  unfolding copy_object
  copy_object-UnderQuota (b, k) src u =
      elim (Option-cases (read_directive (header r.headers "x-amz-metadata-directive"))) [
        | inl bad ↦ rw (bad, copy_object) u
        | inr (d, good) ↦
            elim (Bool-cases
              (text_eq b r.bucket_name && text_eq k r.key && is_copies pf boot_quota d)) [
                | inl same ↦ rw (good, same, copy_object) u
                | inr other ↦ rw (good, other, copy_object) (checked_copy-UnderQuota d src u)
              ]
      ]
