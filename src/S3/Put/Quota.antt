-- ===== src/S3/Put/Quota.antt =====
-- PutObject and the quota.
use r2storage.Prelude.{refl, ℕ}
use r2storage.Quota.Invariant.{UnderQuota, upsert_object-UnderQuota}
use r2storage.S3.{Reply, Request}
use r2storage.S3.Put.{put_row, store_object}
use r2storage.S3.Put.Outcome.{
  PutOutcome, cleaned_put, put_saved, refused_put, row_stored, store_object-PutOutcome, stored_put,
}
use r2storage.Storage.Engine.{Platform, delete_object_file, saved_at}
use r2storage.Store.{Bytes, World}

module _ (pf : Platform) (boot_quota : ℕ) (now : ℕ) (iv : Bytes) (r : Request) (w : World) where
  outcome-UnderQuota :
      (res : World × Reply)
      → PutOutcome pf boot_quota now iv r w res
      → UnderQuota boot_quota w
      → UnderQuota boot_quota res.0
  unfolding delete_object_file put_row saved_at
  outcome-UnderQuota res (refused_put s c e) u = rw e u
  outcome-UnderQuota res (cleaned_put b t s c eb e) u = rw e u
  outcome-UnderQuota res (stored_put b t tags eb fits good e) u = rw e (
      upsert_object-UnderQuota boot_quota w (row_stored pf boot_quota now iv r b tags w)
        (put_row pf boot_quota now r tags (put_saved pf boot_quota r b)) fits refl refl)

  -- PutObject keeps the stored bytes within the quota, whatever the request declares and sends.
  pub store_object-UnderQuota :
      UnderQuota boot_quota w → UnderQuota boot_quota (store_object pf boot_quota now iv r w).0
  store_object-UnderQuota u =
      outcome-UnderQuota _ (store_object-PutOutcome pf boot_quota now iv r w) u
