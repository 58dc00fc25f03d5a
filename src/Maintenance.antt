-- ===== src/Maintenance.antt =====
-- backend/src/maintenance.ts: the periodic sweeps over the tables and the files. The clock is read
-- once per sweep; `day_start` is the time of a date at midnight UTC, or nothing for NaN and for dates
-- before 1970. The sweep of temporary files, which the store does not hold, is left out.
pub mod Lifecycle
mod Tests
use r2storage.Auth.Session.{Session}
use r2storage.Prelude.{
  Bool, List, Option, Text, [], any, codes, false, filter, if◌then◌else◌, leb, lower, ltb, none,
  not, some, text_eq, true, ℕ, ◌&&◌, ◌*◌, ◌++◌, ◌+◌, ◌==◌, ◌||◌, ◌∷◌,
}
use r2storage.Store.{
  Bucket, LifecycleRule, ObjectRow, UploadRow, World, delete_object, delete_parts, delete_upload,
  is_object, remove_file, remove_upload_files,
}

abbrev pub multipart_sweep_age_ms : ℕ
multipart_sweep_age_ms = 86400000

-- `createdAt: { lt: new Date(now - age) }`
abbrev pub is_older : ℕ → ℕ → ℕ → Bool
is_older now age created = ltb (created + age) now

-- sweepAbandonedMultipartUploads, over the uploads found before the first deletion.
unfoldable pub delete_upload_parts : Text → World → World
delete_upload_parts id w = record w {
  files = remove_upload_files id w.files;
  uploads = delete_upload id w.uploads;
  parts = delete_parts id w.parts;
}

unfoldable pub sweep_uploads : List UploadRow → World → World
unfolding delete_upload_parts
sweep_uploads [] w = w
sweep_uploads (u ∷ us) w = sweep_uploads us (delete_upload_parts u.upload_id w)

unfoldable pub sweep_abandoned_multipart_uploads : ℕ → World → World
unfolding sweep_uploads
sweep_abandoned_multipart_uploads now w =
    sweep_uploads (filter (λ u. is_older now multipart_sweep_age_ms u.created_at) w.uploads) w

-- What stands after the first character, which may be a pair of code units.
after_char : Text → Option Text
after_char [] = none
after_char (c ∷ []) = some []
after_char (c ∷ d ∷ s) =
    if leb 0xD800 c && ltb c 0xDC00 && leb 0xDC00 d && ltb d 0xE000 then some s else some (d ∷ s)

any_suffix : (Text → Bool) → Text → Bool
any_suffix p [] = p []
any_suffix p (c ∷ s) = p (c ∷ s) || any_suffix p s

same_letter : (Text → Bool) → ℕ → Text → Bool
same_letter p c [] = false
same_letter p c (d ∷ s) = lower c == lower d && p s

-- `key LIKE 'prefix%'`, to which Prisma turns `startsWith` on SQLite: the letters of ASCII match in
-- either case, `_` matches one character and `%` any text.
unfoldable pub like_prefix : Text → Text → Bool
unfolding after_char any_suffix same_letter
like_prefix [] s = true
like_prefix (c ∷ pattern) s =
    let rest = like_prefix pattern in
    if c == b'%'
    then any_suffix rest s
    else if c == b'_'
    then elim (after_char s) [ none ↦ false | some after ↦ rest after ]
    else same_letter rest c s

module _ (day_start : Text → Option ℕ) where
  -- Whether the date's day is over; a date that is NaN, or before 1970, counts as over.
  day_over : ℕ → Text → Bool
  day_over now date = elim (day_start date) [
    | none ↦ true
    | some start ↦ leb (start + 86400000) now
  ]

  -- Whether a rule takes an object: it is enabled, its prefix fits as a pattern, and its days since the last write
  -- or its date have passed.
  expiry_due : ℕ → LifecycleRule → ObjectRow → Bool
  unfolding day_over
  expiry_due now rule o = elim rule.days [
    | some days ↦ ltb (o.updated_at + days * 86400000) now
    | none ↦ elim rule.date [ none ↦ false | some date ↦ day_over now date ]
  ]

  unfoldable pub rule_expires : ℕ → LifecycleRule → ObjectRow → Bool
  unfolding expiry_due
  rule_expires now rule o =
      text_eq rule.status (codes "Enabled")
      && (text_eq rule.prefix [] || like_prefix rule.prefix o.key)
      && expiry_due now rule o

-- `idsToDelete.add`
unfoldable pub add_object : ObjectRow → List ObjectRow → List ObjectRow
add_object o acc = if any (is_object o.bucket_name o.key) acc then acc else acc ++ (o ∷ [])

unfoldable pub add_objects : List ObjectRow → List ObjectRow → List ObjectRow
unfolding add_object
add_objects [] acc = acc
add_objects (o ∷ os) acc = add_objects os (add_object o acc)

-- The deletion of one object: its file, and its row.
unfoldable pub expire_object : ObjectRow → World → World
expire_object o w = record w {
  files = remove_file o.storage_path w.files;
  objects = delete_object o.bucket_name o.key w.objects;
}

unfoldable pub expire_objects : List ObjectRow → World → World
unfolding expire_object
expire_objects [] w = w
expire_objects (o ∷ os) w = expire_objects os (expire_object o w)

module _ (day_start : Text → Option ℕ) (now : ℕ) where
  -- The rows of the bucket that the rules take, in the order of the rules.
  unfoldable pub collect_expired :
      Text → List LifecycleRule → List ObjectRow → List ObjectRow → List ObjectRow
  collect_expired bucket [] rows acc = acc
  collect_expired bucket (rule ∷ rules) rows acc = collect_expired bucket rules rows (
      add_objects
        (filter (λ o. text_eq o.bucket_name bucket && rule_expires day_start now rule o) rows) acc)

  unfoldable pub sweep_bucket : Bucket → World → World
  unfolding collect_expired
  sweep_bucket bucket w =
      expire_objects (collect_expired bucket.name bucket.lifecycle_rules w.objects []) w

  unfoldable pub sweep_buckets : List Bucket → World → World
  unfolding sweep_bucket
  sweep_buckets [] w = w
  sweep_buckets (b ∷ bs) w = sweep_buckets bs (sweep_bucket b w)

  unfoldable pub sweep_expired_objects : World → World
  sweep_expired_objects w = sweep_buckets w.buckets w

-- The tables of logs by the `createdAt` of their rows.
pub record Records : Type 0 where
  pub world : World
  pub request_logs : List ℕ
  pub failed_logins : List ℕ
  pub audit_logs : List ℕ
  pub sessions : List Session

-- runMaintenanceSweep, with LOG_RETENTION_DAYS.
unfoldable pub run_maintenance_sweep : (Text → Option ℕ) → ℕ → ℕ → Records → Records
run_maintenance_sweep day_start retention_days now s =
    let kept = filter (λ created. not (is_older now (retention_days * 86400000) created)) in
    record {
      world = sweep_expired_objects day_start now (sweep_abandoned_multipart_uploads now s.world);
      request_logs = kept s.request_logs;
      failed_logins = kept s.failed_logins;
      audit_logs = kept s.audit_logs;
      sessions = filter (λ row. not (ltb row.expires_at now)) s.sessions;
    }
