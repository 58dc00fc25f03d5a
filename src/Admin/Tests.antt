-- ===== src/Admin/Tests.antt =====
-- Runs of the admin API.
use r2storage.Admin.{AdminState, admin_guard, is_public_route, not_guarded, patch_quota}
use r2storage.Admin.Buckets.{delete_bucket, upload_object}
use r2storage.Admin.Buckets.Leftovers.{delete_bucket_leaves, owns, upload_object_keeps_checksum}
use r2storage.Admin.Guard.{Keeps, admin_guard-passes, holds_secret, passes}
use r2storage.Admin.Limits.{would_exceed_quota-patch_quota}
use r2storage.Auth.Lockout.{empty_counter}
use r2storage.Auth.Login.{AuthConfig, AuthState}
use r2storage.Auth.Session.{get_session}
use r2storage.Prelude.{
  Text, [], arith, codes, false, if◌then◌else◌, is_some, length, none, refl, some, starts_with,
  text_eq, true, ℕ, ◌+◌, ◌<◌, ◌||◌, ◌↔◌, ◌∷◌, ◌≡◌, ◌≢◌,
}
use r2storage.Quota.{storage_quota, used_bytes, would_exceed_quota}
use r2storage.S3.Tests.{b1, k1, one_object, plain_gcm_laws, platform, test_iv}
use r2storage.Storage.Engine.{etag_of, read_object}
use r2storage.Store.{
  Bucket, Bytes, FilePath, ObjectRow, World, find_bucket, find_object, object_file, read_file,
}

abbrev admin_config : AuthConfig
admin_config = record {
  admin_secret = codes "hunter2";
  admin_totp_secret = [];
  lockout = record {
    fail_threshold = 3;
    ip_cooldown_sec = 900;
    global_threshold = 100;
    base_cooldown_sec = 60;
  };
  session = record { ttl_ms = 100; max_ms = 250 };
}

abbrev idle : AuthState
idle = record {
  lockout_state = record { per_ip = []; global = empty_counter; global_cooldown_sec = 60 };
  sessions = [];
  failed_logins = [];
}

abbrev guarded_url : Text
guarded_url = codes "/api/admin/keys"

abbrev salted : Text → Text
salted s = 35 ∷ s

admin_guard-passes_example :
    let live = is_some (get_session admin_config.session salted 5000 (some (codes "t1")) []) in
    let (after, result) =
      admin_guard admin_config salted 5000
        (codes "10.0.0.7")
        guarded_url
        (some (codes "t1"))
        (some (codes "hunter3"))
        idle in
    (passes result ≡ (live || holds_secret admin_config (some (codes "hunter3"))))
    × (live ≡ false → Keeps idle after)
    × (live ≡ true → after.lockout_state ≡ idle.lockout_state)
    × (admin_guard admin_config salted 5000
          (codes "10.0.0.7")
          (codes "/api/%61dmin/keys")
          (some (codes "t1"))
          (some (codes "hunter3"))
          idle
        ≡ (idle, not_guarded))
unfolding starts_with is_public_route
admin_guard-passes_example =
    admin_guard-passes admin_config salted 5000 (codes "10.0.0.7") guarded_url
      (codes "/api/%61dmin/keys") (some (codes "t1")) (some (codes "hunter3")) idle refl refl refl

-- An escaped letter in the raw URL.
guard_lets_escaped_path :
    (admin_guard admin_config salted 5000
      (codes "10.0.0.7")
      (codes "/api/%61dmin/keys")
      none
      none
      idle).1
    ≡ not_guarded
unfolding admin_guard starts_with
guard_lets_escaped_path = refl

abbrev admin_state : AdminState
admin_state = record {
  stored = one_object;
  key_entries = [];
  domains = record { id = codes "d1"; domain = codes "cdn.example.com"; bucket_name = b1 } ∷ [];
}

abbrev checked_row : ObjectRow
checked_row = record {
  bucket_name = b1;
  key = k1;
  size = 2;
  content_type = codes "text/plain";
  etag = codes "old";
  storage_path = object_file b1 k1;
  metadata = none;
  tags = some ((codes "team", codes "red") ∷ []);
  checksum_crc32 = some (codes "old sum");
  updated_at = 1;
}

abbrev checked_object : World
checked_object = record one_object { objects = checked_row ∷ [] }

abbrev new_file : Bytes
new_file = 4 ∷ 5 ∷ 6 ∷ []

abbrev after_new_file : World
after_new_file =
    (upload_object platform 100 7 test_iv b1 (some (k1, codes "text/plain", new_file))
      checked_object).0

after_new_file_stored :
    upload_object platform 100 7 test_iv b1 (some (k1, codes "text/plain", new_file)) checked_object
    ≡ (after_new_file, 201)
unfolding upload_object find_bucket find_object text_eq would_exceed_quota storage_quota used_bytes
after_new_file_stored = refl

upload_object_keeps_checksum_example :
    (row : ObjectRow) × (find_object b1 k1 after_new_file.objects ≡ some row)
    × (row.size ≡ length new_file)
    × (row.etag ≡ etag_of platform new_file)
    × (read_object platform row.storage_path after_new_file ≡ some new_file)
    × (row.checksum_crc32 ≡ checked_row.checksum_crc32)
    × (row.metadata ≡ checked_row.metadata)
    × (row.tags ≡ checked_row.tags)
unfolding find_object text_eq
upload_object_keeps_checksum_example =
    upload_object_keeps_checksum platform 100 7 test_iv b1 k1 (codes "text/plain") new_file
      checked_row checked_object after_new_file plain_gcm_laws refl refl after_new_file_stored

abbrev only_bucket : Bucket
only_bucket = record {
  name = b1;
  is_public = false;
  tags = none;
  cors_origins = codes "*";
  cors_rules = [];
  lifecycle_rules = [];
}

delete_bucket_leaves_example :
    let after = (delete_bucket b1 admin_state).0 in
    ((bucket : Text)
      → find_bucket bucket after.stored.buckets
        ≡ (if text_eq bucket b1 then none else find_bucket bucket one_object.buckets))
    × ((bucket k : Text)
        → find_object bucket k after.stored.objects
          ≡ (if text_eq bucket b1 then none else find_object bucket k one_object.objects))
    × ((k : Text) (o : ObjectRow)
        → find_object b1 k one_object.objects ≡ some o
        → read_file o.storage_path after.stored.files ≡ none)
    × ((p : FilePath)
        → owns b1 p one_object.objects ≡ false
        → read_file p after.stored.files ≡ read_file p one_object.files)
    × (after.stored.uploads ≡ one_object.uploads)
    × (after.stored.parts ≡ one_object.parts)
    × (after.domains ≡ admin_state.domains)
    × (after.key_entries ≡ admin_state.key_entries)
unfolding find_bucket text_eq
delete_bucket_leaves_example = delete_bucket_leaves b1 admin_state only_bucket refl

would_exceed_quota-patch_quota_example :
    let w = (patch_quota (some 5) admin_state).0.stored in
    let limit : ℕ = 5 in
    (would_exceed_quota 100 4 0 w ≡ true)
    ↔ ((limit ≢ 0) × (limit + 0 < used_bytes one_object.objects + 4))
would_exceed_quota-patch_quota_example =
    would_exceed_quota-patch_quota 100 5 4 0 admin_state (omega arith)
