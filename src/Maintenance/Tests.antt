-- ===== src/Maintenance/Tests.antt =====
-- Runs of the sweeps.
use r2storage.Maintenance.{
  add_objects, expire_objects, like_prefix, rule_expires, sweep_buckets, sweep_expired_objects,
}
use r2storage.Maintenance.Lifecycle.{find_object-sweep_expired_objects, takes}
use r2storage.Prelude.{
  [], any, codes, false, if◌then◌else◌, is_some, lower, none, refl, some, text_eq, true, ◌∷◌, ◌≡◌,
}
use r2storage.Store.{
  Bucket, LifecycleRule, ObjectRow, World, delete_object, find_object, object_file,
}

abbrev log_rule : LifecycleRule
log_rule = record {
  id = codes "r";
  prefix = codes "log/";
  status = codes "Enabled";
  days = some 1;
  date = none;
}

abbrev log_bucket : Bucket
log_bucket = record {
  name = codes "b";
  is_public = false;
  tags = none;
  cors_origins = [];
  cors_rules = [];
  lifecycle_rules = log_rule ∷ [];
}

abbrev old_log : ObjectRow
old_log = record {
  bucket_name = codes "b";
  key = codes "log/1";
  size = 2;
  content_type = codes "text/plain";
  etag = codes "e";
  storage_path = object_file (codes "b") (codes "h");
  metadata = none;
  tags = none;
  checksum_crc32 = none;
  updated_at = 1;
}

abbrev logs : World
logs = record {
  buckets = log_bucket ∷ [];
  objects = old_log ∷ record old_log { key = codes "a" } ∷ [];
  uploads = [];
  parts = [];
  storage_limit = none;
  files = [];
}

abbrev swept : World
swept = sweep_expired_objects (λ t. none) 90000000 logs

find_object-sweep_expired_objects_example :
    find_object (codes "b") (codes "log/1") swept.objects ≡ (
      if any
        (λ c. takes (λ t. none) 90000000 c (codes "b") (codes "log/1") logs.objects)
        logs.buckets
      then none
      else find_object (codes "b") (codes "log/1") logs.objects)
find_object-sweep_expired_objects_example =
    find_object-sweep_expired_objects (λ t. none) 90000000 (codes "b") (codes "log/1") logs

sweep_takes_log : find_object (codes "b") (codes "log/1") swept.objects ≡ none
unfolding find_object sweep_expired_objects sweep_buckets expire_objects add_objects text_eq
    rule_expires like_prefix lower delete_object
sweep_takes_log = refl

sweep_leaves_rest : is_some (find_object (codes "b") (codes "a") swept.objects) ≡ true
unfolding find_object sweep_expired_objects sweep_buckets expire_objects add_objects text_eq
    rule_expires like_prefix lower delete_object
sweep_leaves_rest = refl

-- A rule for the prefix `tmp_` takes keys that do not begin with it.
like_prefix_wild :
    (like_prefix (codes "tmp_") (codes "TMPx/a") ≡ true)
    × (like_prefix (codes "a%c") (codes "abbcd") ≡ true)
    × (like_prefix (codes "tmp_") (codes "tm_p") ≡ false)
unfolding like_prefix lower
like_prefix_wild = (refl, refl, refl)
