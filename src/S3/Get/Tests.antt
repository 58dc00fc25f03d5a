-- ===== src/S3/Get/Tests.antt =====
-- Runs of the reads and of the preflights.
use mathlib.Core.List.{flatten}
use r2storage.Prelude.{
  List, Option, Text, [], ap, codes, decimal_from, drop_spaces, false, get_elem?, if◌then◌else◌,
  is_digit, is_space, join_with, length, none, refl, some, span, split, split_push, strip_prefix,
  text_eq, trim, true, ℕ, ◌+◌, ◌-◌, ◌<◌, ◌||◌, ◌∷◌, ◌≡◌, ◌≢◌, ◌≤◌,
}
use r2storage.Range.{parse_range_header}
use r2storage.Range.Bounds.{parse_range_header-bounds}
use r2storage.Range.Preconditions.{
  Headers, header, lists_tag_or_star, lookup_text, normalized, not_modified, raw_header,
  read_precondition_failed, trimmed_header,
}
use r2storage.S3.{Request, has_query, lacks_permission, permission_denied, refuses, whole}
use r2storage.S3.Checks.{sse_c_error, validate_sse_c}
use r2storage.S3.Cors.{
  cors_headers_for_request, decimal_text_fuel, find_rule, includes, preflight_route, rule_matches,
}
use r2storage.S3.Cors.Origins.{preflight_route-allowed}
use r2storage.S3.Get.{checksum_mode, get_object, may_read, no_checksum, object_headers}
use r2storage.S3.Get.Served.{Served, get_object-store_object}
use r2storage.S3.Tests.{
  after_put, after_put_buckets, after_put_etag, after_put_found, after_put_row, after_put_stored,
  b1, fresh_put, one_object, plain_gcm_laws, platform, test_iv,
}
use r2storage.Storage.Engine.{etag_of}
use r2storage.Store.{Bucket, Bytes, CorsRule, World, find_bucket}

abbrev pairs : Bytes → List Bytes
pairs [] = []
pairs (a ∷ []) = (a ∷ []) ∷ []
pairs (a ∷ b ∷ bs) = (a ∷ b ∷ []) ∷ pairs bs

flatten-pairs : (b : Bytes) → flatten (pairs b) ≡ b
unfolding flatten
flatten-pairs [] = refl
flatten-pairs (a ∷ []) = refl
flatten-pairs (a ∷ b ∷ bs) = ap (λ x. a ∷ b ∷ x) (flatten-pairs bs)

abbrev closed_bucket : Bucket
closed_bucket = record {
  name = b1;
  is_public = false;
  tags = none;
  cors_origins = codes "*";
  cors_rules = [];
  lifecycle_rules = [];
}

abbrev ranged_get : Request
ranged_get = record fresh_put {
  headers = (codes "range", codes "bytes=1-1") ∷ (codes "if-none-match", codes "zz") ∷ [];
}

abbrev put_etag : Option Text
put_etag = some (etag_of platform (4 ∷ 5 ∷ 6 ∷ []))

bucket_kept : find_bucket b1 after_put.buckets ≡ some closed_bucket
unfolding find_bucket text_eq
bucket_kept = rw after_put_buckets refl

other_version : lists_tag_or_star (codes "zz") after_put_row.etag ≡ false
unfolding lists_tag_or_star split split_push normalized trim drop_spaces is_space strip_prefix
    etag_of text_eq
other_version = rw after_put_etag refl

get_object-store_object_example :
    (bytes : Bytes) × (trailer : Option Text) × (fresh_put.body ≡ whole bytes trailer)
    × (put_etag ≡ some after_put_row.etag)
    × Served bytes
        (object_headers ranged_get closed_bucket after_put_row
          (validate_sse_c platform ranged_get.headers false)
          no_checksum)
        (parse_range_header (header ranged_get.headers "range") (length bytes))
        (get_object platform pairs ranged_get after_put)
unfolding may_read refuses permission_denied lacks_permission text_eq checksum_mode trimmed_header
    raw_header has_query sse_c_error validate_sse_c read_precondition_failed header not_modified
get_object-store_object_example =
    get_object-store_object platform pairs flatten-pairs 100 7 test_iv fresh_put one_object
      after_put 200 put_etag ranged_get closed_bucket after_put_row plain_gcm_laws refl
      after_put_stored refl refl bucket_kept after_put_found refl refl refl refl refl refl refl
      other_version

parse_range_header-bounds_example : (1 ≤ 2) × (2 < 3) × (2 ≡ 2 - 1 + 1)
unfolding parse_range_header strip_prefix drop_spaces is_space span is_digit decimal_from text_eq
parse_range_header-bounds_example =
    parse_range_header-bounds (some (codes "bytes=1-9")) 3 1 2 2 refl

abbrev any_site : CorsRule
any_site = record {
  allowed_origins = codes "https://a.io" ∷ [];
  allowed_methods = codes "PUT" ∷ [];
  allowed_headers = [];
  expose_headers = [];
  max_age_seconds = 600;
}

abbrev cors_world : World
cors_world = record one_object {
  buckets = record closed_bucket { cors_rules = any_site ∷ [] } ∷ [];
}

abbrev asking : Request
asking = record fresh_put {
  headers =
      (codes "origin", codes "https://a.io")
      ∷ (codes "access-control-request-method", codes "PUT")
      ∷ [];
}

abbrev granted : Headers
granted =
    (codes "access-control-allow-origin", codes "https://a.io")
    ∷ (codes "vary", codes "Origin")
    ∷ (codes "access-control-allow-methods", codes "PUT")
    ∷ (codes "access-control-max-age", codes "600")
    ∷ []

preflight_route-allowed_example :
    (bucket : Bucket) × (rule : CorsRule) × (i : ℕ) × (find_bucket b1 cors_world.buckets
      ≡ some bucket)
    × (get_elem? bucket.cors_rules i ≡ some rule)
    × (codes "https://a.io" ≢ [])
    × ((includes (codes "*") rule.allowed_origins
          || includes (codes "https://a.io") rule.allowed_origins)
        ≡ true)
    × ((text_eq (codes "PUT") [] || includes (codes "PUT") rule.allowed_methods) ≡ true)
    × (lookup_text (codes "access-control-allow-origin") granted
        ≡ some
            (if includes (codes "*") rule.allowed_origins then codes "*" else codes "https://a.io"))
unfolding preflight_route find_bucket text_eq cors_headers_for_request header find_rule rule_matches
    join_with split decimal_text_fuel
preflight_route-allowed_example = preflight_route-allowed asking cors_world granted refl
