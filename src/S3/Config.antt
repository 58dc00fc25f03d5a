-- ===== src/S3/Config.antt =====
-- backend/src/api/s3.ts: PUT and DELETE of a bucket's lifecycle rules, CORS rules and tags, with the
-- validation of api/lifecycle.ts and api/cors.ts. What their regular expressions capture of a body is
-- an input, block by block.
pub mod Soundness
mod Tests
use r2storage.Prelude.{
  Bool, List, Option, Text, [], all, codes, decimal, false, get_or_else, if◌then◌else◌, is_digit,
  leb, length, ltb, min, none, not, parse_nat, some, text_eq, trim, ℕ, ◌&&◌, ◌++◌, ◌+◌, ◌==◌, ◌||◌,
  ◌∷◌,
}
use r2storage.S3.{Reply, Request, denied_reply, failed, has_query, refuses, succeeded, write_access}
use r2storage.S3.Cors.{decimal_text, includes}
use r2storage.S3.Tagging.{serialize_tags}
use r2storage.Store.{Bucket, CorsRule, LifecycleRule, Tags, World, find_bucket}

-- The captures of a <Rule>: of a Filter its Prefix, of an Expiration its Days and its Date.
pub record RuleBlock : Type 0 where
  pub status : Option Text
  pub filter_prefix : Option (Option Text)
  pub bare_prefix : Option Text
  pub expiration : Option (Option Text × Option Text)
  pub id : Option Text

-- The captures of a <CORSRule>; of MaxAgeSeconds, a run of digits.
pub record CorsBlock : Type 0 where
  pub origins : List Text
  pub methods : List Text
  pub headers : List Text
  pub expose : List Text
  pub max_age : Option Text

pub record Captures : Type 0 where
  pub rule_blocks : List RuleBlock
  pub cors_blocks : List CorsBlock
  pub tag_set_read : Option Tags

-- The body: over 1 MB, not of the given Content-MD5, or read.
pub data ConfigBody : Type 0 where
  config_too_large config_mismatch : ConfigBody
  config_read : Captures → ConfigBody

abbrev pub max_lifecycle_rules : ℕ
max_lifecycle_rules = 1000

abbrev pub max_cors_rules : ℕ
max_cors_rules = 100

abbrev pub max_age_cap_sec : ℕ
max_age_cap_sec = 86400

unfoldable pub is_status : Text → Bool
is_status s = text_eq s (codes "Enabled") || text_eq s (codes "Disabled")

-- A Filter without a Prefix has none.
unfoldable pub rule_prefix : RuleBlock → Option Text
rule_prefix b = elim b.filter_prefix [
  | none ↦ some (get_or_else b.bare_prefix [])
  | some inner ↦ inner
]

unfoldable pub rule_id : ℕ → Option Text → Option Text
rule_id i none = some (codes "rule-" ++ decimal_text (i + 1))
rule_id i (some id) = if text_eq id [] || not (leb (length id) 255) then none else some id

module _ (iso_day : Text → Option Text) where
  -- `/^\d{4}-\d{2}-\d{2}$/`, and that the day is its own ISO form: `iso_day` has the first ten
  -- characters of the ISO text of the day's midnight, or nothing for an invalid date.
  unfoldable pub is_calendar_day : Text → Bool
  is_calendar_day (a ∷ b ∷ c ∷ d ∷ dash ∷ e ∷ f ∷ dash' ∷ g ∷ h ∷ []) =
      let day = a ∷ b ∷ c ∷ d ∷ dash ∷ e ∷ f ∷ dash' ∷ g ∷ h ∷ [] in
      all is_digit (a ∷ b ∷ c ∷ d ∷ e ∷ f ∷ g ∷ h ∷ [])
      && dash == b'-'
      && dash' == b'-'
      && (elim (iso_day day) [ none ↦ false | some same ↦ text_eq same day ])
  is_calendar_day other = false

  -- Days or a date, not both.
  unfoldable pub rule_expiry : Option (Option Text × Option Text) → Option (Option ℕ × Option Text)
  unfolding is_calendar_day
  rule_expiry none = none
  rule_expiry (some (none, none)) = none
  rule_expiry (some (some days, some date)) = none
  rule_expiry (some (some days, none)) = elim (parse_nat days) [
    | none ↦ none
    | some n ↦ if leb 1 n then some (some n, none) else none
  ]
  rule_expiry (some (none, some date)) =
      if is_calendar_day (trim date) then some (none, some (trim date)) else none

  unfoldable pub lifecycle_rule : ℕ → RuleBlock → Option LifecycleRule
  unfolding rule_prefix rule_id rule_expiry
  lifecycle_rule i b = elim (rule_prefix b) [
    | none ↦ none
    | some p ↦ elim (rule_expiry b.expiration) [
      | none ↦ none
      | some (days, date) ↦ elim (rule_id i b.id) [
        | none ↦ none
        | some id ↦
            if is_status (get_or_else b.status [])
            then some (record {
              id = id;
              prefix = p;
              status = get_or_else b.status [];
              days = days;
              date = date;
            })
            else none
      ]
    ]
  ]

  unfoldable pub lifecycle_rules_from : ℕ → List RuleBlock → Option (List LifecycleRule)
  lifecycle_rules_from i [] = some []
  lifecycle_rules_from i (b ∷ bs) = elim (lifecycle_rule i b) [
    | none ↦ none
    | some rule ↦ elim (lifecycle_rules_from (i + 1) bs) [
      | none ↦ none
      | some rules ↦ some (rule ∷ rules)
    ]
  ]

  -- parseLifecycleXml
  unfoldable pub parse_lifecycle : List RuleBlock → Option (List LifecycleRule)
  unfolding lifecycle_rules_from
  parse_lifecycle bs =
      if length bs == 0 || ltb max_lifecycle_rules (length bs)
      then none
      else lifecycle_rules_from 0 bs

abbrev pub valid_methods : List Text
valid_methods =
    codes "GET"
    ∷ codes "HEAD"
    ∷ codes "PUT"
    ∷ codes "POST"
    ∷ codes "DELETE"
    ∷ codes "PATCH"
    ∷ codes "OPTIONS"
    ∷ []

unfoldable pub capped_age : Option Text → ℕ
capped_age none = 0
capped_age (some digits) = min (decimal digits) max_age_cap_sec

unfoldable pub cors_rule : CorsBlock → Option CorsRule
unfolding capped_age
cors_rule b =
    if length b.origins == 0 || length b.methods == 0
    then none
    else if not (all (λ m. includes m valid_methods) b.methods)
    then none
    else some (record {
      allowed_origins = b.origins;
      allowed_methods = b.methods;
      allowed_headers = b.headers;
      expose_headers = b.expose;
      max_age_seconds = capped_age b.max_age;
    })

unfoldable pub cors_rules_from : List CorsBlock → Option (List CorsRule)
unfolding cors_rule
cors_rules_from [] = some []
cors_rules_from (b ∷ bs) = elim (cors_rule b) [
  | none ↦ none
  | some rule ↦ elim (cors_rules_from bs) [ none ↦ none | some rules ↦ some (rule ∷ rules) ]
]

-- parseCorsXml
unfoldable pub parse_cors : List CorsBlock → Option (List CorsRule)
unfolding cors_rules_from
parse_cors bs =
    if length bs == 0 || ltb max_cors_rules (length bs) then none else cors_rules_from bs

-- `db.bucket.update` of the row that was found.
unfoldable pub set_bucket : Text → (Bucket → Bucket) → List Bucket → List Bucket
set_bucket name f [] = []
set_bucket name f (b ∷ bs) = if text_eq b.name name then f b ∷ bs else b ∷ set_bucket name f bs

unfoldable pub configured : Text → (Bucket → Bucket) → World → World
configured name f w = record w { buckets = set_bucket name f w.buckets }

abbrev pub malformed : Reply
malformed = failed 400 "MalformedXML"

module _ (iso_day : Text → Option Text) where
  -- The effect of a body by the subresource of the request: lifecycle before cors before tagging.
  unfoldable pub put_config : Request → Captures → World → World × Reply
  put_config r c w =
      if has_query r "lifecycle"
      then (elim (parse_lifecycle iso_day c.rule_blocks) [
        | none ↦ (w, malformed)
        | some rules ↦ (
          configured r.bucket_name (λ b. record b { lifecycle_rules = rules }) w,
          succeeded 200 none,
        )
      ])
      else if has_query r "cors"
      then (elim (parse_cors c.cors_blocks) [
        | none ↦ (w, malformed)
        | some rules ↦
            (configured r.bucket_name (λ b. record b { cors_rules = rules }) w, succeeded 200 none)
      ])
      else elim c.tag_set_read [
        | none ↦ (w, malformed)
        | some tags ↦ (
          configured r.bucket_name (λ b. record b { tags = serialize_tags tags }) w,
          succeeded 200 none,
        )
      ]

  unfoldable pub put_body : Request → ConfigBody → World → World × Reply
  unfolding put_config
  put_body r config_too_large w = (w, failed 413 "EntityTooLarge")
  put_body r config_mismatch w = (w, failed 400 "BadDigest")
  put_body r (config_read c) w = put_config r c w

  abbrev pub has_subresource : Request → Bool
  has_subresource r = has_query r "lifecycle" || has_query r "cors" || has_query r "tagging"

  -- PUT /s3/:bucket
  unfoldable pub put_bucket : Request → ConfigBody → World → World × Reply
  unfolding put_body
  put_bucket r body w = elim (find_bucket r.bucket_name w.buckets) [
    | none ↦ (w, failed 404 "NoSuchBucket")
    | some bucket ↦
        if refuses r write_access
        then (w, denied_reply)
        else if not (has_subresource r)
        then (w, failed 400 "InvalidRequest")
        else put_body r body w
  ]

  -- DELETE /s3/:bucket
  unfoldable pub reset_bucket : Request → World → World × Reply
  reset_bucket r w =
      let reset : Bucket → Bucket = λ b.
        if has_query r "lifecycle"
        then record b { lifecycle_rules = [] }
        else if has_query r "cors"
        then record b { cors_rules = [] }
        else record b { tags = none } in
      elim (find_bucket r.bucket_name w.buckets) [
        | none ↦ (w, failed 404 "NoSuchBucket")
        | some bucket ↦
            if refuses r write_access
            then (w, denied_reply)
            else if not (has_subresource r)
            then (w, failed 400 "InvalidRequest")
            else (configured r.bucket_name reset w, succeeded 204 none)
      ]

-- The status of GET /s3/:bucket for a subresource, the first of the route's list that the query has;
-- nothing where it has none and the objects are listed.
unfoldable pub subresource_reply : Request → Bucket → Option Reply
subresource_reply r b =
    if has_query r "versioning" || has_query r "acl"
    then some (succeeded 200 none)
    else if has_query r "cors"
    then some (
        if length b.cors_rules == 0 && text_eq b.cors_origins []
        then failed 404 "NoSuchCORSConfiguration"
        else succeeded 200 none)
    else if has_query r "policy"
    then some (failed 404 "NoSuchBucketPolicy")
    else if has_query r "tagging"
    then some (succeeded 200 none)
    else if has_query r "lifecycle"
    then some (
        if length b.lifecycle_rules == 0
        then failed 404 "NoSuchLifecycleConfiguration"
        else succeeded 200 none)
    else if has_query r "encryption"
    then some (failed 404 "ServerSideEncryptionConfigurationNotFoundError")
    else if has_query r "notification"
    then some (failed 404 "NotificationConfigurationNotFoundError")
    else if has_query r "replication" || has_query r "website"
    then some (failed 501 "NotImplemented")
    else none
