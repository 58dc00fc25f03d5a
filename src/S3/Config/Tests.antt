-- ===== src/S3/Config/Tests.antt =====
-- Runs of the bucket configuration routes.
use r2storage.Prelude.{
  Option, Text, [], codes, decimal_from, is_space, none, parse_nat, refl, some, text_eq, ◌∷◌, ◌≡◌,
}
use r2storage.S3.{Request, whole}
use r2storage.S3.Config.{Captures, config_read, is_status, lifecycle_rule, put_bucket, reset_bucket}
use r2storage.S3.Config.Soundness.{SoundRules, is_sound_bucket, put_bucket-SoundRules}
use r2storage.S3.Cors.{decimal_text_fuel}
use r2storage.S3.Tests.{b1, master_key, one_object}

abbrev expire_weekly : Captures
expire_weekly = record {
  rule_blocks =
      record {
        status = some (codes "Enabled");
        filter_prefix = some (some (codes "tmp/"));
        bare_prefix = some (codes "tmp/");
        expiration = some (some (codes "7"), none);
        id = none;
      }
      ∷ [];
  cors_blocks = [];
  tag_set_read = none;
}

abbrev lifecycle_request : Request
lifecycle_request = record {
  bucket_name = b1;
  key = [];
  query = (codes "lifecycle", []) ∷ [];
  headers = [];
  auth = master_key;
  body = whole [] none;
}

abbrev no_day : Text → Option Text
no_day t = none

put_bucket-SoundRules_example :
    SoundRules no_day (put_bucket no_day lifecycle_request (config_read expire_weekly) one_object).0
    × SoundRules no_day (reset_bucket no_day lifecycle_request one_object).0
unfolding is_sound_bucket
put_bucket-SoundRules_example =
    put_bucket-SoundRules no_day lifecycle_request one_object (config_read expire_weekly) refl

-- The rule that is stored.
weekly_rule :
    lifecycle_rule no_day 0 (record {
      status = some (codes "Enabled");
      filter_prefix = some (some (codes "tmp/"));
      bare_prefix = none;
      expiration = some (some (codes "7"), none);
      id = none;
    })
    ≡ some (record {
      id = codes "rule-1";
      prefix = codes "tmp/";
      status = codes "Enabled";
      days = some 7;
      date = none;
    })
unfolding lifecycle_rule parse_nat is_space decimal_from is_status text_eq decimal_text_fuel
weekly_rule = refl
