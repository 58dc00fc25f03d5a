-- ===== src/Auth/S3Auth.antt =====
-- backend/src/auth/s3auth.ts: who a request of the S3 API comes from. The HMAC, the hash, the codecs
-- of `Buffer`, `Date.UTC` and `new Date(text).toISOString()` are parameters. A credential with the
-- code of its rejection stands for the texts of `error`.
pub mod Canonical
pub mod Verify
pub mod Presign
pub mod Soundness
pub mod RoundTrip
mod Tests
use mathlib.Core.List.{reverse}
use r2storage.Prelude.{
  Bool, List, Option, Text, [], codes, drop, false, if◌then◌else◌, join, none, parse_int, pos,
  pred_ℤ, some, split, take, text_eq, true, ℕ, ℤ, ◌++◌, ◌-◌, ◌∷◌,
}
use r2storage.S3.{AuthResult}
use r2storage.Store.{Bytes}

pub record SigningPrimitives : Type 0 where
  pub hmac_sha256 : Bytes → Bytes → Bytes
  pub sha256_hex : Text → Text
  pub bytes_sha256_hex : Bytes → Text
  pub utf8 : Text → Bytes
  pub hex : Bytes → Text
  pub from_hex : Text → Bytes
  pub date_utc : Option ℤ → Option ℤ → Option ℤ → Option ℤ → Option ℤ → Option ℤ → Option ℤ
  pub date_iso : Text → Option Text

-- The columns of AccessKey that authentication reads.
pub record KeyRow : Type 0 where
  pub access_key_id : Text
  pub secret_access_key : Text
  pub permission : Text
  pub bucket_filter : Option Text

pub record Streaming : Type 0 where
  pub signing_key : Bytes
  pub amz_date : Text
  pub scope_str : Text
  pub seed_signature : Text

pub data Rejection : Type 0 where
  malformed_scope invalid_access_key_id expired_url signature_mismatch : Rejection
  malformed_header host_not_signed missing_timestamp skewed_timestamp : Rejection
  invalid_credentials missing_credentials : Rejection

-- An AuthResult, by its field `authenticated`.
pub data AuthOutcome : Type 0 where
  rejected : Rejection → AuthOutcome
  accepted : KeyRow → Option Streaming → AuthOutcome

-- What the S3 routes read of the result.
unfoldable pub auth_result : AuthOutcome → AuthResult
auth_result (rejected e) = record { authenticated = false; permission = []; bucket_filter = none }
auth_result (accepted k streaming) = record {
  authenticated = true;
  permission = k.permission;
  bucket_filter = k.bucket_filter;
}

-- db.accessKey.findUnique by id, and findFirst by secret.
unfoldable pub find_key : Text → List KeyRow → Option KeyRow
find_key id [] = none
find_key id (k ∷ ks) = if text_eq k.access_key_id id then some k else find_key id ks

unfoldable pub find_secret : Text → List KeyRow → Option KeyRow
find_secret secret [] = none
find_secret secret (k ∷ ks) =
    if text_eq k.secret_access_key secret then some k else find_secret secret ks

abbrev pub request_skew_ms : ℕ
request_skew_ms = 900000

pub record CredentialScope : Type 0 where
  pub access_key_id : Text
  pub date_stamp : Text
  pub region : Text
  pub service : Text

unfoldable pub scope_of_parts : List Text → Option CredentialScope
scope_of_parts (id ∷ date ∷ region ∷ service ∷ terminator ∷ []) =
    if text_eq service (codes "s3")
    then some (record { access_key_id = id; date_stamp = date; region = region; service = service })
    else none
scope_of_parts other = none

unfoldable pub parse_credential_scope : Text → Option CredentialScope
unfolding scope_of_parts split
parse_credential_scope credential = scope_of_parts (split b'/' credential)

-- `${dateStamp}/${region}/s3/aws4_request`
unfoldable pub scope_text : Text → Text → Text
unfolding join
scope_text date region = join b'/' (date ∷ region ∷ codes "s3" ∷ codes "aws4_request" ∷ [])

abbrev pub slice : ℕ → ℕ → Text → Text
slice a b t = take (b - a) (drop a t)

-- `parseInt(t) || 0`
or_zero : Option ℤ → Option ℤ
or_zero none = some (pos 0)
or_zero (some n) = some n

month_index : Option ℤ → Option ℤ
month_index none = none
month_index (some n) = some (pred_ℤ n)

module _ (crypto : SigningPrimitives) where
  hmac : Bytes → Text → Bytes
  hmac key input = crypto.hmac_sha256 key (crypto.utf8 input)

  unfoldable pub signing_key : Text → Text → Bytes
  unfolding hmac
  signing_key secret date_stamp =
      let k_date = hmac (crypto.utf8 (codes "AWS4" ++ secret)) date_stamp in
      let k_region = hmac k_date (codes "us-east-1") in
      let k_service = hmac k_region (codes "s3") in hmac k_service (codes "aws4_request")

  unfoldable pub signatures_match : Text → Text → Bool
  signatures_match a b = text_eq (crypto.from_hex a) (crypto.from_hex b)

  -- The text of `stringToSign`, and its signature under a key.
  string_to_sign : Text → Text → Text → Text
  string_to_sign amz_date scope_str canonical_request =
      join 10
        (codes "AWS4-HMAC-SHA256" ∷ amz_date ∷ scope_str ∷ crypto.sha256_hex canonical_request ∷ [])

  unfoldable pub sign_request : Bytes → Text → Text → Text → Text
  unfolding hmac string_to_sign
  sign_request key amz_date scope_str canonical_request =
      crypto.hex (hmac key (string_to_sign amz_date scope_str canonical_request))

  -- Milliseconds since 1970, or nothing for NaN.
  unfoldable pub parse_amz_date : Text → Option ℤ
  unfolding or_zero month_index
  parse_amz_date t =
      crypto.date_utc (parse_int (slice 0 4 t)) (month_index (parse_int (slice 4 6 t)))
        (parse_int (slice 6 8 t)) (or_zero (parse_int (slice 9 11 t)))
        (or_zero (parse_int (slice 11 13 t))) (or_zero (parse_int (slice 13 15 t)))
