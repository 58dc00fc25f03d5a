-- ===== src/Auth/S3Auth/Verify.antt =====
-- backend/src/auth/s3auth.ts: authenticateRequest with its presigned URLs, Authorization headers and
-- plain credential headers. The clock is read once.
use r2storage.Auth.Login.{secrets_equal}
use r2storage.Auth.S3Auth.{
  AuthOutcome, CredentialScope, KeyRow, Rejection, SigningPrimitives, Streaming, accepted,
  expired_url, find_key, find_secret, host_not_signed, invalid_access_key_id, invalid_credentials,
  malformed_header, malformed_scope, missing_credentials, missing_timestamp, parse_amz_date,
  parse_credential_scope, rejected, request_skew_ms, scope_text, sign_request, signature_mismatch,
  signatures_match, signing_key, skewed_timestamp,
}
use r2storage.Auth.S3Auth.Canonical.{
  build_canonical_headers, canonical_query_string, canonical_uri_candidates, format_amz_date,
  is_hex, is_token, match_after, signed_names, signed_query,
}
use r2storage.Prelude.{
  Bool, List, Option, Text, [], any, codes, false, get_or_else, if◌then◌else◌, join, lower, ltb,
  negsuc, none, not, parse_int, pos, some, starts_with, text_eq, true, ℕ, ℤ, ◌*◌, ◌++◌, ◌+◌, ◌-◌,
  ◌||◌, ◌∷◌,
}
use r2storage.Range.Preconditions.{Headers, header, raw_header}
use r2storage.S3.Chunked.{cut_at}
use r2storage.Store.{Bytes}

pub record AuthRequest : Type 0 where
  pub headers : Headers
  pub query : List (Text × Text)
  pub verb : Text
  pub path : Text

-- `reqTime - Date.now() > REQUEST_SKEW_MS`
unfoldable pub too_far_ahead : ℕ → ℤ → Bool
too_far_ahead now (pos t) = ltb (now + request_skew_ms) t
too_far_ahead now (negsuc t) = false

-- `Date.now() > reqTime + expiresSeconds * 1000`, which is false for NaN.
unfoldable pub is_past : ℕ → ℤ → Option ℤ → Bool
is_past now t none = false
is_past now (pos t) (some (pos e)) = ltb (t + e * 1000) now
is_past now (pos t) (some (negsuc e)) = ltb t (now + (e + 1) * 1000)
is_past now (negsuc t) (some (pos e)) = ltb (e * 1000) (now + (t + 1))
is_past now (negsuc t) (some (negsuc e)) = true

-- `Math.abs(Date.now() - reqTime) > REQUEST_SKEW_MS`
unfoldable pub is_skewed : ℕ → ℤ → Bool
is_skewed now (pos t) = ltb request_skew_ms (now - t) || ltb request_skew_ms (t - now)
is_skewed now (negsuc t) = ltb request_skew_ms (now + (t + 1))

-- The path without its query, and the query.
unfoldable pub raw_parts : Text → Text × Text
raw_parts path =
    let (raw_path, raw_query) = cut_at b'?' path in (raw_path, get_or_else raw_query [])

-- The three parts of an Authorization header.
unfoldable pub authorization_parts : Text → Option (Text × Text × Text)
authorization_parts value = elim (match_after (λ c. c) (codes "Credential=") is_token value) [
  | none ↦ none
  | some credential ↦ elim (match_after (λ c. c) (codes "SignedHeaders=") is_token value) [
    | none ↦ none
    | some names ↦ elim (match_after lower (codes "Signature=") is_hex value) [
      | none ↦ none
      | some signature ↦ some (credential, names, signature)
    ]
  ]
]

unfoldable pub authorization_header : Headers → Option Text
authorization_header h = elim (header h "authorization") [
  | some v ↦ some v
  | none ↦ header h "Authorization"
]

-- The requests that a route would sign for each form of the path.
unfoldable pub canonical_request : Text → Text → Text → Text → Text → Text → Text
canonical_request verb uri query headers names payload_hash =
    join 10 (verb ∷ uri ∷ query ∷ headers ∷ names ∷ payload_hash ∷ [])

-- The text that `${amzDate}` gives for a parameter that may be missing.
unfoldable pub date_or_undefined : Option Text → Text
date_or_undefined date = get_or_else date (codes "undefined")

unfoldable pub presigned_request : AuthRequest → Text → Text
unfolding canonical_request
presigned_request r uri =
    canonical_request r.verb uri (canonical_query_string (signed_query (raw_parts r.path).1))
      (codes "host:" ++ get_or_else (header r.headers "host") [] ++ (10 ∷ [])) (codes "host")
      (codes "UNSIGNED-PAYLOAD")

unfoldable pub header_request : AuthRequest → List Text → Text → Text → Text
unfolding canonical_request
header_request r names payload_hash uri =
    canonical_request r.verb uri (canonical_query_string (raw_parts r.path).1)
      (build_canonical_headers r.headers names) (join b';' names) payload_hash

-- What the decoder of an aws-chunked body is given.
streaming_of : Text → Bytes → Text → Text → Text → Option Streaming
streaming_of payload_hash key amz_date scope_str signature =
    if starts_with (codes "STREAMING-") payload_hash
    then some (record {
      signing_key = key;
      amz_date = amz_date;
      scope_str = scope_str;
      seed_signature = signature;
    })
    else none

unfoldable pub api_key_secret : Headers → Option Text
api_key_secret h = elim (header h "x-access-key-secret") [
  | some v ↦ some v
  | none ↦ header h "x-api-key"
]

module _ (crypto : SigningPrimitives) where
  -- Whether one of the candidates carries the signature.
  unfoldable pub any_candidate_signed :
      Bytes → Text → Text → Text → (Text → Text) → List Text → Bool
  any_candidate_signed key amz_date scope_str signature request_of [] = false
  any_candidate_signed key amz_date scope_str signature request_of (uri ∷ uris) =
      signatures_match crypto (sign_request crypto key amz_date scope_str (request_of uri))
        signature
      || any_candidate_signed key amz_date scope_str signature request_of uris

  -- x-amz-date, or the date header in its form; the empty text where there is neither.
  unfoldable pub request_date : Headers → Text
  request_date h = elim (header h "x-amz-date") [
    | some v ↦ v
    | none ↦ elim (crypto.date_iso (get_or_else (header h "date") [])) [
      | none ↦ []
      | some iso ↦ format_amz_date iso
    ]
  ]

module _ (crypto : SigningPrimitives) (now : ℕ) where
  unfoldable pub presigned_time_refused : Option Text → Option Text → Bool
  unfolding too_far_ahead is_past
  presigned_time_refused (some expires) (some date) = elim (parse_amz_date crypto date) [
    | none ↦ true
    | some t ↦ too_far_ahead now t || is_past now t (parse_int expires)
  ]
  presigned_time_refused other wise = false

  unfoldable pub presigned_outcome : AuthRequest → CredentialScope → KeyRow → Text → AuthOutcome
  unfolding presigned_time_refused
  presigned_outcome r scope row signature =
      if presigned_time_refused (header r.query "X-Amz-Expires") (header r.query "X-Amz-Date")
      then rejected expired_url
      else if any_candidate_signed crypto
          (signing_key crypto row.secret_access_key scope.date_stamp)
          (date_or_undefined (raw_header r.query "X-Amz-Date"))
          (scope_text scope.date_stamp scope.region) signature (presigned_request r)
          (canonical_uri_candidates (raw_parts r.path).0)
      then accepted row none
      else rejected signature_mismatch

  unfoldable pub timestamp_refused : Text → Option Rejection
  unfolding is_skewed
  timestamp_refused date =
      if text_eq date [] then some missing_timestamp else elim (parse_amz_date crypto date) [
        | none ↦ some skewed_timestamp
        | some t ↦ if is_skewed now t then some skewed_timestamp else none
      ]

  unfoldable pub header_outcome :
      AuthRequest → CredentialScope → KeyRow → List Text → Text → AuthOutcome
  unfolding request_date streaming_of timestamp_refused
  header_outcome r scope row names signature =
      let amz_date = request_date crypto r.headers in
      let payload_hash =
        get_or_else (header r.headers "x-amz-content-sha256") (codes "UNSIGNED-PAYLOAD") in
      let key = signing_key crypto row.secret_access_key scope.date_stamp in
      let scope_str = scope_text scope.date_stamp scope.region in
      if not (any (text_eq (codes "host")) names)
      then rejected host_not_signed
      else elim (timestamp_refused amz_date) [
        | some e ↦ rejected e
        | none ↦
            if any_candidate_signed crypto key amz_date scope_str signature
              (header_request r names payload_hash) (canonical_uri_candidates (raw_parts r.path).0)
            then accepted row (streaming_of payload_hash key amz_date scope_str signature)
            else rejected signature_mismatch
      ]

module _ (keys : List KeyRow) where
  -- The convenience headers: a secret with its id, or a secret alone.
  unfoldable pub verify_api_key : Option Text → Option Text → AuthOutcome
  unfolding secrets_equal
  verify_api_key id none = rejected missing_credentials
  verify_api_key (some id) (some secret) = elim (find_key id keys) [
    | none ↦ rejected invalid_credentials
    | some row ↦
        if secrets_equal secret row.secret_access_key
        then accepted row none
        else rejected invalid_credentials
  ]
  verify_api_key none (some secret) = elim (find_secret secret keys) [
    | none ↦ rejected invalid_credentials
    | some row ↦ accepted row none
  ]

module _ (crypto : SigningPrimitives) (keys : List KeyRow) (now : ℕ) where
  -- Nothing where the request carries no presigned credential.
  unfoldable pub verify_presigned_signature : AuthRequest → Option AuthOutcome
  verify_presigned_signature r = elim (header r.query "X-Amz-Credential") [
    | none ↦ none
    | some credential ↦ elim (header r.query "X-Amz-Signature") [
      | none ↦ none
      | some signature ↦ elim (parse_credential_scope credential) [
        | none ↦ some (rejected malformed_scope)
        | some scope ↦ elim (find_key scope.access_key_id keys) [
          | none ↦ some (rejected invalid_access_key_id)
          | some row ↦ some (presigned_outcome crypto now r scope row signature)
        ]
      ]
    ]
  ]

  unfoldable pub parts_outcome : AuthRequest → Text × Text × Text → AuthOutcome
  parts_outcome r (credential, names, signature) = elim (parse_credential_scope credential) [
    | none ↦ rejected malformed_scope
    | some scope ↦ elim (find_key scope.access_key_id keys) [
      | none ↦ rejected invalid_access_key_id
      | some row ↦ header_outcome crypto now r scope row (signed_names names) signature
    ]
  ]

  -- Nothing where there is no Authorization header of the scheme.
  unfoldable pub verify_header_signature : AuthRequest → Option AuthOutcome
  unfolding authorization_parts authorization_header
  verify_header_signature r = elim (authorization_header r.headers) [
    | none ↦ none
    | some value ↦
        if not (starts_with (codes "AWS4-HMAC-SHA256") value)
        then none
        else elim (authorization_parts value) [
          | none ↦ some (rejected malformed_header)
          | some parts ↦ some (parts_outcome r parts)
        ]
  ]

  unfoldable pub authenticate_request : AuthRequest → AuthOutcome
  unfolding verify_header_signature verify_presigned_signature api_key_secret
  authenticate_request r = elim (verify_presigned_signature r) [
    | some outcome ↦ outcome
    | none ↦ elim (verify_header_signature r) [
      | some outcome ↦ outcome
      | none ↦ verify_api_key keys (header r.headers "x-access-key-id") (api_key_secret r.headers)
    ]
  ]
