-- ===== src/Auth/S3Auth/Tests.antt =====
-- Runs of the authentication.
use r2storage.Auth.S3Auth.{
  KeyRow, SigningPrimitives, accepted, find_key, find_secret, parse_amz_date, sign_request,
  signing_key,
}
use r2storage.Auth.S3Auth.Canonical.{format_amz_date}
use r2storage.Auth.S3Auth.Presign.{generate_presigned_url}
use r2storage.Auth.S3Auth.RoundTrip.{UriEncoder, is_encoded, is_unreserved}
use r2storage.Auth.S3Auth.RoundTrip.Accepted.{
  authenticate_request-generate_presigned_url, opened_path, presigned_url, url_credential,
}
use r2storage.Auth.S3Auth.RoundTrip.Split.{all-append}
use r2storage.Auth.S3Auth.Soundness.{IsProven, authenticate_request-IsProven}
use r2storage.Auth.S3Auth.Verify.{AuthRequest, authenticate_request, verify_api_key}
use r2storage.Prelude.{
  Bool-cases, Text, [], all, any, arith, codes, decimal_from, false, if◌then◌else◌, inl, inr,
  is_digit, is_space, map, none, parse_int, pos, refl, some, text_eq, true, ℕ, ◌%◌, ◌++◌, ◌+◌, ◌==◌,
  ◌∷◌, ◌≡◌,
}
use r2storage.Range.Preconditions.{header}
use r2storage.Store.{Bytes}

abbrev plain_hex : Bytes → Text
plain_hex b = map (λ c. b'a' + c % 6) b

abbrev primitives : SigningPrimitives
primitives = record {
  hmac_sha256 = λ key message. key ++ message;
  sha256_hex = λ t. t;
  bytes_sha256_hex = λ b. b;
  utf8 = λ t. t;
  hex = plain_hex;
  from_hex = λ t. t;
  date_utc = λ year month day hour minute second. some (pos 5000);
  date_iso = λ t. none;
}

plain_hex-lacks : (b : Bytes) → any (λ c. c == b'&') (plain_hex b) ≡ false
plain_hex-lacks [] = refl
plain_hex-lacks (c ∷ b) =
    let apart : (b'a' + c % 6 == b'&') ≡ false = ground arith in rw (apart, plain_hex-lacks b) refl

abbrev percent_encode : Text → Text
percent_encode [] = []
percent_encode (c ∷ s) =
    if is_unreserved c then c ∷ percent_encode s else codes "%2F" ++ percent_encode s

percent_encode-keeps : (t : Text) → all is_unreserved t ≡ true → percent_encode t ≡ t
percent_encode-keeps [] h = refl
percent_encode-keeps (c ∷ t) h = elim (Bool-cases (is_unreserved c)) [
  | inl e ↦ rw (e, percent_encode-keeps t (rw e at h)) refl
  | inr e ↦ absurd (cc (rw e at h))
]

percent_encoded-encoded : all is_encoded (codes "%2F") ≡ true
unfolding is_digit
percent_encoded-encoded = refl

unreserved-encoded : (c : ℕ) → is_unreserved c ≡ true → all is_encoded (c ∷ []) ≡ true
unreserved-encoded c h = rw h refl

percent_encode-gives : (t : Text) → all is_encoded (percent_encode t) ≡ true
percent_encode-gives [] = refl
percent_encode-gives (c ∷ t) = elim (Bool-cases (is_unreserved c)) [
  | inl e ↦ rw e (
      all-append is_encoded (c ∷ []) (percent_encode t) (unreserved-encoded c e)
        (percent_encode-gives t))
  | inr e ↦ rw e (
      all-append is_encoded (codes "%2F") (percent_encode t) percent_encoded-encoded
        (percent_encode-gives t))
]

abbrev encoder : UriEncoder
encoder = record {
  encode = percent_encode;
  keeps = percent_encode-keeps;
  gives = percent_encode-gives;
}

abbrev reader : KeyRow
reader = record {
  access_key_id = codes "r2_a";
  secret_access_key = codes "s1";
  permission = codes "READ_ONLY";
  bucket_filter = none;
}

abbrev download : AuthRequest
download = record {
  headers = (codes "host", codes "h") ∷ [];
  query =
      (
        codes "X-Amz-Credential",
        url_credential primitives encoder (codes "h") (codes "b") (codes "k")
            (codes "2026-01-02T03:04:05.000Z") (codes "60") reader,
      )
      ∷ (codes "X-Amz-Date", codes "20260102T030405Z")
      ∷ (codes "X-Amz-Expires", codes "60")
      ∷ (
        codes "X-Amz-Signature",
        (presigned_url primitives encoder (codes "h") (codes "b") (codes "k")
            (codes "2026-01-02T03:04:05.000Z") (codes "60") reader).signature,
      )
      ∷ [];
  verb = codes "GET";
  path =
      opened_path primitives encoder (codes "h") (codes "b") (codes "k")
        (codes "2026-01-02T03:04:05.000Z") (codes "60") reader;
}

authenticate_request-generate_presigned_url_example :
    authenticate_request primitives (reader ∷ []) 6000 download ≡ accepted reader none
unfolding header text_eq format_amz_date is_digit generate_presigned_url sign_request signing_key
    find_key parse_amz_date parse_int is_space decimal_from
authenticate_request-generate_presigned_url_example =
    authenticate_request-generate_presigned_url primitives encoder (codes "h") (codes "b")
      (codes "k") (codes "2026-01-02T03:04:05.000Z") (codes "60") reader (reader ∷ []) 6000 5000 60
      download refl refl refl refl refl refl refl refl refl refl plain_hex-lacks refl refl
      (omega arith) (omega arith)

abbrev keyed : AuthRequest
keyed = record {
  headers = (codes "x-api-key", codes "s1") ∷ [];
  query = [];
  verb = codes "GET";
  path = codes "/s3/b";
}

authenticate_request-IsProven_example : IsProven primitives (reader ∷ []) 6000 keyed reader
unfolding authenticate_request header text_eq verify_api_key find_secret
authenticate_request-IsProven_example =
    authenticate_request-IsProven primitives (reader ∷ []) 6000 keyed reader none refl
