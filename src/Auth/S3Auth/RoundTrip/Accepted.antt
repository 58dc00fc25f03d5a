-- ===== src/Auth/S3Auth/RoundTrip/Accepted.antt =====
-- A request with a generated URL is accepted until the URL expires.
use r2storage.Auth.S3Auth.{
  CredentialScope, KeyRow, SigningPrimitives, accepted, find_key, parse_amz_date,
  parse_credential_scope, scope_of_parts, scope_text, sign_request, signatures_match, signing_key,
  slice,
}
use r2storage.Auth.S3Auth.Canonical.{
  canonical_query_string, canonical_uri_candidates, format_amz_date, signed_query,
}
use r2storage.Auth.S3Auth.Presign.{PresignedUrl, generate_presigned_url, presigned_path, uri_encode}
use r2storage.Auth.S3Auth.RoundTrip.{UriEncoder}
use r2storage.Auth.S3Auth.RoundTrip.Query.{canonical_query-url, raw_parts-presigned}
use r2storage.Auth.S3Auth.RoundTrip.Split.{split-append, split-join}
use r2storage.Auth.S3Auth.Verify.{
  AuthRequest, any_candidate_signed, authenticate_request, canonical_request, date_or_undefined,
  is_past, presigned_outcome, presigned_request, presigned_time_refused, raw_parts, too_far_ahead,
  verify_presigned_signature,
}
use r2storage.Prelude.{
  Bool-cases, List, Option-cases, String, Text, [], any, ap, arith, codes, drop, false, inl, inr,
  join, ltb, map, none, parse_int, pos, refl, some, some_inj, split, starts_with, strip_prefix,
  subst, text_eq, text_eq_refl, true, ℕ, ◌*◌, ◌++◌, ◌+◌, ◌==◌, ◌∙◌, ◌∷◌, ◌≡◌, ◌≤◌,
}
use r2storage.Range.Preconditions.{Headers, header, lookup_text, nonempty, raw_header}
use r2storage.Store.{Bytes}

presigned_request-parts :
    (r : AuthRequest) (uri verb path query host : Text)
    → r.verb ≡ verb
    → raw_parts r.path ≡ (path, query)
    → header r.headers "host" ≡ some host
    → presigned_request r uri
      ≡ canonical_request verb uri
          (canonical_query_string (signed_query query))
          (codes "host:" ++ host ++ (10 ∷ []))
          (codes "host")
          (codes "UNSIGNED-PAYLOAD")
unfolding presigned_request
presigned_request-parts r uri verb path query host h h' h'' = rw (h, h', h'') refl

header-nonempty :
    (h : Headers) (name : String) (v : Text) → header h name ≡ some v → text_eq v [] ≡ false
unfolding header nonempty
header-nonempty h name v e = elim (Option-cases (lookup_text (codes name) h)) [
  | inl missing ↦ absurd (cc (rw missing at e))
  | inr (w, found) ↦ elim (Bool-cases (text_eq w [])) [
    | inl blank ↦ absurd (cc (rw (found, blank, nonempty) at e))
    | inr present ↦
        subst (λ x. text_eq x [] ≡ false) (some_inj (rw (found, present, nonempty) at e)) present
  ]
]

header-raw_header :
    (h : Headers) (name : String) (v : Text) → header h name ≡ some v → raw_header h name ≡ some v
unfolding header nonempty raw_header
header-raw_header h name v e = elim (Option-cases (lookup_text (codes name) h)) [
  | inl missing ↦ absurd (cc (rw missing at e))
  | inr (w, found) ↦ elim (Bool-cases (text_eq w [])) [
    | inl blank ↦ absurd (cc (rw (found, blank, nonempty) at e))
    | inr present ↦ found ∙ (rw (found, present, nonempty) at e)
  ]
]

parse_credential_scope-join :
    (id date : Text)
    → any (λ c. c == b'/') id ≡ false
    → any (λ c. c == b'/') date ≡ false
    → parse_credential_scope (id ++ (b'/' ∷ scope_text date (codes "us-east-1")))
      ≡ some (record {
        access_key_id = id;
        date_stamp = date;
        region = codes "us-east-1";
        service = codes "s3";
      })
unfolding parse_credential_scope scope_of_parts scope_text text_eq
parse_credential_scope-join id date h h' =
    rw
      (
        split-append b'/' id (scope_text date (codes "us-east-1")) h,
        split-join b'/' date (codes "us-east-1" ∷ codes "s3" ∷ codes "aws4_request" ∷ [])
            (h', (refl, (refl, (refl, tt)))),
      )
      refl

ltb-false : (a b : ℕ) → b ≤ a → ltb a b ≡ false
ltb-false a b h = ground arith

presigned_time_refused-within :
    (crypto : SigningPrimitives) (now t e : ℕ) (expires date : Text)
    → parse_amz_date crypto date ≡ some (pos t)
    → parse_int expires ≡ some (pos e)
    → t ≤ now + 900000
    → now ≤ t + e * 1000
    → presigned_time_refused crypto now (some expires) (some date) ≡ false
unfolding presigned_time_refused too_far_ahead is_past
presigned_time_refused-within crypto now t e expires date dated timed early late =
    rw
      (
        dated,
        timed,
        ltb-false (now + 900000) t early,
        ltb-false (t + e * 1000) now late,
        presigned_time_refused,
      )
      refl

presigned_outcome-accepted :
    (crypto : SigningPrimitives) (now : ℕ) (r : AuthRequest) (scope : CredentialScope)
    (row : KeyRow) (signature date expires path query : Text)
    → header r.query "X-Amz-Date" ≡ some date
    → header r.query "X-Amz-Expires" ≡ some expires
    → raw_parts r.path ≡ (path, query)
    → presigned_time_refused crypto now (some expires) (some date) ≡ false
    → any_candidate_signed crypto
        (signing_key crypto row.secret_access_key scope.date_stamp)
        date
        (scope_text scope.date_stamp scope.region)
        signature
        (presigned_request r)
        (canonical_uri_candidates path)
      ≡ true
    → presigned_outcome crypto now r scope row signature ≡ accepted row none
unfolding presigned_outcome date_or_undefined
presigned_outcome-accepted crypto now r scope row signature date expires path query h h' parts
      timely found =
    rw (h, h', timely, header-raw_header r.query "X-Amz-Date" date h, parts, found) refl

canonical_uri_candidates-s3 :
    (path : Text)
    → canonical_uri_candidates (codes "/s3/" ++ path)
      ≡ (codes "/s3/" ++ path) ∷ drop 3 (codes "/s3/" ++ path) ∷ []
unfolding canonical_uri_candidates starts_with strip_prefix
canonical_uri_candidates-s3 path = refl

module _ (crypto : SigningPrimitives) (enc : UriEncoder) (host bucket k iso expires : Text)
    (row : KeyRow) where
  abbrev pub presigned_url : PresignedUrl
  presigned_url = generate_presigned_url crypto enc.encode host bucket k row iso expires

  abbrev pub url_credential : Text
  url_credential =
      row.access_key_id ++ (b'/' ∷ scope_text (slice 0 8 (format_amz_date iso)) (codes "us-east-1"))

  -- A GET of the URL.
  abbrev pub opened_path : Text
  opened_path =
      presigned_url.s3_path
      ++ (b'?' ∷ presigned_url.canonical_query
          ++ (b'&' ∷ codes "X-Amz-Signature=" ++ presigned_url.signature))

  opened_parts : raw_parts opened_path ≡ (
    presigned_url.s3_path,
    presigned_url.canonical_query ++ (b'&' ∷ codes "X-Amz-Signature=" ++ presigned_url.signature),
  )
  unfolding generate_presigned_url
  opened_parts = raw_parts-presigned enc bucket k (
      presigned_url.canonical_query ++ (b'&' ∷ codes "X-Amz-Signature=" ++ presigned_url.signature))

  abbrev url_key : Bytes
  url_key = signing_key crypto row.secret_access_key (slice 0 8 (format_amz_date iso))

  abbrev url_scope : Text
  url_scope = scope_text (slice 0 8 (format_amz_date iso)) (codes "us-east-1")

  abbrev url_request : Text → Text
  url_request query =
      canonical_request (codes "GET") presigned_url.s3_path query
        (codes "host:" ++ host ++ (10 ∷ [])) (codes "host") (codes "UNSIGNED-PAYLOAD")

  any_candidate-first :
      (r : AuthRequest)
      → presigned_request r presigned_url.s3_path ≡ url_request presigned_url.canonical_query
      → any_candidate_signed crypto url_key
          (format_amz_date iso)
          url_scope
          presigned_url.signature
          (presigned_request r)
          (canonical_uri_candidates presigned_url.s3_path)
        ≡ true
  unfolding any_candidate_signed signatures_match generate_presigned_url presigned_path
  any_candidate-first r h =
      rw
        (
          canonical_uri_candidates-s3
              (join b'/' (map (uri_encode enc.encode) (bucket ∷ split b'/' k))),
          h,
          text_eq_refl (crypto.from_hex presigned_url.signature),
        )
        refl

  -- A GET of a generated URL is accepted as the row's holder where the request's query decodes to the
  -- values that the URL was made of, the Host header is the URL's, the row is the one of its id, no
  -- slash stands in the id or the date, hexadecimal text holds no ampersand, and the clock is neither
  -- more than 15 minutes before the URL's date nor past its lifetime.
  pub authenticate_request-generate_presigned_url :
      (keys : List KeyRow) (now t e : ℕ) (r : AuthRequest)
      → r.verb ≡ codes "GET"
      → r.path ≡ opened_path
      → header r.headers "host" ≡ some host
      → header r.query "X-Amz-Credential" ≡ some url_credential
      → header r.query "X-Amz-Date" ≡ some (format_amz_date iso)
      → header r.query "X-Amz-Expires" ≡ some expires
      → header r.query "X-Amz-Signature" ≡ some presigned_url.signature
      → find_key row.access_key_id keys ≡ some row
      → any (λ c. c == b'/') row.access_key_id ≡ false
      → any (λ c. c == b'/') (slice 0 8 (format_amz_date iso)) ≡ false
      → ((b : Bytes) → any (λ c. c == b'&') (crypto.hex b) ≡ false)
      → parse_amz_date crypto (format_amz_date iso) ≡ some (pos t)
      → parse_int expires ≡ some (pos e)
      → t ≤ now + 900000
      → now ≤ t + e * 1000
      → authenticate_request crypto keys now r ≡ accepted row none
  unfolding authenticate_request generate_presigned_url sign_request
  authenticate_request-generate_presigned_url keys now t e r verb path from credential date lifetime
        signature known id_plain date_plain hex dated timed early late =
      let parsed =
        parse_credential_scope-join row.access_key_id (slice 0 8 (format_amz_date iso)) id_plain
          date_plain in
      let parts : raw_parts r.path ≡ (
        presigned_url.s3_path,
        presigned_url.canonical_query
            ++ (b'&' ∷ codes "X-Amz-Signature=" ++ presigned_url.signature),
      ) =
        ap raw_parts path ∙ opened_parts in
      let timely =
        presigned_time_refused-within crypto now t e expires (format_amz_date iso) dated timed early
          late in
      let requested =
        presigned_request-parts r presigned_url.s3_path (codes "GET") presigned_url.s3_path
          (presigned_url.canonical_query
            ++ (b'&' ∷ codes "X-Amz-Signature=" ++ presigned_url.signature))
          host verb parts from in
      let signed_query_kept =
        canonical_query-url enc url_credential (format_amz_date iso) expires presigned_url.signature
          (header-nonempty r.query "X-Amz-Credential" url_credential credential)
          (header-nonempty r.query "X-Amz-Date" (format_amz_date iso) date)
          (header-nonempty r.query "X-Amz-Expires" expires lifetime) (hex _) in
      let found = any_candidate-first r (requested ∙ ap url_request signed_query_kept) in
      let outcome =
        presigned_outcome-accepted crypto now r
          (record {
            access_key_id = row.access_key_id;
            date_stamp = slice 0 8 (format_amz_date iso);
            region = codes "us-east-1";
            service = codes "s3";
          })
          row presigned_url.signature (format_amz_date iso) expires presigned_url.s3_path
          (presigned_url.canonical_query
            ++ (b'&' ∷ codes "X-Amz-Signature=" ++ presigned_url.signature))
          date lifetime parts timely found in
      let verified : verify_presigned_signature crypto keys now r ≡ some (accepted row none) =
        rw (credential, signature, parsed, known, verify_presigned_signature) (ap some outcome) in
      rw (verified, authenticate_request) refl
