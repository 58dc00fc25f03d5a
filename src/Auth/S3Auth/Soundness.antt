-- ===== src/Auth/S3Auth/Soundness.antt =====
-- What an accepted request has shown: a row of AccessKey and its secret.
use r2storage.Auth.Login.{secrets_equal}
use r2storage.Auth.S3Auth.{
  AuthOutcome, CredentialScope, KeyRow, SigningPrimitives, Streaming, accepted, find_key,
  find_secret, parse_credential_scope, rejected, scope_text, sign_request, signatures_match,
  signing_key,
}
use r2storage.Auth.S3Auth.Canonical.{canonical_uri_candidates, signed_names}
use r2storage.Auth.S3Auth.Verify.{
  AuthRequest, any_candidate_signed, api_key_secret, authenticate_request, authorization_header,
  authorization_parts, date_or_undefined, header_outcome, header_request, parts_outcome,
  presigned_outcome, presigned_request, presigned_time_refused, raw_parts, request_date,
  timestamp_refused, verify_api_key, verify_header_signature, verify_presigned_signature,
}
use r2storage.Prelude.{
  Bool-cases, List, Option, Option-cases, Text, [], any, ap, codes, false, get_elem?, get_or_else,
  inl, inr, none, refl, some, some_inj, starts_with, subst, suc, sym, text_eq, text_eq_iff, true, ℕ,
  ◌∙◌, ◌∷◌, ◌≡◌,
}
use r2storage.Range.Preconditions.{header, raw_header}
use r2storage.Store.{Bytes}

module _ (crypto : SigningPrimitives) where
  any_candidate-signed :
      (key : Bytes) (date scope signature : Text) (request_of : Text → Text) (uris : List Text)
      → any_candidate_signed crypto key date scope signature request_of uris ≡ true
      → (i : ℕ) × (uri : Text) × (get_elem? uris i ≡ some uri)
        × (signatures_match crypto (sign_request crypto key date scope (request_of uri)) signature
            ≡ true)
  unfolding any_candidate_signed
  any_candidate-signed key date scope signature request_of [] h = absurd (cc h)
  any_candidate-signed key date scope signature request_of (uri ∷ uris) h =
      elim (Bool-cases
        (signatures_match crypto (sign_request crypto key date scope (request_of uri)) signature)) [
          | inl e ↦ (0, uri, refl, e)
          | inr e ↦
              let (i, other, at, e') =
                any_candidate-signed key date scope signature request_of uris (rw e at h) in
              (suc i, other, at, e')
        ]

module _ (crypto : SigningPrimitives) (keys : List KeyRow) (now : ℕ) where
  -- How a request shows that it knows the secret of a row.
  pub data IsProven (r : AuthRequest) (row : KeyRow) : Type 0 where
    by_url :
        (credential : Text) (scope : CredentialScope) (signature uri : Text) (i : ℕ)
        → (header r.query "X-Amz-Credential" ≡ some credential)
        → (parse_credential_scope credential ≡ some scope)
        → (header r.query "X-Amz-Signature" ≡ some signature)
        → (presigned_time_refused crypto now
              (header r.query "X-Amz-Expires")
              (header r.query "X-Amz-Date")
            ≡ false)
        → (find_key scope.access_key_id keys ≡ some row)
        → (get_elem? (canonical_uri_candidates (raw_parts r.path).0) i ≡ some uri)
        → (signatures_match crypto
              (sign_request crypto
                (signing_key crypto row.secret_access_key scope.date_stamp)
                (date_or_undefined (raw_header r.query "X-Amz-Date"))
                (scope_text scope.date_stamp scope.region)
                (presigned_request r uri))
              signature
            ≡ true)
        → IsProven r row
    by_header :
        (value credential names signature : Text) (scope : CredentialScope) (uri : Text) (i : ℕ)
        → (authorization_header r.headers ≡ some value)
        → (starts_with (codes "AWS4-HMAC-SHA256") value ≡ true)
        → (authorization_parts value ≡ some (credential, names, signature))
        → (parse_credential_scope credential ≡ some scope)
        → (find_key scope.access_key_id keys ≡ some row)
        → (any (text_eq (codes "host")) (signed_names names) ≡ true)
        → (timestamp_refused crypto now (request_date crypto r.headers) ≡ none)
        → (get_elem? (canonical_uri_candidates (raw_parts r.path).0) i ≡ some uri)
        → (signatures_match crypto
              (sign_request crypto
                (signing_key crypto row.secret_access_key scope.date_stamp)
                (request_date crypto r.headers)
                (scope_text scope.date_stamp scope.region)
                (header_request r
                  (signed_names names)
                  (get_or_else (header r.headers "x-amz-content-sha256") (codes "UNSIGNED-PAYLOAD"))
                  uri))
              signature
            ≡ true)
        → IsProven r row
    by_named_secret :
        (id : Text)
        → (header r.headers "x-access-key-id" ≡ some id)
        → (find_key id keys ≡ some row)
        → (api_key_secret r.headers ≡ some row.secret_access_key)
        → IsProven r row
    by_secret :
        (header r.headers "x-access-key-id" ≡ none)
        → (find_secret row.secret_access_key keys ≡ some row)
        → (api_key_secret r.headers ≡ some row.secret_access_key)
        → IsProven r row

  abbrev Shows : AuthRequest → AuthOutcome → Type 0
  Shows r (rejected e) = Unit
  Shows r (accepted row streaming) = IsProven r row

  presigned_outcome-Shows :
      (r : AuthRequest) (credential : Text) (scope : CredentialScope) (row : KeyRow)
      (signature : Text)
      → header r.query "X-Amz-Credential" ≡ some credential
      → parse_credential_scope credential ≡ some scope
      → header r.query "X-Amz-Signature" ≡ some signature
      → find_key scope.access_key_id keys ≡ some row
      → Shows r (presigned_outcome crypto now r scope row signature)
  unfolding presigned_outcome
  presigned_outcome-Shows r credential scope row signature named parsed sig_given known =
      elim (Bool-cases (
        presigned_time_refused crypto now (header r.query "X-Amz-Expires")
          (header r.query "X-Amz-Date"))) [
            | inl late ↦ rw late tt
            | inr timely ↦
                elim (Bool-cases (
                  any_candidate_signed crypto
                    (signing_key crypto row.secret_access_key scope.date_stamp)
                    (date_or_undefined (raw_header r.query "X-Amz-Date"))
                    (scope_text scope.date_stamp scope.region) signature (presigned_request r)
                    (canonical_uri_candidates (raw_parts r.path).0))) [
                      | inl e ↦
                          let (i, uri, at, matches) =
                            any_candidate-signed crypto
                              (signing_key crypto row.secret_access_key scope.date_stamp)
                              (date_or_undefined (raw_header r.query "X-Amz-Date"))
                              (scope_text scope.date_stamp scope.region) signature
                              (presigned_request r) (canonical_uri_candidates (raw_parts r.path).0)
                              e in
                          rw (timely, e)
                            (by_url credential scope signature uri i named parsed sig_given timely
                              known at matches)
                      | inr e ↦ rw (timely, e) tt
                    ]
          ]

  header_outcome-Shows :
      (r : AuthRequest) (value credential listed signature : Text) (scope : CredentialScope)
      (row : KeyRow)
      → authorization_header r.headers ≡ some value
      → starts_with (codes "AWS4-HMAC-SHA256") value ≡ true
      → authorization_parts value ≡ some (credential, listed, signature)
      → parse_credential_scope credential ≡ some scope
      → find_key scope.access_key_id keys ≡ some row
      → Shows r (header_outcome crypto now r scope row (signed_names listed) signature)
  unfolding header_outcome
  header_outcome-Shows r value credential listed signature scope row given scheme cut parsed known =
      let names = signed_names listed in
      let date = request_date crypto r.headers in
      let hash = get_or_else (header r.headers "x-amz-content-sha256") (codes "UNSIGNED-PAYLOAD") in
      elim (Bool-cases (any (text_eq (codes "host")) names)) [
        | inr e ↦ rw e tt
        | inl host_signed ↦ elim (Option-cases (timestamp_refused crypto now date)) [
          | inr (e, e') ↦ rw (host_signed, e') tt
          | inl recent ↦
              elim (Bool-cases (
                any_candidate_signed crypto
                  (signing_key crypto row.secret_access_key scope.date_stamp) date
                  (scope_text scope.date_stamp scope.region) signature (header_request r names hash)
                  (canonical_uri_candidates (raw_parts r.path).0))) [
                    | inl e ↦
                        let (i, uri, at, matches) =
                          any_candidate-signed crypto
                            (signing_key crypto row.secret_access_key scope.date_stamp) date
                            (scope_text scope.date_stamp scope.region) signature
                            (header_request r names hash)
                            (canonical_uri_candidates (raw_parts r.path).0) e in
                        rw (host_signed, recent, e)
                          (by_header value credential listed signature scope uri i given scheme cut
                            parsed known host_signed recent at matches)
                    | inr e ↦ rw (host_signed, recent, e) tt
                  ]
        ]
      ]

  ShowsSome : AuthRequest → Option AuthOutcome → Type 0
  ShowsSome r none = Unit
  ShowsSome r (some outcome) = Shows r outcome

  verify_presigned_signature-Shows :
      (r : AuthRequest) → ShowsSome r (verify_presigned_signature crypto keys now r)
  unfolding verify_presigned_signature ShowsSome
  verify_presigned_signature-Shows r = elim (Option-cases (header r.query "X-Amz-Credential")) [
    | inl e ↦ rw (e, verify_presigned_signature) tt
    | inr (credential, e) ↦ elim (Option-cases (header r.query "X-Amz-Signature")) [
      | inl e' ↦ rw (e, e', verify_presigned_signature) tt
      | inr (signature, e') ↦ elim (Option-cases (parse_credential_scope credential)) [
        | inl bad ↦ rw (e, e', bad, verify_presigned_signature) tt
        | inr (scope, parsed) ↦ elim (Option-cases (find_key scope.access_key_id keys)) [
          | inl unknown ↦ rw (e, e', parsed, unknown, verify_presigned_signature) tt
          | inr (row, known) ↦
              rw (e, e', parsed, known, verify_presigned_signature)
                (presigned_outcome-Shows r credential scope row signature e parsed e' known)
        ]
      ]
    ]
  ]

  parts_outcome-Shows :
      (r : AuthRequest) (value : Text) (parts : Text × Text × Text)
      → authorization_header r.headers ≡ some value
      → starts_with (codes "AWS4-HMAC-SHA256") value ≡ true
      → authorization_parts value ≡ some parts
      → Shows r (parts_outcome crypto keys now r parts)
  unfolding parts_outcome
  parts_outcome-Shows r value (credential, names, signature) given scheme cut =
      elim (Option-cases (parse_credential_scope credential)) [
        | inl bad ↦ rw (bad, parts_outcome) tt
        | inr (scope, parsed) ↦ elim (Option-cases (find_key scope.access_key_id keys)) [
          | inl unknown ↦ rw (parsed, unknown, parts_outcome) tt
          | inr (row, known) ↦
              rw (parsed, known, parts_outcome)
                (header_outcome-Shows r value credential names signature scope row given scheme cut
                  parsed known)
        ]
      ]

  verify_header_signature-Shows :
      (r : AuthRequest) → ShowsSome r (verify_header_signature crypto keys now r)
  unfolding verify_header_signature ShowsSome
  verify_header_signature-Shows r = elim (Option-cases (authorization_header r.headers)) [
    | inl e ↦ rw (e, verify_header_signature) tt
    | inr (value, e) ↦ elim (Bool-cases (starts_with (codes "AWS4-HMAC-SHA256") value)) [
      | inr other ↦ rw (e, other, verify_header_signature) tt
      | inl scheme ↦ elim (Option-cases (authorization_parts value)) [
        | inl bad ↦ rw (e, scheme, bad, verify_header_signature) tt
        | inr (parts, e') ↦
            rw (e, scheme, e', verify_header_signature)
              (parts_outcome-Shows r value parts e scheme e')
      ]
    ]
  ]

  find_secret-secret :
      (secret : Text) (row : KeyRow) (ks : List KeyRow)
      → find_secret secret ks ≡ some row
      → row.secret_access_key ≡ secret
  unfolding find_secret
  find_secret-secret secret row [] h = absurd (cc h)
  find_secret-secret secret row (k ∷ ks) h =
      elim (Bool-cases (text_eq k.secret_access_key secret)) [
        | inl e ↦
            let same : k ≡ row = some_inj (rw e at h) in
            subst (λ x. x.secret_access_key ≡ secret) same
              ((text_eq_iff k.secret_access_key secret).0 e)
        | inr e ↦ find_secret-secret secret row ks (rw e at h)
      ]

  verify_api_key-Shows :
      (r : AuthRequest) (id secret : Option Text)
      → header r.headers "x-access-key-id" ≡ id
      → api_key_secret r.headers ≡ secret
      → Shows r (verify_api_key keys id secret)
  unfolding verify_api_key secrets_equal
  verify_api_key-Shows r id none h h' = tt
  verify_api_key-Shows r (some id) (some secret) h h' = elim (Option-cases (find_key id keys)) [
    | inl unknown ↦ rw (unknown, verify_api_key) tt
    | inr (row, known) ↦ elim (Bool-cases (text_eq secret row.secret_access_key)) [
      | inl e ↦
          rw (known, e, verify_api_key)
            (by_named_secret id h known
              (h' ∙ ap some ((text_eq_iff secret row.secret_access_key).0 e)))
      | inr e ↦ rw (known, e, verify_api_key) tt
    ]
  ]
  verify_api_key-Shows r none (some secret) h h' = elim (Option-cases (find_secret secret keys)) [
    | inl unknown ↦ rw (unknown, verify_api_key) tt
    | inr (row, known) ↦
        let same = find_secret-secret secret row keys known in
        rw (known, verify_api_key)
          (by_secret h (ap (λ s. find_secret s keys) same ∙ known) (h' ∙ ap some (sym same)))
  ]

  authenticate_request-Shows : (r : AuthRequest) → Shows r (authenticate_request crypto keys now r)
  unfolding authenticate_request ShowsSome
  authenticate_request-Shows r =
      let by_presigned = verify_presigned_signature-Shows r in
      let by_authorization = verify_header_signature-Shows r in
      elim (Option-cases (verify_presigned_signature crypto keys now r)) [
        | inr (outcome, e) ↦ rw (e, authenticate_request) (rw e at by_presigned)
        | inl e ↦ elim (Option-cases (verify_header_signature crypto keys now r)) [
          | inr (outcome, e') ↦ rw (e, e', authenticate_request) (rw e' at by_authorization)
          | inl e' ↦
              rw (e, e', authenticate_request)
                (verify_api_key-Shows r (header r.headers "x-access-key-id")
                  (api_key_secret r.headers) refl refl)
        ]
      ]

  -- Whenever a request is accepted as the holder of a row of AccessKey, one of these holds of what the
  -- request itself carries. Its query names the row's id as credential, its X-Amz-Signature matches the
  -- signature under the row's secret over the method, a form of the path and the query, and its date
  -- and expiry, where both are given, are not refused. Or its Authorization header does the same over
  -- the listed headers, the host among them, and its timestamp is not refused. Or its headers carry
  -- the row's secret, with the row's id or without one.
  pub authenticate_request-IsProven :
      (r : AuthRequest) (row : KeyRow) (streaming : Option Streaming)
      → authenticate_request crypto keys now r ≡ accepted row streaming
      → IsProven r row
  authenticate_request-IsProven r row streaming h =
      let shown = authenticate_request-Shows r in rw h at shown
