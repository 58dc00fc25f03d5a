-- ===== src/Auth/S3Auth/Presign.antt =====
-- backend/src/auth/s3auth.ts: `generatePresignedUrl`, as the path, the query and the signature that
-- it joins to the URL. `encodeURIComponent` and the host of `new URL(baseUrl)` are given.
use r2storage.Auth.S3Auth.{KeyRow, SigningPrimitives, scope_text, sign_request, signing_key, slice}
use r2storage.Auth.S3Auth.Canonical.{format_amz_date, sort_by}
use r2storage.Auth.S3Auth.Verify.{canonical_request}
use r2storage.Prelude.{
  Bool, Text, [], codes, if◌then◌else◌, join, leb, map, not, split, text_eq, ℕ, ◌%◌, ◌++◌, ◌+◌, ◌/◌,
  ◌==◌, ◌||◌, ◌∷◌,
}
use r2storage.S3.Listing.{text_lt}

abbrev to_hex_digit : ℕ → ℕ
to_hex_digit n = if leb n 9 then b'0' + n else 55 + n

-- The second pass of uriEncode, over `[!'()*]`.
unfoldable pub escape_mark : ℕ → Text
escape_mark c =
    if c == b'!' || c == 39 || c == b'(' || c == b')' || c == b'*'
    then b'%' ∷ to_hex_digit (c / 16) ∷ to_hex_digit (c % 16) ∷ []
    else c ∷ []

unfoldable pub escape_marks : Text → Text
unfolding escape_mark
escape_marks [] = []
escape_marks (c ∷ s) = escape_mark c ++ escape_marks s

pub record PresignedUrl : Type 0 where
  pub s3_path : Text
  pub canonical_query : Text
  pub signature : Text

-- `a.sort()` compares the code units of whole texts.
unfoldable pub query_text_le : Text → Text → Bool
query_text_le a b = not (text_lt b a)

module _ (encode_uri_component : Text → Text) where
  unfoldable pub uri_encode : Text → Text
  unfolding escape_marks
  uri_encode value = escape_marks (encode_uri_component value)

  unfoldable pub query_param : Text × Text → Text
  query_param (n, v) = uri_encode n ++ (if text_eq v [] then [] else b'=' ∷ uri_encode v)

  unfoldable pub presigned_query : Text → Text → Text → Text
  unfolding query_param query_text_le
  presigned_query credential amz_date expires = join b'&' (
      sort_by query_text_le (
        map query_param (
          (codes "X-Amz-Algorithm", codes "AWS4-HMAC-SHA256")
          ∷ (codes "X-Amz-Credential", credential)
          ∷ (codes "X-Amz-Date", amz_date)
          ∷ (codes "X-Amz-Expires", expires)
          ∷ (codes "X-Amz-SignedHeaders", codes "host")
          ∷ [])))

  unfoldable pub presigned_path : Text → Text → Text
  presigned_path bucket k = codes "/s3/" ++ join b'/' (map uri_encode (bucket ∷ split b'/' k))

module _ (crypto : SigningPrimitives) (encode_uri_component : Text → Text) where
  -- `iso` is the text of the current date, `expires` that of the number of seconds.
  unfoldable pub generate_presigned_url : Text → Text → Text → KeyRow → Text → Text → PresignedUrl
  unfolding presigned_path
  generate_presigned_url host bucket k row iso expires =
      let amz_date = format_amz_date iso in
      let date_stamp = slice 0 8 amz_date in
      let scope_str = scope_text date_stamp (codes "us-east-1") in
      let query =
        presigned_query encode_uri_component (row.access_key_id ++ (b'/' ∷ scope_str)) amz_date
          expires in
      let path = presigned_path encode_uri_component bucket k in
      record {
        s3_path = path;
        canonical_query = query;
        signature =
            sign_request crypto (signing_key crypto row.secret_access_key date_stamp) amz_date
              scope_str
              (canonical_request (codes "GET") path query (codes "host:" ++ host ++ (10 ∷ []))
                (codes "host") (codes "UNSIGNED-PAYLOAD"));
      }
