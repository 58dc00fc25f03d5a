-- ===== src/Auth/S3Auth/RoundTrip/Query.antt =====
-- The query and the path of a generated URL survive their way through a request.
use r2storage.Auth.S3Auth.Canonical.{
  canonical_query_string, insert_by, pair_le, pair_text, query_pair, signed_query, sort_by,
}
use r2storage.Auth.S3Auth.Presign.{
  escape_mark, escape_marks, presigned_path, presigned_query, query_param, query_text_le,
  uri_encode,
}
use r2storage.Auth.S3Auth.RoundTrip.{UriEncoder}
use r2storage.Auth.S3Auth.RoundTrip.Split.{
  cut_at-append, join-lacks, join-snoc, split-join, uri_encode-lacks,
}
use r2storage.Auth.S3Auth.Verify.{raw_parts}
use r2storage.Prelude.{
  All, List, Text, [], any, ap, codes, drop, false, filter, is_digit, join, map, not, refl, split,
  starts_with, strip_prefix, sym, text_eq, ◌&&◌, ◌++◌, ◌==◌, ◌∙◌, ◌∷◌, ◌≡◌,
}
use r2storage.S3.Chunked.{cut_at}
use r2storage.S3.Listing.{text_lt}

module _ (enc : UriEncoder) where
  -- The parameters of a generated URL, in their order.
  abbrev url_words : Text → Text → Text → List Text
  url_words credential date expires =
      codes "X-Amz-Algorithm=AWS4-HMAC-SHA256"
      ∷ (codes "X-Amz-Credential=" ++ uri_encode enc.encode credential)
      ∷ (codes "X-Amz-Date=" ++ uri_encode enc.encode date)
      ∷ (codes "X-Amz-Expires=" ++ uri_encode enc.encode expires)
      ∷ codes "X-Amz-SignedHeaders=host"
      ∷ []

  presigned_query-join :
      (credential date expires : Text)
      → text_eq credential [] ≡ false
      → text_eq date [] ≡ false
      → text_eq expires [] ≡ false
      → presigned_query enc.encode credential date expires
        ≡ join b'&' (url_words credential date expires)
  unfolding presigned_query query_param query_text_le uri_encode escape_marks escape_mark sort_by
      insert_by text_lt text_eq is_digit
  presigned_query-join credential date expires h h' h'' =
      rw
        (
          enc.keeps (codes "X-Amz-Algorithm") refl,
          enc.keeps (codes "AWS4-HMAC-SHA256") refl,
          enc.keeps (codes "X-Amz-Credential") refl,
          enc.keeps (codes "X-Amz-Date") refl,
          enc.keeps (codes "X-Amz-Expires") refl,
          enc.keeps (codes "X-Amz-SignedHeaders") refl,
          enc.keeps (codes "host") refl,
          h,
          h',
          h'',
        )
        refl

  canonical_query_string-join :
      (credential date expires : Text)
      → All (λ v. any (λ c. c == b'&') v ≡ false) (url_words credential date expires)
      → canonical_query_string (join b'&' (url_words credential date expires))
        ≡ join b'&' (url_words credential date expires)
  unfolding canonical_query_string query_pair pair_le pair_text sort_by insert_by text_lt text_eq
      cut_at
  canonical_query_string-join credential date expires h =
      rw
        (split-join b'&' (codes "X-Amz-Algorithm=AWS4-HMAC-SHA256")
          (drop 1 (url_words credential date expires)) h)
        refl

  signed_query-join :
      (credential date expires signature : Text)
      → All (λ v. any (λ c. c == b'&') v ≡ false) (url_words credential date expires)
      → any (λ c. c == b'&') signature ≡ false
      → signed_query (
          join b'&' (url_words credential date expires)
          ++ (b'&' ∷ codes "X-Amz-Signature=" ++ signature))
        ≡ join b'&' (url_words credential date expires)
  unfolding signed_query starts_with strip_prefix text_eq
  signed_query-join credential date expires signature h h' =
      let words = drop 1 (url_words credential date expires) in
      let added = codes "X-Amz-Signature=" ++ signature in
      let whole_query : split b'&'
            (join b'&' ((codes "X-Amz-Algorithm=AWS4-HMAC-SHA256" ∷ words) ++ (added ∷ [])))
          ≡ (codes "X-Amz-Algorithm=AWS4-HMAC-SHA256" ∷ words) ++ (added ∷ []) =
        split-join b'&' (codes "X-Amz-Algorithm=AWS4-HMAC-SHA256") (words ++ (added ∷ []))
          (h.0, (h.1.0, (h.1.1.0, (h.1.1.1.0, (h.1.1.1.1.0, (h', tt)))))) in
      ap signed_query (join-snoc b'&' (codes "X-Amz-Algorithm=AWS4-HMAC-SHA256") added words)
      ∙ ap
          (λ ws. join b'&' (
            filter
              (λ pair. not (text_eq pair []) && not (starts_with (codes "X-Amz-Signature=") pair))
              ws))
          whole_query

  -- The URL's query and path survive their way through the request.
  lacks_amp :
      (credential date expires : Text)
      → All (λ v. any (λ c. c == b'&') v ≡ false) (url_words credential date expires)
  unfolding is_digit
  lacks_amp credential date expires = (
    refl,
    (
      uri_encode-lacks enc b'&' credential refl,
      (uri_encode-lacks enc b'&' date refl, (uri_encode-lacks enc b'&' expires refl, (refl, tt))),
    ),
  )

  uri_encode-lacks_mark :
      (ws : List Text) → All (λ v. any (λ c. c == b'?') v ≡ false) (map (uri_encode enc.encode) ws)
  unfolding is_digit
  uri_encode-lacks_mark [] = tt
  uri_encode-lacks_mark (w ∷ ws) = (uri_encode-lacks enc b'?' w refl, uri_encode-lacks_mark ws)

  pub raw_parts-presigned :
      (bucket k query : Text)
      → raw_parts (presigned_path enc.encode bucket k ++ (b'?' ∷ query))
        ≡ (presigned_path enc.encode bucket k, query)
  unfolding raw_parts presigned_path
  raw_parts-presigned bucket k query =
      rw
        (cut_at-append b'?' (presigned_path enc.encode bucket k) query (
          join-lacks b'/' b'?' (map (uri_encode enc.encode) (bucket ∷ split b'/' k)) refl
            (uri_encode-lacks_mark (bucket ∷ split b'/' k))))
        refl

  pub canonical_query-url :
      (credential date expires signature : Text)
      → text_eq credential [] ≡ false
      → text_eq date [] ≡ false
      → text_eq expires [] ≡ false
      → any (λ c. c == b'&') signature ≡ false
      → canonical_query_string (
          signed_query (
            presigned_query enc.encode credential date expires
            ++ (b'&' ∷ codes "X-Amz-Signature=" ++ signature)))
        ≡ presigned_query enc.encode credential date expires
  canonical_query-url credential date expires signature h h' h'' plain =
      let words = presigned_query-join credential date expires h h' h'' in
      let apart = lacks_amp credential date expires in
      ap
        (λ query.
          canonical_query_string
            (signed_query (query ++ (b'&' ∷ codes "X-Amz-Signature=" ++ signature))))
        words
      ∙ ap canonical_query_string (signed_query-join credential date expires signature apart plain)
      ∙ canonical_query_string-join credential date expires apart
      ∙ sym words
