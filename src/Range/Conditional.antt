-- ===== src/Range/Conditional.antt =====
-- How the conditional headers of reads and of writes agree.
use r2storage.Prelude.{
  Bool, List, Option, Text, [], any, arith, false, if◌then◌else◌, is_some, none, not, refl, some,
  split, text_eq, true, ℤ, ◌||◌, ◌∷◌, ◌≡◌,
}
use r2storage.Range.Preconditions.{
  Headers, Version, check_write_preconditions, conflict, header, if_match_write, is_star, lists_tag,
  lists_tag_or_star, none_match_write, normalized, not_modified, ok, precondition_failed,
  read_precondition_failed, unmodified_write,
}

module _ (date_parse : Text → Option ℤ) where
  any-or_false {ℓ} :
      {A : Type ℓ} (p q : A → Bool) (xs : List A)
      → any p xs ≡ false
      → any (λ x. p x || q x) xs ≡ any q xs
  any-or_false p q [] h = refl
  any-or_false p q (x ∷ xs) h = ground (arith, any-or_false p q xs)

  -- A list of tags without `*`: If-Match refuses a read exactly when If-None-Match with the same
  -- value would not answer 304, whatever the other headers of either request.
  pub read_precondition_failed-not_modified :
      (read cached : Headers) (v : Version) (tags : Text)
      → header read "if-match" ≡ some tags
      → header cached "if-none-match" ≡ some tags
      → any is_star (split b',' tags) ≡ false
      → is_star tags ≡ false
      → read_precondition_failed date_parse read v ≡ not (not_modified date_parse cached v)
  unfolding read_precondition_failed not_modified lists_tag lists_tag_or_star
  read_precondition_failed-not_modified read cached v tags hr hc hs ht = ground (
    arith,
    hr,
    hc,
    any-or_false is_star (λ tag. text_eq (normalized tag) (normalized v.etag)) (split b',' tags) hs,
  )

  -- For an object that exists, and a request without If-None-Match, a write is let through exactly
  -- when a read with the same headers does not fail with 412; else it fails with 412 too.
  check_write_preconditions-read :
      (h : Headers) (v : Version)
      → header h "if-none-match" ≡ none
      → check_write_preconditions date_parse h (some v)
        ≡ (if read_precondition_failed date_parse h v then precondition_failed else ok)
  unfolding check_write_preconditions read_precondition_failed if_match_write unmodified_write
  check_write_preconditions-read h v e = ground arith

  -- A key that holds no object is refused exactly when the request has an If-Match, and never with
  -- a conflict; `If-None-Match: *` alone is a conflict exactly when the key holds an object.
  check_write_preconditions_create :
      (h : Headers) (existing : Option Version) (star : Text)
      → (check_write_preconditions date_parse h none
          ≡ (if is_some (header h "if-match") then precondition_failed else ok))
        × (header h "if-match" ≡ none
            → header h "if-unmodified-since" ≡ none
            → header h "if-none-match" ≡ some star
            → is_star star ≡ true
            → check_write_preconditions date_parse h existing
              ≡ (if is_some existing then conflict else ok))
  unfolding check_write_preconditions if_match_write unmodified_write none_match_write
  check_write_preconditions_create h none star = (ground arith, λ a b c d. ground arith)
  check_write_preconditions_create h (some v) star = (ground arith, λ a b c d. ground arith)
