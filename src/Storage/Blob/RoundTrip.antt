-- ===== src/Storage/Blob/RoundTrip.antt =====
-- What was written is read back.
use r2storage.Prelude.{
  Bool-cases, List, Option, ap, append_assoc, arith, drop, drop-append_length, false, inl, inr,
  length, length-append, none, refl, some, subst, sym, take, take-append_length, text_eq, true, ℕ,
  ◌++◌, ◌+◌, ◌-◌, ◌∙◌, ◌≡◌,
}
use r2storage.Storage.Blob.{
  Gcm, GcmLaws, enc_magic, header_len, is_encrypted, is_truncated, iv_len, maybe_decrypt,
  maybe_encrypt, refuses_blob, stream_decrypt, tag_len,
}
use r2storage.Store.{Bytes}

module _ {ℓ} {A : Type ℓ} where
  take-exact : (n : ℕ) (xs ys : List A) → length xs ≡ n → take n (xs ++ ys) ≡ xs
  take-exact n xs ys h = subst (λ k. take k (xs ++ ys) ≡ xs) h (take-append_length xs ys)

  drop-exact : (n : ℕ) (xs ys : List A) → length xs ≡ n → drop n (xs ++ ys) ≡ ys
  drop-exact n xs ys h = subst (λ k. drop k (xs ++ ys) ≡ ys) h (drop-append_length xs ys)

length-stored :
    (iv ct tag : Bytes)
    → length iv ≡ iv_len
    → length tag ≡ tag_len
    → length (enc_magic ++ (iv ++ (ct ++ tag))) ≡ header_len + length ct + tag_len
length-stored iv ct tag hi ht =
    omega (arith, length-append iv (ct ++ tag), length-append ct tag, hi, ht)

is_encrypted-stored :
    (iv ct tag : Bytes)
    → length iv ≡ iv_len
    → length tag ≡ tag_len
    → is_encrypted (enc_magic ++ (iv ++ (ct ++ tag))) ≡ true
unfolding is_encrypted text_eq
is_encrypted-stored iv ct tag hi ht = ground (arith, length-stored iv ct tag hi ht)

drop-stored_tag :
    (iv ct tag : Bytes)
    → length iv ≡ iv_len
    → length tag ≡ tag_len
    → let buf = enc_magic ++ (iv ++ (ct ++ tag)) in drop (length buf - tag_len) buf ≡ tag
drop-stored_tag iv ct tag hi ht =
    ap (λ l. drop (length l - tag_len) l) (ap (◌++◌ enc_magic) (sym (append_assoc iv ct tag)))
    ∙ drop-exact _ (enc_magic ++ (iv ++ ct)) tag
        (omega (arith, length-append (enc_magic ++ (iv ++ ct)) tag, ht))

take-stored_text :
    (iv ct tag : Bytes)
    → length iv ≡ iv_len
    → length tag ≡ tag_len
    → let buf = enc_magic ++ (iv ++ (ct ++ tag)) in
      take (length buf - tag_len - header_len) (drop header_len buf) ≡ ct
take-stored_text iv ct tag hi ht =
    ap (take _) (drop-exact iv_len iv (ct ++ tag) hi)
    ∙ take-exact _ ct tag (omega (arith, length-stored iv ct tag hi ht))

module _ (g : Gcm) (laws : GcmLaws g) where
  open_stored :
      (k iv ct tag : Bytes)
      → length iv ≡ iv_len
      → length tag ≡ tag_len
      → let buf = enc_magic ++ (iv ++ (ct ++ tag)) in
        maybe_decrypt g (some k) buf ≡ g.open_sealed k iv ct tag
  unfolding maybe_decrypt
  open_stored k iv ct tag hi ht = rw (is_encrypted-stored iv ct tag hi ht) (λ i.
      g.open_sealed k (take-exact iv_len iv (ct ++ tag) hi i) (take-stored_text iv ct tag hi ht i)
        (drop-stored_tag iv ct tag hi ht i))

  -- With or without a key, for a cipher with the documented laws, a blob that was written under an IV
  -- of 12 bytes is read back as it was.
  pub maybe_decrypt-maybe_encrypt :
      (key : Option Bytes) (iv b : Bytes)
      → length iv ≡ iv_len
      → maybe_decrypt g key (maybe_encrypt g key iv b) ≡ some b
  unfolding maybe_encrypt maybe_decrypt
  maybe_decrypt-maybe_encrypt none iv b hi = refl
  maybe_decrypt-maybe_encrypt (some k) iv b hi =
      open_stored k iv (g.seal k iv b).0 (g.seal k iv b).1 hi (laws.tag_length k iv b)
      ∙ laws.opens k iv b

  -- The same through the stream, which never refuses such a blob.
  pub stream_decrypt-maybe_encrypt :
      (key : Option Bytes) (iv b : Bytes)
      → length iv ≡ iv_len
      → stream_decrypt g key (maybe_encrypt g key iv b) ≡ some b
  unfolding stream_decrypt refuses_blob is_truncated maybe_encrypt
  stream_decrypt-maybe_encrypt none iv b hi = maybe_decrypt-maybe_encrypt none iv b hi
  stream_decrypt-maybe_encrypt (some k) iv b hi =
      let (ct, tag) = g.seal k iv b in
      let long = length-stored iv (g.seal k iv b).0 (g.seal k iv b).1 hi (laws.tag_length k iv b) in
      let kept : refuses_blob (some k) (maybe_encrypt g (some k) iv b) ≡ false =
        ground (arith, long) in
      rw kept (maybe_decrypt-maybe_encrypt (some k) iv b hi)

-- A blob that streams is not refused, and its plaintext is the one of the whole buffer.
pub stream_decrypt-some :
    (g : Gcm) (key : Option Bytes) (stored plain : Bytes)
    → stream_decrypt g key stored ≡ some plain
    → (refuses_blob key stored ≡ false) × (maybe_decrypt g key stored ≡ some plain)
unfolding stream_decrypt
stream_decrypt-some g key stored plain h = elim (Bool-cases (refuses_blob key stored)) [
  | inl e ↦ absurd (cc (rw e at h))
  | inr e ↦ (e, rw e at h)
]
