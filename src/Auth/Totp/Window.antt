-- ===== src/Auth/Totp/Window.antt =====
-- Which codes are accepted.
use r2storage.Auth.Totp.{
  base32_decode, clean_token, matches_secret, matches_window, six_digits, totp_code, verify_totp,
}
use r2storage.Prelude.{
  Bool, Option, Text, all, ap, arith, false, inl, inr, is_digit, length, ltb, refl, some,
  text_eq_iff, true, ℕ, ◌%◌, ◌&&◌, ◌+◌, ◌-◌, ◌/◌, ◌==◌, ◌||◌, ◌↔◌, ◌∙◌, ◌≡◌, ◌≤◌, ◌⊎◌,
}
use r2storage.Store.{Bytes}

any_of_three :
    {A B C : Type 0} (a b c : Bool)
    → (a ≡ true) ↔ A
    → (b ≡ true) ↔ B
    → (c ≡ true) ↔ C
    → ((a || b || c) ≡ true) ↔ (A ⊎ B ⊎ C)
any_of_three true b c p q r = ((λ e. inl (p.0 refl)), (λ s. refl))
any_of_three false true c p q r = ((λ e. inr (inl (q.0 refl))), (λ s. refl))
any_of_three false false true p q r = ((λ e. inr (inr (r.0 refl))), (λ s. refl))
any_of_three false false false p q r = (
  (λ e. absurd (cc)),
  (λ s. elim s [ inl a ↦ p.1 a | inr (inl b) ↦ q.1 b | inr (inr c) ↦ r.1 c ]),
)

-- A test behind two guards that hold wherever the test is meant to.
guarded :
    {D : Type 0} (a b w : Bool)
    → (w ≡ true) ↔ D
    → (D → (a && b) ≡ true)
    → ((a && b && w) ≡ true) ↔ D
guarded true true w h k = h
guarded true false w h k = ((λ e. absurd (cc)), k)
guarded false b w h k = ((λ e. absurd (cc)), k)

module _ (hmac_sha1 : Bytes → Bytes → Bytes) where
  is_digit-digit : (m : ℕ) → is_digit (b'0' + m % 10) ≡ true
  unfolding is_digit
  is_digit-digit m = ground arith

  six_digits-well_formed :
      (n : ℕ) → (all is_digit (six_digits n) && length (six_digits n) == 6) ≡ true
  unfolding six_digits
  six_digits-well_formed n =
      rw
        (
          is_digit-digit (n / 100000),
          is_digit-digit (n / 10000),
          is_digit-digit (n / 1000),
          is_digit-digit (n / 100),
          is_digit-digit (n / 10),
          is_digit-digit n,
        )
        refl

  code_well_formed :
      (key clean : Text) (t : ℕ)
      → clean ≡ totp_code hmac_sha1 key t
      → (all is_digit clean && length clean == 6) ≡ true
  unfolding totp_code
  code_well_formed key clean t e =
      ap (λ c. all is_digit c && length c == 6) e ∙ six_digits-well_formed _

  matches_window_iff :
      (key clean : Text) (now : ℕ)
      → 30 ≤ now
      → (matches_window hmac_sha1 key clean now ≡ true) ↔ (
          (clean ≡ totp_code hmac_sha1 key (now - 30))
          ⊎ (clean ≡ totp_code hmac_sha1 key now)
          ⊎ (clean ≡ totp_code hmac_sha1 key (now + 30)))
  unfolding matches_window
  matches_window_iff key clean now h =
      let late : ltb now 30 ≡ false = ground arith in
      rw late (any_of_three _ _ _ (text_eq_iff clean _) (text_eq_iff clean _) (text_eq_iff clean _))

  -- With a secret that decodes, a token is accepted exactly where its digits are the code of the
  -- instant, of 30 seconds before or of 30 seconds after.
  pub verify_totp_iff :
      (secret : Text) (key : Bytes) (token : Option Text) (now : ℕ)
      → base32_decode secret ≡ some key
      → 30 ≤ now
      → let clean = clean_token token in
        (verify_totp hmac_sha1 secret token now ≡ true) ↔ (
          (clean ≡ totp_code hmac_sha1 key (now - 30))
          ⊎ (clean ≡ totp_code hmac_sha1 key now)
          ⊎ (clean ≡ totp_code hmac_sha1 key (now + 30)))
  unfolding verify_totp matches_secret matches_window
  verify_totp_iff secret key token now e h =
      let formed = code_well_formed key (clean_token token) in
      rw e (
        guarded (all is_digit (clean_token token)) (length (clean_token token) == 6) _
          (matches_window_iff key (clean_token token) now h)
          (λ s. elim s [
            | inl c ↦ formed _ c
            | inr (inl c) ↦ formed _ c
            | inr (inr c) ↦ formed _ c
          ]))
