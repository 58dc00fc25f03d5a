-- ===== src/Auth/Totp.antt =====
-- backend/src/auth/totp.ts, with the window of one step, the six digits and the step of 30 seconds
-- that `verifyTotp` has by default and that the login uses. `hmac_sha1` is that of node:crypto.
pub mod Window
use r2storage.Prelude.{
  Bool, List, Option, Text, [], all, false, get_elem?, get_or_else, if◌then◌else◌, is_digit,
  is_space, leb, length, ltb, map, none, not, some, text_eq, trim, ℕ, ◌%◌, ◌&&◌, ◌*◌, ◌+◌, ◌-◌, ◌/◌,
  ◌==◌, ◌^◌, ◌||◌, ◌∷◌,
}
use r2storage.Store.{Bytes}

unfoldable pub keep : (ℕ → Bool) → Text → Text
keep p [] = []
keep p (c ∷ s) = let rest = keep p s in if p c then c ∷ rest else rest

upper : ℕ → ℕ
upper c = if leb b'a' c && leb c b'z' then c - 32 else c

-- The place of a code unit in the alphabet `A-Z2-7`.
base32_digit : ℕ → Option ℕ
base32_digit c =
    if leb b'A' c && leb c b'Z'
    then some (c - b'A')
    else if leb b'2' c && leb c b'7'
    then some (c - 24)
    else none

base32_bits : Text → Option (List ℕ)
unfolding base32_digit
base32_bits [] = some []
base32_bits (c ∷ s) =
    let rest = base32_bits s in
    elim (base32_digit c) [
      | none ↦ none
      | some v ↦ elim rest [
        | none ↦ none
        | some bits ↦ some (v / 16 % 2 ∷ v / 8 % 2 ∷ v / 4 % 2 ∷ v / 2 % 2 ∷ v % 2 ∷ bits)
      ]
    ]

bytes_of : List ℕ → Bytes
bytes_of (a ∷ b ∷ c ∷ d ∷ e ∷ f ∷ g ∷ h ∷ bits) =
    (((((((a * 2 + b) * 2 + c) * 2 + d) * 2 + e) * 2 + f) * 2 + g) * 2 + h) ∷ bytes_of bits
bytes_of other = []

-- An exception is `none`.
base32_cleaned : Text → Option Bytes
unfolding base32_bits bytes_of
base32_cleaned s =
    if length s == 0 || length s * 5 % 8 == 1
    then none
    else elim (base32_bits s) [ none ↦ none | some bits ↦ some (bytes_of bits) ]

unfoldable pub base32_decode : Text → Option Bytes
unfolding base32_cleaned keep upper
base32_decode input =
    base32_cleaned (map upper (keep (λ c. not (c == b'=' || is_space c || c == b'-')) input))

-- The 8 bytes of `writeBigUInt64BE`.
counter_bytes : ℕ → Bytes
counter_bytes n =
    n / 2 ^ 56 % 256
    ∷ n / 2 ^ 48 % 256
    ∷ n / 2 ^ 40 % 256
    ∷ n / 2 ^ 32 % 256
    ∷ n / 2 ^ 24 % 256
    ∷ n / 2 ^ 16 % 256
    ∷ n / 2 ^ 8 % 256
    ∷ n % 256
    ∷ []

byte_at : Bytes → ℕ → ℕ
byte_at s i = get_or_else (get_elem? s i) 0

-- The dynamic truncation of the HMAC to 31 bits.
truncated_hmac : Bytes → ℕ
unfolding byte_at
truncated_hmac h =
    let offset = byte_at h (length h - 1) % 16 in
    byte_at h offset % 128 * 2 ^ 24
    + byte_at h (offset + 1) * 2 ^ 16
    + byte_at h (offset + 2) * 2 ^ 8
    + byte_at h (offset + 3)

-- `(n % 10 ** 6).toString().padStart(6, '0')`
unfoldable pub six_digits : ℕ → Text
six_digits n =
    (b'0' + n / 100000 % 10)
    ∷ (b'0' + n / 10000 % 10)
    ∷ (b'0' + n / 1000 % 10)
    ∷ (b'0' + n / 100 % 10)
    ∷ (b'0' + n / 10 % 10)
    ∷ (b'0' + n % 10)
    ∷ []

-- A missing token is the empty text.
unfoldable pub clean_token : Option Text → Text
unfolding keep
clean_token token = keep (λ c. not (is_space c || c == b'-')) (trim (get_or_else token []))

module _ (hmac_sha1 : Bytes → Bytes → Bytes) where
  unfoldable pub totp_code : Bytes → ℕ → Text
  unfolding counter_bytes truncated_hmac
  totp_code key time = six_digits (truncated_hmac (hmac_sha1 key (counter_bytes (time / 30))))

  -- The candidates from the step before now on. The counter of an instant before 1970 is an exception.
  unfoldable pub matches_window : Bytes → Text → ℕ → Bool
  unfolding totp_code
  matches_window key clean now =
      not (ltb now 30)
      && (text_eq clean (totp_code key (now - 30))
          || text_eq clean (totp_code key now)
          || text_eq clean (totp_code key (now + 30)))

  unfoldable pub matches_secret : Option Bytes → Text → ℕ → Bool
  unfolding matches_window
  matches_secret none clean now = false
  matches_secret (some key) clean now = matches_window key clean now

  unfoldable pub verify_totp : Text → Option Text → ℕ → Bool
  unfolding matches_secret base32_decode
  verify_totp secret token now =
      let clean = clean_token token in
      all is_digit clean && length clean == 6 && matches_secret (base32_decode secret) clean now
