-- ===== src/Auth/S3Auth/RoundTrip.antt =====
-- What a generated URL assumes of `encodeURIComponent`.
pub mod Split
mod Query
pub mod Accepted
use r2storage.Prelude.{Bool, Text, all, is_digit, leb, true, ℕ, ◌&&◌, ◌==◌, ◌||◌, ◌≡◌}

-- `encodeURIComponent` leaves letters, digits and `-_.!~*'()` alone, and gives those and `%` only.
abbrev pub is_unreserved : ℕ → Bool
is_unreserved c =
    is_digit c
    || (leb b'a' c && leb c b'z')
    || (leb b'A' c && leb c b'Z')
    || c == b'-'
    || c == b'_'
    || c == b'.'
    || c == b'!'
    || c == b'~'
    || c == b'*'
    || c == 39
    || c == b'('
    || c == b')'

abbrev pub is_encoded : ℕ → Bool
is_encoded c = is_unreserved c || c == b'%'

pub record UriEncoder : Type 0 where
  pub encode : Text → Text
  pub keeps : (t : Text) → all is_unreserved t ≡ true → encode t ≡ t
  pub gives : (t : Text) → all is_encoded (encode t) ≡ true
