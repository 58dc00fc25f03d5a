-- ===== src/Platform/Sessions.antt =====
-- platform/lib/session.ts: the sessions of customers and of the operator. The hash of a token is a
-- parameter; the token is that of the cookie, if it carries one.
use r2storage.Prelude.{
  Bool, List, Option, Text, [], codes, false, if◌then◌else◌, ltb, none, some, text_eq, ℕ, ◌*◌, ◌+◌,
  ◌∷◌,
}

pub record SessionRow : Type 0 where
  pub token_hash : Text
  pub customer_id : Option Text
  pub role : Text
  pub expires_at : ℕ

pub record SessionInfo : Type 0 where
  pub role : Text
  pub customer_id : Option Text

unfoldable pub find_row : Text → List SessionRow → Option SessionRow
find_row h [] = none
find_row h (s ∷ rows) = if text_eq s.token_hash h then some s else find_row h rows

unfoldable pub delete_rows : Text → List SessionRow → List SessionRow
delete_rows h [] = []
delete_rows h (s ∷ rows) =
    let rest = delete_rows h rows in if text_eq s.token_hash h then rest else s ∷ rest

module _ (sha256 : Text → Text) where
  unfoldable pub create_platform_session :
      ℕ → ℕ → Text → Option Text → Text → List SessionRow → List SessionRow
  create_platform_session ttl_hours now token customer role rows =
      record {
        token_hash = sha256 token;
        customer_id = customer;
        role = role;
        expires_at = now + ttl_hours * 3600000;
      }
      ∷ rows

  unfoldable pub destroy_platform_session : Option Text → List SessionRow → List SessionRow
  destroy_platform_session none rows = rows
  destroy_platform_session (some token) rows =
      if text_eq token [] then rows else delete_rows (sha256 token) rows

  unfoldable pub get_platform_session : Option Text → ℕ → List SessionRow → Option SessionInfo
  get_platform_session none now rows = none
  get_platform_session (some token) now rows =
      if text_eq token [] then none else elim (find_row (sha256 token) rows) [
        | none ↦ none
        | some s ↦
            if ltb s.expires_at now
            then none
            else some (record { role = s.role; customer_id = s.customer_id })
      ]

  -- An UnauthorizedError is `none`, or false.
  unfoldable pub customer_of : SessionInfo → Option Text
  customer_of s =
      if text_eq s.role (codes "customer")
      then elim s.customer_id [ none ↦ none | some id ↦ if text_eq id [] then none else some id ]
      else none

  unfoldable pub require_customer : Option Text → ℕ → List SessionRow → Option Text
  unfolding customer_of
  require_customer token now rows = elim (get_platform_session token now rows) [
    | none ↦ none
    | some s ↦ customer_of s
  ]

  unfoldable pub require_operator : Option Text → ℕ → List SessionRow → Bool
  require_operator token now rows = elim (get_platform_session token now rows) [
    | none ↦ false
    | some s ↦ text_eq s.role (codes "operator")
  ]
