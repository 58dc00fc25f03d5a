-- ===== src/Auth/Session.antt =====
-- backend/src/auth/session.ts. The AdminSession table is a list of rows in the state, `hash` stands
-- for SHA-256 of `hashToken`, fresh tokens and row ids are given by the caller, and the two lifetimes
-- of CONFIG are in milliseconds. A row is found by its token hash, which the schema makes unique.
pub mod Expiry
use r2storage.Prelude.{
  Bool, List, Option, Text, [], false, if◌then◌else◌, leb, min, none, some, text_eq, true, ℕ, ◌+◌,
  ◌==◌, ◌∷◌,
}

pub record SessionConfig : Type 0 where
  pub ttl_ms : ℕ
  pub max_ms : ℕ

pub record Session : Type 0 where
  pub token_hash : Text
  pub ip : Option Text
  pub created_at : ℕ
  pub expires_at : ℕ

unfoldable pub find_session : Text → List Session → Option Session
find_session h [] = none
find_session h (r ∷ rs) = if text_eq r.token_hash h then some r else find_session h rs

unfoldable pub update_expiry : Text → ℕ → List Session → List Session
update_expiry h t [] = []
update_expiry h t (r ∷ rs) =
    if text_eq r.token_hash h then record r { expires_at = t } ∷ rs else r ∷ update_expiry h t rs

unfoldable pub delete_sessions : Text → List Session → List Session
delete_sessions h [] = []
delete_sessions h (r ∷ rs) =
    if text_eq r.token_hash h then delete_sessions h rs else r ∷ delete_sessions h rs

module _ (cfg : SessionConfig) (hash : Text → Text) where
  unfoldable pub session_expiry : ℕ → ℕ → ℕ
  session_expiry created now = min (now + cfg.ttl_ms) (created + cfg.max_ms)

  unfoldable pub create_session : Text → Option Text → ℕ → List Session → List Session
  unfolding session_expiry
  create_session token ip now rows =
      record {
        token_hash = hash token;
        ip = ip;
        created_at = now;
        expires_at = session_expiry now now;
      }
      ∷ rows

  unfoldable pub destroy_session : Option Text → List Session → List Session
  unfolding delete_sessions
  destroy_session none rows = rows
  destroy_session (some token) rows =
      if text_eq token [] then rows else delete_sessions (hash token) rows

  unfoldable pub live : ℕ → Option Session → Option Session
  live now none = none
  live now (some r) = if leb r.expires_at now then none else some r

  unfoldable pub get_session : ℕ → Option Text → List Session → Option Session
  unfolding live
  get_session now none rows = none
  get_session now (some token) rows =
      if text_eq token [] then none else live now (find_session (hash token) rows)

  renew_row : ℕ → Text → Option Session → List Session → Bool × List Session
  unfolding session_expiry
  renew_row now h none rows = (false, rows)
  renew_row now h (some r) rows =
      if session_expiry r.created_at now == r.expires_at
      then (true, rows)
      else (true, update_expiry h (session_expiry r.created_at now) rows)

  unfoldable pub renew_session : ℕ → Option Text → List Session → Bool × List Session
  unfolding renew_row
  renew_session now none rows = (false, rows)
  renew_session now (some token) rows =
      renew_row now (hash token) (get_session now (some token) rows) rows
