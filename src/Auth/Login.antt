-- ===== src/Auth/Login.antt =====
-- backend/src/api/auth.ts and backend/src/auth/secrets.ts: the routes of the dashboard's login. Their
-- state is that of the lockout and of the sessions with the rows of FailedLogin. The clock is read
-- once; the delay of a failure is left out, and so is the audit log. `secretsEqual` compares the
-- bytes of UTF-8, which for texts without lone surrogates is the equality of the texts.
pub mod Factors
use r2storage.Auth.Lockout.{
  LockoutConfig, LockoutState, both, is_locked_out, record_failure, reset_lockout,
}
use r2storage.Auth.Session.{Session, SessionConfig, create_session, destroy_session}
use r2storage.Auth.Totp.{verify_totp}
use r2storage.Prelude.{
  Bool, List, Option, Text, [], false, if◌then◌else◌, none, not, some, text_eq, ℕ, ◌/◌, ◌||◌, ◌∷◌,
}
use r2storage.Store.{Bytes}

pub record AuthConfig : Type 0 where
  pub admin_secret : Text
  pub admin_totp_secret : Text
  pub lockout : LockoutConfig
  pub session : SessionConfig

pub record AuthState : Type 0 where
  pub lockout_state : LockoutState
  pub sessions : List Session
  pub failed_logins : List Text

pub data LoginReply : Type 0 where
  too_many_attempts : ℕ → LoginReply
  invalid_secret invalid_code : LoginReply
  logged_in : Text → LoginReply

unfoldable pub secrets_equal : Text → Text → Bool
secrets_equal a b = text_eq a b

module _ (cfg : AuthConfig) (hash : Text → Text) (hmac_sha1 : Bytes → Bytes → Bytes) where
  -- Whether the secret is right; one that is no string is `none`.
  unfoldable pub secret_accepted : Option Text → Bool
  unfolding secrets_equal
  secret_accepted none = false
  secret_accepted (some secret) = secrets_equal secret cfg.admin_secret

  unfoldable pub code_accepted : Option Text → ℕ → Bool
  code_accepted totp now =
      text_eq cfg.admin_totp_secret []
      || verify_totp hmac_sha1 cfg.admin_totp_secret totp (now / 1000)

  unfoldable pub failed_login : ℕ → Text → AuthState → AuthState
  failed_login now ip s = record s {
    lockout_state = (record_failure cfg.lockout now ip both s.lockout_state).0;
    failed_logins = ip ∷ s.failed_logins;
  }

  -- POST /api/admin/login, where `token` is the random token of a session that is created.
  unfoldable pub login :
      ℕ → Text → Text → Option Text → Option Text → AuthState → AuthState × LoginReply
  unfolding failed_login
  login now token ip secret totp s =
      let status = is_locked_out now ip s.lockout_state in
      if status.locked
      then (s, too_many_attempts status.retry_after_sec)
      else if not (secret_accepted secret)
      then (failed_login now ip s, invalid_secret)
      else if not (code_accepted totp now)
      then (failed_login now ip s, invalid_code)
      else (
        record s {
          lockout_state = reset_lockout cfg.lockout ip s.lockout_state;
          sessions = create_session cfg.session hash token (some ip) now s.sessions;
        },
        logged_in token,
      )

  -- POST /api/admin/logout with the token of the cookie.
  unfoldable pub logout : Option Text → AuthState → AuthState
  logout token s = record s { sessions = destroy_session cfg.session hash token s.sessions }
