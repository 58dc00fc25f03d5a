-- ===== src/Auth/Login/Factors.antt =====
-- What a login takes and what it gives.
use r2storage.Auth.Lockout.{
  LockoutState, delete_counter, empty_counter, freshen, get_counter, is_locked_out, not_locked,
  reset_lockout, status_of,
}
use r2storage.Auth.Lockout.Window.{get_counter-delete_counter}
use r2storage.Auth.Login.{
  AuthConfig, AuthState, code_accepted, failed_login, logged_in, login, secret_accepted,
}
use r2storage.Auth.Session.{
  Session, create_session, find_session, get_session, live, session_expiry,
}
use r2storage.Prelude.{
  Bool-cases, List, Option, Text, [], ap, arith, false, if◌then◌else◌, inl, inr, is_some, refl,
  some, text_eq, text_eq_refl, true, ℕ, ◌+◌, ◌<◌, ◌∙◌, ◌≡◌, ◌⊎◌,
}
use r2storage.Store.{Bytes}

module _ (cfg : AuthConfig) (hash : Text → Text) (hmac_sha1 : Bytes → Bytes → Bytes) where
  status_of-empty : (now : ℕ) → status_of now (freshen now empty_counter) ≡ not_locked
  unfolding status_of freshen
  status_of-empty now = ground arith

  get_session-create_session :
      (now t : ℕ) (token ip : Text) (rows : List Session)
      → text_eq token [] ≡ false
      → t < now + cfg.session.ttl_ms
      → t < now + cfg.session.max_ms
      → is_some (
          get_session cfg.session hash t
            (some token)
            (create_session cfg.session hash token (some ip) now rows))
        ≡ true
  unfolding get_session create_session find_session session_expiry live
  get_session-create_session now t token ip rows e h k =
      rw (e, text_eq_refl (hash token), create_session) (ground arith)

  is_locked_out-reset_lockout :
      (now : ℕ) (ip : Text) (s : LockoutState)
      → is_locked_out now ip (reset_lockout cfg.lockout ip s) ≡ not_locked
  unfolding is_locked_out reset_lockout
  is_locked_out-reset_lockout now ip s =
      let own : get_counter ip (delete_counter ip s.per_ip) ≡ empty_counter =
        get_counter-delete_counter ip ip s.per_ip
        ∙ ap (λ b. if b then empty_counter else get_counter ip s.per_ip) (text_eq_refl ip) in
      rw (own, status_of-empty now) refl

  -- A session is given out only where the address was not locked out and both factors were right, and
  -- any other answer leaves the sessions as they were.
  pub login_needs_both :
      (now : ℕ) (token ip : Text) (secret totp : Option Text) (s : AuthState)
      → let (s', reply) = login cfg hash hmac_sha1 now token ip secret totp s in
        ((is_locked_out now ip s.lockout_state).locked ≡ false)
          × (secret_accepted cfg hash hmac_sha1 secret ≡ true)
          × (code_accepted cfg hash hmac_sha1 totp now ≡ true)
          × (reply ≡ logged_in token)
        ⊎ (¬ (reply ≡ logged_in token)) × (s'.sessions ≡ s.sessions)
  unfolding login failed_login
  login_needs_both now token ip secret totp s =
      elim (Bool-cases (is_locked_out now ip s.lockout_state).locked) [
        | inl locked_out ↦ rw (locked_out, login) (inr ((λ e. cc), refl))
        | inr free ↦ elim (Bool-cases (secret_accepted cfg hash hmac_sha1 secret)) [
          | inr wrong ↦ rw (free, wrong, login) (inr ((λ e. cc), refl))
          | inl right ↦ elim (Bool-cases (code_accepted cfg hash hmac_sha1 totp now)) [
            | inr wrong ↦ rw (free, right, wrong, login) (inr ((λ e. cc), refl))
            | inl good ↦ rw (free, right, good, login) (inl (refl, refl, refl, refl))
          ]
        ]
      ]

  -- A login with both factors right, from an address that is not locked out, answers with the token:
  -- the token opens a session until either lifetime is over, and the address is not locked out
  -- afterwards.
  pub login-get_session :
      (now t : ℕ) (token ip : Text) (secret totp : Option Text) (s : AuthState)
      → (is_locked_out now ip s.lockout_state).locked ≡ false
      → secret_accepted cfg hash hmac_sha1 secret ≡ true
      → code_accepted cfg hash hmac_sha1 totp now ≡ true
      → text_eq token [] ≡ false
      → t < now + cfg.session.ttl_ms
      → t < now + cfg.session.max_ms
      → let (s', reply) = login cfg hash hmac_sha1 now token ip secret totp s in
        (reply ≡ logged_in token)
        × (is_some (get_session cfg.session hash t (some token) s'.sessions) ≡ true)
        × (is_locked_out t ip s'.lockout_state ≡ not_locked)
  unfolding login
  login-get_session now t token ip secret totp s free right good e h k =
      rw (free, right, good, login)
        (
          refl,
          get_session-create_session now t token ip s.sessions e h k,
          is_locked_out-reset_lockout t ip s.lockout_state,
        )
