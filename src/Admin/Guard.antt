-- ===== src/Admin/Guard.antt =====
-- backend/src/api/admin.ts: who passes the guard.
use r2storage.Admin.{
  GuardResult, admin_guard, by_header, by_session, guard_secret, is_public_route, locked_reply,
  not_guarded, unauthorized,
}
use r2storage.Auth.Lockout.{fail_tier, failed_state, ip_only, is_locked_out, record_failure}
use r2storage.Auth.Login.{AuthConfig, AuthState, secrets_equal}
use r2storage.Auth.Session.{get_session, renew_session}
use r2storage.Auth.Session.Expiry.{renew_session-get_session}
use r2storage.Prelude.{
  Bool, Bool-cases, Option, Text, codes, false, inl, inr, is_some, none, refl, some, starts_with,
  text_eq, true, ℕ, ◌||◌, ◌∙◌, ◌≡◌,
}

-- Whether the guard lets the request on to its route.
unfoldable pub passes : GuardResult → Bool
passes not_guarded = true
passes by_session = true
passes by_header = true
passes unauthorized = false
passes (locked_reply n) = false

-- Whether the header carries the configured secret.
unfoldable pub holds_secret : AuthConfig → Option Text → Bool
holds_secret cfg none = false
holds_secret cfg (some provided) = text_eq provided cfg.admin_secret

-- What a request without a session leaves as it was.
abbrev pub Keeps : AuthState → AuthState → Type 0
Keeps s t =
    (t.sessions ≡ s.sessions)
    × (t.failed_logins ≡ s.failed_logins)
    × (t.lockout_state.global ≡ s.lockout_state.global)
    × (t.lockout_state.global_cooldown_sec ≡ s.lockout_state.global_cooldown_sec)

module _ (cfg : AuthConfig) (hash : Text → Text) (now : ℕ) (ip : Text) where
  guard_secret-Keeps :
      (provided : Option Text) (s : AuthState)
      → (passes (guard_secret cfg hash now ip provided s).1 ≡ holds_secret cfg provided)
        × Keeps s (guard_secret cfg hash now ip provided s).0
  unfolding guard_secret secrets_equal passes holds_secret record_failure failed_state fail_tier
  guard_secret-Keeps none s = (refl, (refl, refl, refl, refl))
  guard_secret-Keeps (some provided) s = elim (Bool-cases (text_eq provided cfg.admin_secret)) [
    | inl e ↦ rw e (refl, (refl, refl, refl, refl))
    | inr e ↦
        let status =
          is_locked_out now ip (failed_state cfg.lockout now ip ip_only s.lockout_state) in
        rw e (
          elim (Bool-cases status.locked) [ inl l ↦ rw l refl | inr l ↦ rw l refl ],
          (refl, refl, refl, refl),
        )
  ]

  renew_session-passes :
      (token : Option Text) (s : AuthState)
      → (renew_session cfg.session hash now token s.sessions).0
        ≡ is_some (get_session cfg.session hash now token s.sessions)
  unfolding renew_session get_session
  renew_session-passes none s = refl
  renew_session-passes (some token) s =
      (renew_session-get_session cfg.session hash now token s.sessions).0

  -- Where the raw URL begins with `/api/admin` and is not that of login, logout or session, the guard
  -- passes exactly the requests whose cookie is that of a live session or whose header carries the
  -- secret. One without a session, right or wrong, changes neither the sessions nor the failed logins
  -- nor the lockout's global tier, and one with a session leaves the lockout as it was. A URL that
  -- begins otherwise is let through unguarded, and changes nothing.
  pub admin_guard-passes :
      (url other : Text) (token provided : Option Text) (s : AuthState)
      → starts_with (codes "/api/admin") url ≡ true
      → is_public_route url ≡ false
      → starts_with (codes "/api/admin") other ≡ false
      → let live = is_some (get_session cfg.session hash now token s.sessions) in
        let (after, result) = admin_guard cfg hash now ip url token provided s in
        (passes result ≡ (live || holds_secret cfg provided))
        × (live ≡ false → Keeps s after)
        × (live ≡ true → after.lockout_state ≡ s.lockout_state)
        × (admin_guard cfg hash now ip other token provided s ≡ (s, not_guarded))
  unfolding admin_guard passes holds_secret
  admin_guard-passes url other token provided s h h' h'' =
      let renewed = renew_session-passes token s in
      elim (Bool-cases (is_some (get_session cfg.session hash now token s.sessions))) [
        | inl e ↦ rw (e, renewed ∙ e, h, h', admin_guard) (refl, λ f. cc, λ f. refl, rw h'' refl)
        | inr e ↦
            let (passed, kept) = guard_secret-Keeps provided s in
            rw (e, renewed ∙ e, h, h', admin_guard) (passed, λ f. kept, λ f. cc, rw h'' refl)
      ]
