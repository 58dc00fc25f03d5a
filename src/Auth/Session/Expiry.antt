-- ===== src/Auth/Session/Expiry.antt =====
-- Sliding renewal stays below the absolute ceiling.
use r2storage.Auth.Session.{
  Session, SessionConfig, create_session, delete_sessions, destroy_session, find_session,
  get_session, live, renew_row, renew_session, session_expiry, update_expiry,
}
use r2storage.Prelude.{
  All, Bool-cases, List, Option, Option-cases, Text, [], arith, inl, inr, is_some, leb, none, refl,
  some, text_eq, true, ℕ, ◌+◌, ◌<◌, ◌==◌, ◌∷◌, ◌≡◌, ◌≤◌,
}

module _ (cfg : SessionConfig) (hash : Text → Text) where
  -- No row outlives its creation by more than the maximum.
  abbrev pub IsCapped : List Session → Type 0
  IsCapped rows = All (λ r. r.expires_at ≤ r.created_at + cfg.max_ms) rows

  -- What may happen to the table.
  pub data SessionStep (rows : List Session) : List Session → Type 0 where
    log_in :
        (token : Text) (ip : Option Text) (now : ℕ)
        → SessionStep rows (create_session cfg hash token ip now rows)
    log_out : (token : Option Text) → SessionStep rows (destroy_session cfg hash token rows)
    renewal :
        (now : ℕ) (token : Option Text) → SessionStep rows (renew_session cfg hash now token rows).1

  capped_row :
      (x r : Session) (now : ℕ)
      → some x ≡ some r
      → session_expiry cfg hash r.created_at now ≤ x.created_at + cfg.max_ms
  unfolding session_expiry
  capped_row x r now e = ground arith

  update_expiry-IsCapped :
      (h : Text) (now : ℕ) (r : Session) (rows : List Session)
      → find_session h rows ≡ some r
      → IsCapped rows
      → IsCapped (update_expiry h (session_expiry cfg hash r.created_at now) rows)
  unfolding update_expiry find_session session_expiry
  update_expiry-IsCapped h now r [] f c = tt
  update_expiry-IsCapped h now r (x ∷ rows) f c = elim (Bool-cases (text_eq x.token_hash h)) [
    | inl e ↦ rw e (capped_row x r now (rw (e, find_session) at f), c.1)
    | inr e ↦ rw e (c.0, update_expiry-IsCapped h now r rows (rw (e, find_session) at f) c.1)
  ]

  delete_sessions-IsCapped :
      (h : Text) (rows : List Session) → IsCapped rows → IsCapped (delete_sessions h rows)
  unfolding delete_sessions
  delete_sessions-IsCapped h [] c = tt
  delete_sessions-IsCapped h (x ∷ rows) c = elim (Bool-cases (text_eq x.token_hash h)) [
    | inl e ↦ rw e (delete_sessions-IsCapped h rows c.1)
    | inr e ↦ rw e (c.0, delete_sessions-IsCapped h rows c.1)
  ]

  find_session-delete_sessions :
      (h : Text) (rows : List Session) → find_session h (delete_sessions h rows) ≡ none
  unfolding find_session delete_sessions
  find_session-delete_sessions h [] = refl
  find_session-delete_sessions h (x ∷ rows) = ground (arith, find_session-delete_sessions h rows)

  destroy_session-IsCapped :
      (token : Option Text) (rows : List Session)
      → IsCapped rows
      → IsCapped (destroy_session cfg hash token rows)
  unfolding destroy_session
  destroy_session-IsCapped none rows c = c
  destroy_session-IsCapped (some t) rows c = elim (Bool-cases (text_eq t [])) [
    | inl e ↦ rw e c
    | inr e ↦ rw e (delete_sessions-IsCapped (hash t) rows c)
  ]

  live-eq-some :
      (now : ℕ) (o : Option Session) (r : Session)
      → live cfg hash now o ≡ some r
      → (o ≡ some r) × (now < r.expires_at)
  unfolding live
  live-eq-some now none r h = cc
  live-eq-some now (some x) r h = elim (Bool-cases (leb x.expires_at now)) [
    | inl e ↦ cc (rw e at h)
    | inr e ↦ (ground arith, ground arith)
  ]

  -- A token is accepted for a row that is in the table and not expired.
  pub get_session-eq-some :
      (now : ℕ) (token : Text) (rows : List Session) (r : Session)
      → get_session cfg hash now (some token) rows ≡ some r
      → (find_session (hash token) rows ≡ some r) × (now < r.expires_at)
  unfolding get_session
  get_session-eq-some now token rows r h = elim (Bool-cases (text_eq token [])) [
    | inl e ↦ cc (rw e at h)
    | inr e ↦ live-eq-some now (find_session (hash token) rows) r (rw e at h)
  ]

  renew_session-IsCapped :
      (now : ℕ) (token : Option Text) (rows : List Session)
      → IsCapped rows
      → IsCapped (renew_session cfg hash now token rows).1
  unfolding renew_session renew_row
  renew_session-IsCapped now none rows c = c
  renew_session-IsCapped now (some t) rows c =
      elim (Option-cases (get_session cfg hash now (some t) rows)) [
        | inl e ↦ rw (e, renew_row) c
        | inr (r, e) ↦
            elim (Bool-cases (session_expiry cfg hash r.created_at now == r.expires_at)) [
              | inl same ↦ rw (e, renew_row, same) c
              | inr moved ↦
                  rw (e, renew_row, moved)
                    (update_expiry-IsCapped (hash t) now r rows
                      (get_session-eq-some now t rows r e).0 c)
            ]
      ]

  SessionStep-IsCapped :
      {rows rows' : List Session} → SessionStep rows rows' → IsCapped rows → IsCapped rows'
  unfolding create_session session_expiry
  SessionStep-IsCapped (log_in token ip now) c = (omega arith, c)
  SessionStep-IsCapped {rows} (log_out token) c = destroy_session-IsCapped token rows c
  SessionStep-IsCapped {rows} (renewal now token) c = renew_session-IsCapped now token rows c

  -- Tables that logins, logouts and authenticated requests lead to from the empty one.
  pub data SessionReach : List Session → Type 0 where
    no_sessions : SessionReach []
    next_table :
        {rows rows' : List Session}
        → SessionReach rows
        → SessionStep rows rows'
        → SessionReach rows'

  SessionReach-IsCapped : {rows : List Session} → SessionReach rows → IsCapped rows
  SessionReach-IsCapped no_sessions = tt
  SessionReach-IsCapped (next_table r s) = SessionStep-IsCapped s (SessionReach-IsCapped r)

  find_session-IsCapped :
      (h : Text) (rows : List Session) (r : Session)
      → IsCapped rows
      → find_session h rows ≡ some r
      → r.expires_at ≤ r.created_at + cfg.max_ms
  unfolding find_session
  find_session-IsCapped h [] r c f = cc
  find_session-IsCapped h (x ∷ rows) r c f = elim (Bool-cases (text_eq x.token_hash h)) [
    | inl e ↦ let same : some x ≡ some r = rw (e, find_session) at f in ground arith
    | inr e ↦ find_session-IsCapped h rows r c.1 (rw (e, find_session) at f)
  ]

  -- In a table that any sequence of logins, logouts and requests leads to, a token that is accepted
  -- stands for a row younger than the maximum, however often its session was renewed.
  pub get_session_ceiling :
      {rows : List Session} (now : ℕ) (token : Text) (r : Session)
      → SessionReach rows
      → get_session cfg hash now (some token) rows ≡ some r
      → now < r.created_at + cfg.max_ms
  get_session_ceiling {rows} now token r reach e =
      let (found, before) = get_session-eq-some now token rows r e in
      omega (
        arith,
        before,
        find_session-IsCapped (hash token) rows r (SessionReach-IsCapped reach) found,
      )

  renew_row_live :
      (now : ℕ) (h : Text) (r : Session) (rows : List Session)
      → (renew_row cfg hash now h (some r) rows).0 ≡ true
  unfolding renew_row
  renew_row_live now h r rows = ground arith

  -- A request renews exactly the sessions that are live: it is let through when `getSession` finds
  -- the token's session, and otherwise it is refused and the table stays as it was.
  pub renew_session-get_session :
      (now : ℕ) (token : Text) (rows : List Session)
      → ((renew_session cfg hash now (some token) rows).0
          ≡ is_some (get_session cfg hash now (some token) rows))
        × (get_session cfg hash now (some token) rows ≡ none
            → (renew_session cfg hash now (some token) rows).1 ≡ rows)
  unfolding renew_session renew_row
  renew_session-get_session now token rows =
      elim (Option-cases (get_session cfg hash now (some token) rows)) [
        | inl e ↦ (rw (e, renew_row), λ f. rw (e, renew_row))
        | inr (r, e) ↦ (rw e (renew_row_live now (hash token) r rows), λ f. cc)
      ]

  -- After a logout the token is dead.
  pub get_session-destroy_session :
      (now : ℕ) (token : Text) (rows : List Session)
      → get_session cfg hash now (some token) (destroy_session cfg hash (some token) rows) ≡ none
  unfolding get_session destroy_session live
  get_session-destroy_session now token rows = elim (Bool-cases (text_eq token [])) [
    | inl e ↦ rw e
    | inr e ↦ rw (e, find_session-delete_sessions (hash token) rows)
  ]
