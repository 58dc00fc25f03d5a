-- ===== src/Auth/Tests.antt =====
-- Runs of the login code.
use r2storage.Auth.Lockout.{
  LockoutConfig, LockoutState, both, empty_counter, freshen, get_counter, is_locked_out, not_locked,
  record_failure, status_of,
}
use r2storage.Auth.Lockout.Counting.{failures, failures_lock}
use r2storage.Auth.Lockout.Window.{is_locked_out_forgets}
use r2storage.Auth.Login.{AuthConfig, AuthState, code_accepted, logged_in, login, secret_accepted}
use r2storage.Auth.Login.Factors.{login-get_session, login_needs_both}
use r2storage.Auth.Session.{
  Session, SessionConfig, create_session, find_session, get_session, session_expiry,
}
use r2storage.Auth.Session.Expiry.{get_session_ceiling, log_in, next_table, no_sessions}
use r2storage.Auth.Totp.{base32_decode, clean_token, totp_code, verify_totp}
use r2storage.Auth.Totp.Window.{verify_totp_iff}
use r2storage.Prelude.{
  List, Text, [], arith, codes, false, is_some, is_space, none, refl, some, text_eq, true, ◌++◌,
  ◌+◌, ◌<◌, ◌↔◌, ◌∷◌, ◌≡◌, ◌⊎◌,
}
use r2storage.Store.{Bytes}

abbrev limits : LockoutConfig
limits = record {
  fail_threshold = 3;
  ip_cooldown_sec = 900;
  global_threshold = 100;
  base_cooldown_sec = 60;
}

abbrev lifetimes : SessionConfig
lifetimes = record { ttl_ms = 100; max_ms = 250 }

abbrev guest : Text
guest = codes "10.0.0.7"

abbrev quiet : LockoutState
quiet = record { per_ip = []; global = empty_counter; global_cooldown_sec = 60 }

abbrev settings : AuthConfig
settings = record {
  admin_secret = codes "hunter2";
  admin_totp_secret = [];
  lockout = limits;
  session = lifetimes;
}

abbrev nobody : AuthState
nobody = record { lockout_state = quiet; sessions = []; failed_logins = [] }

-- A hash and an HMAC for the runs.
abbrev marked : Text → Text
marked s = 35 ∷ s

abbrev mixed : Bytes → Bytes → Bytes
mixed key message = key ++ message ++ (0 ∷ 0 ∷ 0 ∷ 0 ∷ [])

abbrev cookie : Text
cookie = codes "t1"

abbrev locked_guest : LockoutState
locked_guest = record quiet {
  per_ip = (guest, record { fail_count = 0; first_fail_at = 5; locked_until = 9000000 }) ∷ [];
}

is_locked_out_forgets_example :
    is_locked_out 3600006 guest locked_guest ≡ status_of 3600006 (freshen 3600006 empty_counter)
unfolding get_counter text_eq
is_locked_out_forgets_example =
    is_locked_out_forgets limits locked_guest guest 3600006 (λ e. omega (arith, e)) (omega arith)

failures_lock_example :
    let before = failures limits guest both (1000 ∷ 2000 ∷ []) quiet in
    (status_of 3000 (freshen 3000 (get_counter guest before.per_ip)) ≡ not_locked)
    × ((is_locked_out 800000 guest (record_failure limits 3000 guest both before).0).locked ≡ true)
unfolding get_counter
failures_lock_example =
    failures_lock limits guest both (2000 ∷ []) quiet 1000 3000 800000 refl (omega arith, tt)
      (omega arith) refl (omega arith) (omega arith)

abbrev one_session : List Session
one_session = create_session lifetimes marked cookie (some guest) 1000 []

get_session_ceiling_example : 1050 < 1000 + 250
unfolding get_session create_session find_session text_eq session_expiry
get_session_ceiling_example =
    get_session_ceiling lifetimes marked {rows = one_session} 1050 cookie
      (record { token_hash = marked cookie; ip = some guest; created_at = 1000; expires_at = 1100 })
      (next_table no_sessions (log_in cookie (some guest) 1000)) refl

login_needs_both_example :
    let (after, reply) =
      login settings marked mixed 1000 cookie guest (some (codes "wrong")) none nobody in
    ((is_locked_out 1000 guest quiet).locked ≡ false)
      × (secret_accepted settings marked mixed (some (codes "wrong")) ≡ true)
      × (code_accepted settings marked mixed none 1000 ≡ true)
      × (reply ≡ logged_in cookie)
    ⊎ (¬ (reply ≡ logged_in cookie)) × (after.sessions ≡ [])
login_needs_both_example =
    login_needs_both settings marked mixed 1000 cookie guest (some (codes "wrong")) none nobody

login-get_session_example :
    let (after, reply) =
      login settings marked mixed 1000 cookie guest (some (codes "hunter2")) none nobody in
    (reply ≡ logged_in cookie)
    × (is_some (get_session lifetimes marked 1099 (some cookie) after.sessions) ≡ true)
    × (is_locked_out 1099 guest after.lockout_state ≡ not_locked)
unfolding is_locked_out get_counter freshen status_of secret_accepted code_accepted text_eq
login-get_session_example =
    login-get_session settings marked mixed 1000 1099 cookie guest (some (codes "hunter2")) none
      nobody refl refl refl refl (omega arith) (omega arith)

abbrev totp_secret : Text
totp_secret = codes "MFRG GZDF"

abbrev totp_key : Bytes
totp_key = 97 ∷ 98 ∷ 99 ∷ 100 ∷ 101 ∷ []

verify_totp_iff_example :
    let clean = clean_token (some (codes "000 000")) in
    (verify_totp mixed totp_secret (some (codes "000 000")) 90 ≡ true) ↔ (
      (clean ≡ totp_code mixed totp_key 60)
      ⊎ (clean ≡ totp_code mixed totp_key 90)
      ⊎ (clean ≡ totp_code mixed totp_key 120))
unfolding base32_decode is_space
verify_totp_iff_example =
    verify_totp_iff mixed totp_secret totp_key (some (codes "000 000")) 90 refl (omega arith)
