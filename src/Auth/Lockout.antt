-- ===== src/Auth/Lockout.antt =====
-- backend/src/auth/lockout.ts. The two module variables and the map are one state record; the clock
-- is an argument, one reading for a whole call. Times are milliseconds, `Map` is an association list
-- and the numbers of CONFIG are whole.
pub mod Window
pub mod Counting
use r2storage.Prelude.{
  Bool, List, Text, [], false, if◌then◌else◌, leb, ltb, min, not, text_eq, true, ℕ, ◌&&◌, ◌*◌, ◌+◌,
  ◌-◌, ◌/◌, ◌==◌, ◌∷◌,
}

pub record Counter : Type 0 where
  pub fail_count : ℕ
  pub first_fail_at : ℕ
  pub locked_until : ℕ

-- CONFIG.LOGIN_FAIL_THRESHOLD, LOGIN_IP_COOLDOWN_SEC, LOGIN_GLOBAL_THRESHOLD and
-- LOGIN_GLOBAL_COOLDOWN_SEC.
pub record LockoutConfig : Type 0 where
  pub fail_threshold : ℕ
  pub ip_cooldown_sec : ℕ
  pub global_threshold : ℕ
  pub base_cooldown_sec : ℕ

pub record LockoutState : Type 0 where
  pub per_ip : List (Text × Counter)
  pub global : Counter
  pub global_cooldown_sec : ℕ

pub record LockoutStatus : Type 0 where
  pub locked : Bool
  pub retry_after_sec : ℕ

pub data Tier : Type 0 where
  both ip_only : Tier

abbrev pub fail_window_ms : ℕ
fail_window_ms = 60 * 60 * 1000

abbrev pub max_global_cooldown_sec : ℕ
max_global_cooldown_sec = 60 * 60

abbrev pub empty_counter : Counter
empty_counter = record { fail_count = 0; first_fail_at = 0; locked_until = 0 }

abbrev pub not_locked : LockoutStatus
not_locked = record { locked = false; retry_after_sec = 0 }

unfoldable pub get_counter : Text → List (Text × Counter) → Counter
get_counter ip [] = empty_counter
get_counter ip ((k, c) ∷ m) = if text_eq k ip then c else get_counter ip m

unfoldable pub set_counter : Text → Counter → List (Text × Counter) → List (Text × Counter)
set_counter ip c [] = (ip, c) ∷ []
set_counter ip c ((k, d) ∷ m) = if text_eq k ip then (k, c) ∷ m else (k, d) ∷ set_counter ip c m

unfoldable pub delete_counter : Text → List (Text × Counter) → List (Text × Counter)
delete_counter ip [] = []
delete_counter ip ((k, d) ∷ m) =
    if text_eq k ip then delete_counter ip m else (k, d) ∷ delete_counter ip m

unfoldable pub freshen : ℕ → Counter → Counter
freshen now c =
    if not (c.first_fail_at == 0) && ltb fail_window_ms (now - c.first_fail_at)
    then empty_counter
    else c

-- `Math.ceil(ms / 1000)` is `(ms + 999) / 1000`.
unfoldable pub status_of : ℕ → Counter → LockoutStatus
status_of now c =
    if ltb now c.locked_until
    then record { locked = true; retry_after_sec = (c.locked_until - now + 999) / 1000 }
    else not_locked

unfoldable pub is_locked_out : ℕ → Text → LockoutState → LockoutStatus
is_locked_out now ip s =
    let ip_status = status_of now (freshen now (get_counter ip s.per_ip)) in
    if ip_status.locked then ip_status else status_of now (freshen now s.global)

-- One more failure on a freshened counter, before the threshold is looked at.
unfoldable pub count_failure : ℕ → Counter → Counter
count_failure now c = record c {
  fail_count = c.fail_count + 1;
  first_fail_at = if c.fail_count == 0 then now else c.first_fail_at;
}

module _ (cfg : LockoutConfig) where
  unfoldable pub fail_ip : ℕ → Counter → Counter
  fail_ip now c =
      let d = count_failure now c in
      if leb cfg.fail_threshold d.fail_count
      then record d { locked_until = now + cfg.ip_cooldown_sec * 1000; fail_count = 0 }
      else d

  unfoldable pub fail_global : ℕ → LockoutState → LockoutState
  fail_global now s =
      let d = count_failure now (freshen now s.global) in
      if leb cfg.global_threshold d.fail_count
      then record s {
        global = record d {
          locked_until =
              (if ltb now d.locked_until then d.locked_until else now)
              + min s.global_cooldown_sec max_global_cooldown_sec * 1000;
          fail_count = 0;
        };
        global_cooldown_sec = min (s.global_cooldown_sec * 2) max_global_cooldown_sec;
      }
      else record s { global = d }

  unfoldable pub fail_tier : ℕ → Tier → LockoutState → LockoutState
  unfolding fail_global
  fail_tier now both s = fail_global now s
  fail_tier now ip_only s = s

  unfoldable pub failed_state : ℕ → Text → Tier → LockoutState → LockoutState
  unfolding fail_tier
  failed_state now ip tier s = fail_tier now tier (record s {
    per_ip = set_counter ip (fail_ip now (freshen now (get_counter ip s.per_ip))) s.per_ip;
  })

  unfoldable pub record_failure : ℕ → Text → Tier → LockoutState → LockoutState × LockoutStatus
  record_failure now ip tier s =
      let s' = failed_state now ip tier s in
      let status = is_locked_out now ip s' in (s', if status.locked then status else not_locked)

  unfoldable pub reset_lockout : Text → LockoutState → LockoutState
  reset_lockout ip s = record {
    per_ip = delete_counter ip s.per_ip;
    global = empty_counter;
    global_cooldown_sec = cfg.base_cooldown_sec;
  }
