-- ===== src/Auth/Lockout/Window.antt =====
-- How long a lockout lasts.
use r2storage.Auth.Lockout.{
  Counter, LockoutConfig, LockoutState, Tier, both, count_failure, delete_counter, empty_counter,
  fail_global, fail_ip, fail_tier, fail_window_ms, failed_state, freshen, get_counter, ip_only,
  is_locked_out, record_failure, set_counter, status_of,
}
use r2storage.Prelude.{
  Bool-cases, List, Text, [], ap, arith, if◌then◌else◌, inl, inr, leb, refl, text_eq, text_eq_iff,
  text_eq_refl, true, ℕ, ◌*◌, ◌+◌, ◌<◌, ◌==◌, ◌∙◌, ◌∷◌, ◌≡◌, ◌≢◌, ◌≤◌,
}

pub get_counter-set_counter :
    (ip other : Text) (c : Counter) (m : List (Text × Counter))
    → get_counter other (set_counter ip c m) ≡ (if text_eq ip other then c else get_counter other m)
unfolding get_counter set_counter
get_counter-set_counter ip other c [] = refl
get_counter-set_counter ip other c ((k, d) ∷ m) = ground (
  arith,
  text_eq_iff k ip,
  text_eq_iff ip other,
  text_eq_iff k other,
  get_counter-set_counter ip other c m,
)

pub get_counter-delete_counter :
    (ip other : Text) (m : List (Text × Counter))
    → get_counter other (delete_counter ip m)
      ≡ (if text_eq ip other then empty_counter else get_counter other m)
unfolding get_counter delete_counter
get_counter-delete_counter ip other [] = ground arith
get_counter-delete_counter ip other ((k, d) ∷ m) = ground (
  arith,
  text_eq_iff k ip,
  text_eq_iff ip other,
  text_eq_iff k other,
  get_counter-delete_counter ip other m,
)

module _ (cfg : LockoutConfig) where
  -- A counter that locks an address stops locking it as soon as the window since its first failure
  -- has passed, whatever is left of the cooldown: at such an instant an address is refused exactly
  -- when the global counter refuses it.
  pub is_locked_out_forgets :
      (s : LockoutState) (ip : Text) (now : ℕ)
      → (get_counter ip s.per_ip).first_fail_at ≢ 0
      → (get_counter ip s.per_ip).first_fail_at + fail_window_ms < now
      → is_locked_out now ip s ≡ status_of now (freshen now s.global)
  unfolding is_locked_out freshen status_of
  is_locked_out_forgets s ip now h k = ground arith

  -- What a failure does to the counters: the caller's is one further, those of the others stay.
  pub failed_state-per_ip :
      (s : LockoutState) (ip other : Text) (tier : Tier) (now : ℕ)
      → get_counter other (failed_state cfg now ip tier s).per_ip ≡ (
          if text_eq ip other
          then fail_ip cfg now (freshen now (get_counter ip s.per_ip))
          else get_counter other s.per_ip)
  unfolding failed_state fail_tier fail_global
  failed_state-per_ip s ip other both now =
      elim (Bool-cases
        (leb cfg.global_threshold (count_failure now (freshen now s.global)).fail_count)) [
          | inl e ↦ rw e (get_counter-set_counter ip other _ s.per_ip)
          | inr e ↦ rw e (get_counter-set_counter ip other _ s.per_ip)
        ]
  failed_state-per_ip s ip other ip_only now = get_counter-set_counter ip other _ s.per_ip

  pub failed_state-own :
      (s : LockoutState) (ip : Text) (tier : Tier) (now : ℕ)
      → get_counter ip (failed_state cfg now ip tier s).per_ip
        ≡ fail_ip cfg now (freshen now (get_counter ip s.per_ip))
  failed_state-own s ip tier now =
      failed_state-per_ip s ip ip tier now
      ∙ ap
          (λ b.
            if b
            then fail_ip cfg now (freshen now (get_counter ip s.per_ip))
            else get_counter ip s.per_ip)
          (text_eq_refl ip)

  pub is_locked_out_of_counter :
      (s : LockoutState) (ip : Text) (now : ℕ)
      → (status_of now (freshen now (get_counter ip s.per_ip))).locked ≡ true
      → (is_locked_out now ip s).locked ≡ true
  unfolding is_locked_out
  is_locked_out_of_counter s ip now h = rw h

  fail_ip_locks :
      (c : Counter) (now later first : ℕ)
      → cfg.fail_threshold ≤ c.fail_count + 1
      → first ≡ (if c.fail_count == 0 then now else c.first_fail_at)
      → later < now + cfg.ip_cooldown_sec * 1000
      → later ≤ first + fail_window_ms
      → (status_of later (freshen later (fail_ip cfg now c))).locked ≡ true
  unfolding fail_ip count_failure freshen status_of
  fail_ip_locks c now later first a b k d = ground arith

  -- The failure that reaches the threshold locks the address: from then on a login is refused at
  -- every instant before the cooldown ends, as long as the window since the first failure of the
  -- series has not passed either.
  pub record_failure_locks :
      (s : LockoutState) (ip : Text) (tier : Tier) (now later first : ℕ)
      → let c = freshen now (get_counter ip s.per_ip) in
        cfg.fail_threshold ≤ c.fail_count + 1
        → first ≡ (if c.fail_count == 0 then now else c.first_fail_at)
        → later < now + cfg.ip_cooldown_sec * 1000
        → later ≤ first + fail_window_ms
        → (is_locked_out later ip (record_failure cfg now ip tier s).0).locked ≡ true
  unfolding record_failure
  record_failure_locks s ip tier now later first a b c d =
      is_locked_out_of_counter (failed_state cfg now ip tier s) ip later (
        rw (failed_state-own s ip tier now)
          (fail_ip_locks (freshen now (get_counter ip s.per_ip)) now later first a b c d))
