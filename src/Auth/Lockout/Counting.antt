-- ===== src/Auth/Lockout/Counting.antt =====
-- Failures in a row from one address.
use r2storage.Auth.Lockout.{
  Counter, LockoutConfig, LockoutState, Tier, count_failure, empty_counter, fail_ip, fail_window_ms,
  failed_state, freshen, get_counter, is_locked_out, not_locked, record_failure, status_of,
}
use r2storage.Auth.Lockout.Window.{failed_state-own, record_failure_locks}
use r2storage.Prelude.{
  All, List, Text, [], ap, arith, if◌then◌else◌, length, subst, suc, sym, true, ℕ, ◌*◌, ◌+◌, ◌<◌,
  ◌==◌, ◌∙◌, ◌∷◌, ◌≡◌, ◌≤◌,
}

module _ (cfg : LockoutConfig) (ip : Text) (tier : Tier) where
  -- One failed attempt after another, at the given instants.
  unfoldable pub failures : List ℕ → LockoutState → LockoutState
  failures [] s = s
  failures (t ∷ ts) s = failures ts (record_failure cfg t ip tier s).0

  abbrev counted : ℕ → ℕ → Counter
  counted n t₀ = record { fail_count = n; first_fail_at = t₀; locked_until = 0 }

  freshen-counted : (n t₀ t : ℕ) → t ≤ t₀ + fail_window_ms → freshen t (counted n t₀) ≡ counted n t₀
  unfolding freshen
  freshen-counted n t₀ t k = ground arith

  fail_ip-counted :
      (n t₀ t : ℕ)
      → n + 2 < cfg.fail_threshold
      → t ≤ t₀ + fail_window_ms
      → fail_ip cfg t (freshen t (counted (suc n) t₀)) ≡ counted (suc (suc n)) t₀
  unfolding fail_ip count_failure
  fail_ip-counted n t₀ t h k = rw (freshen-counted (suc n) t₀ t k) (ground arith)

  failures-counted :
      (ts : List ℕ) (s : LockoutState) (n t₀ : ℕ)
      → get_counter ip s.per_ip ≡ counted (suc n) t₀
      → All (λ t. t ≤ t₀ + fail_window_ms) ts
      → n + 1 + length ts < cfg.fail_threshold
      → get_counter ip (failures ts s).per_ip ≡ counted (suc n + length ts) t₀
  unfolding failures record_failure
  failures-counted [] s n t₀ e a h = e ∙ ap (λ k. counted k t₀) (omega arith)
  failures-counted (t ∷ ts) s n t₀ e a h =
      failures-counted ts (failed_state cfg t ip tier s) (suc n) t₀
        (failed_state-own cfg s ip tier t
          ∙ ap (λ c. fail_ip cfg t (freshen t c)) e
          ∙ fail_ip-counted n t₀ t (omega arith) a.0)
        a.1 (omega arith)
      ∙ ap (λ k. counted k t₀) (omega arith)

  first_failure :
      (t : ℕ) → 1 < cfg.fail_threshold → fail_ip cfg t (freshen t empty_counter) ≡ counted 1 t
  unfolding fail_ip count_failure freshen
  first_failure t h = ground arith

  counted_unlocked : (n t₀ t : ℕ) → status_of t (freshen t (counted n t₀)) ≡ not_locked
  unfolding status_of freshen
  counted_unlocked n t₀ t = ground arith

  fits :
      (n t₀ t : ℕ)
      → t ≤ t₀ + fail_window_ms
      → cfg.fail_threshold ≡ n + 2
      → cfg.fail_threshold ≤ (freshen t (counted (suc n) t₀)).fail_count + 1
  unfolding freshen
  fits n t₀ t k h = ground arith

  starts :
      (n t₀ t : ℕ)
      → t ≤ t₀ + fail_window_ms
      → t₀ ≡ (
          if (freshen t (counted (suc n) t₀)).fail_count == 0
          then t
          else (freshen t (counted (suc n) t₀)).first_fail_at)
  unfolding freshen
  starts n t₀ t k = ground arith

  -- From an address with no failures on record, failures within one window of the first: before the
  -- threshold is reached the address is not refused on its own account, and the failure that reaches
  -- it locks the address until the cooldown or the window ends, whichever is first.
  pub failures_lock :
      (ts : List ℕ) (s : LockoutState) (t₀ last later : ℕ)
      → get_counter ip s.per_ip ≡ empty_counter
      → All (λ t. t ≤ t₀ + fail_window_ms) ts
      → last ≤ t₀ + fail_window_ms
      → cfg.fail_threshold ≡ length ts + 2
      → later < last + cfg.ip_cooldown_sec * 1000
      → later ≤ t₀ + fail_window_ms
      → let before = failures (t₀ ∷ ts) s in
        (status_of last (freshen last (get_counter ip before.per_ip)) ≡ not_locked)
        × ((is_locked_out later ip (record_failure cfg last ip tier before).0).locked ≡ true)
  unfolding failures record_failure
  failures_lock ts s t₀ last later e a k n l w =
      let s₁ = failed_state cfg t₀ ip tier s in
      let before = failures ts s₁ in
      let started : get_counter ip s₁.per_ip ≡ counted 1 t₀ =
        failed_state-own cfg s ip tier t₀
        ∙ ap (λ c. fail_ip cfg t₀ (freshen t₀ c)) e
        ∙ first_failure t₀ (omega arith) in
      let full : get_counter ip before.per_ip ≡ counted (suc (length ts)) t₀ =
        failures-counted ts s₁ 0 t₀ started a (omega arith)
        ∙ ap (λ k. counted k t₀) (omega arith) in
      (
        ap (λ c. status_of last (freshen last c)) full ∙ counted_unlocked (suc (length ts)) t₀ last,
        record_failure_locks cfg before ip tier last later t₀
            (subst (λ c. cfg.fail_threshold ≤ (freshen last c).fail_count + 1) (sym full)
              (fits (length ts) t₀ last k n))
            (subst
              (λ c. t₀ ≡ (
                if (freshen last c).fail_count == 0 then last else (freshen last c).first_fail_at))
              (sym full) (starts (length ts) t₀ last k))
            l w,
      )
