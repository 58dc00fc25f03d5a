-- ===== src/Platform/Routes/Ownership.antt =====
-- Who may change an instance.
use r2storage.Platform.{Instance, PlatformConfig, PlatformState, find_instance}
use r2storage.Platform.Provision.{Answers}
use r2storage.Platform.Routes.{delete_instance_route, guard, patch_instance}
use r2storage.Platform.Sessions.{SessionRow, require_customer, require_operator}
use r2storage.Prelude.{
  Bool-cases, List, Option, Option-cases, Text, ap, inl, inr, none, refl, some, sym, text_eq,
  text_eq_iff, true, ℕ, ◌∙◌, ◌≡◌, ◌⊎◌,
}

module _ (cfg : PlatformConfig) (sha256 : Text → Text) (rows : List SessionRow) where
  guard-owner :
      (token : Option Text) (now : ℕ) (id : Text) (p : PlatformState)
      → guard cfg sha256 rows token now id p ≡ none
      → (customer : Text) × (inst : Instance) × (require_customer sha256 token now rows
          ≡ some customer)
        × (find_instance id p.instances ≡ some inst)
        × (inst.customer_id ≡ customer)
  unfolding guard
  guard-owner token now id p h = elim (Option-cases (require_customer sha256 token now rows)) [
    | inl e ↦ absurd (cc (rw (e, guard) at h))
    | inr (customer, e) ↦ elim (Option-cases (find_instance id p.instances)) [
      | inl e' ↦ absurd (cc (rw (e, e', guard) at h))
      | inr (inst, e') ↦ elim (Bool-cases (text_eq inst.customer_id customer)) [
        | inl mine ↦ (customer, inst, e, e', (text_eq_iff inst.customer_id customer).0 mine)
        | inr other ↦ absurd (cc (rw (e, e', other, guard) at h))
      ]
    ]
  ]

  -- Where the session is not that of the customer whose instance it is, a PATCH leaves the platform as
  -- it is, whoever asks, and a DELETE does so unless the session is the operator's.
  pub instance_routes_need_owner :
      (answers : Answers) (token action : Option Text) (now : ℕ) (id : Text) (p : PlatformState)
      → ((inst : Instance)
          → find_instance id p.instances ≡ some inst
          → ¬ (require_customer sha256 token now rows ≡ some inst.customer_id))
      → ((patch_instance cfg sha256 rows answers token now id action p).0 ≡ p)
        × (((delete_instance_route cfg sha256 rows answers token now id p).0 ≡ p)
            ⊎ (require_operator sha256 token now rows ≡ true))
  unfolding patch_instance delete_instance_route
  instance_routes_need_owner answers token action now id p stranger =
      elim (Option-cases (guard cfg sha256 rows token now id p)) [
        | inr (status, e) ↦ elim (Bool-cases (require_operator sha256 token now rows)) [
          | inl h ↦ (rw (e, patch_instance) refl, inr h)
          | inr h ↦ (rw (e, patch_instance) refl, inl (rw (h, e, delete_instance_route) refl))
        ]
        | inl passed ↦
            let (customer, inst, session, found, mine) = guard-owner token now id p passed in
            absurd (stranger inst found (session ∙ ap some (sym mine)))
      ]
