-- ===== src/Platform/Provision/Outcome.antt =====
-- Provisioning all or nothing.
use r2storage.Platform.{
  Instance, Plan, PlatformConfig, PlatformState, active_status, delete_instance_row, find_plan,
  is_active, remove_text, update_instance,
}
use r2storage.Platform.Domains.{is_valid_domain, next_free_port, reload_nginx, write_map_file}
use r2storage.Platform.Provision.{
  Answers, Provisioned, activate, add_hostname, create_instance, create_key, new_instance,
  nginx_failed, provision_error, provision_failed, provision_instance, provisioned, roll_back,
  start_tenant,
}
use r2storage.Platform.Provision.Fresh.{
  clash, clash-id, delete_instance_row-absent, next_free_port-free, remove_text-twice,
}
use r2storage.Prelude.{
  Bool-cases, List, Option-cases, Text, [], any, arith, false, inl, inr, none, refl, some, some_inj,
  sym, text_eq_refl, to_lower, trim, true, ℕ, ◌==◌, ◌∷◌, ◌≡◌, ◌≤◌, ◌⊎◌,
}

module _ (cfg : PlatformConfig) (answers : Answers) (customer domain plan_id : Text)
    (p : PlatformState) where
  -- nginx's map as it is written for the table with one row more.
  abbrev pub map_with : Instance → List (Text × ℕ)
  map_with i = (write_map_file cfg (record p { instances = i ∷ p.instances })).map_file

  abbrev pub IsProvisionOutcome : PlatformState × Provisioned → Type 0
  IsProvisionOutcome (after, provision_failed e) =
      (after.instances ≡ p.instances)
      × (after.customers ≡ p.customers)
      × ((after.hostnames ≡ p.hostnames)
          ⊎ ((e ≡ nginx_failed) × (after.hostnames ≡ add_hostname answers.hostname p.hostnames)))
      × ((after.containers ≡ p.containers)
          ⊎ (after.containers ≡ remove_text answers.new_id p.containers))
      × ((after.tenant_quotas ≡ p.tenant_quotas)
          ⊎ ((port : ℕ) × (limit : ℕ) × (any (λ j. j.port == port) p.instances ≡ false)
              × (after.tenant_quotas ≡ (port, limit) ∷ p.tenant_quotas)))
      × ((after.map_file ≡ p.map_file)
          ⊎ ((e ≡ nginx_failed)
              × ((i : Instance) × (any (λ j. clash j i) p.instances ≡ false)
                  × (after.map_file ≡ map_with i))))
  IsProvisionOutcome (after, provisioned i) =
      (after.instances ≡ i ∷ p.instances)
      × (after.customers ≡ p.customers)
      × (after.hostnames ≡ add_hostname answers.hostname p.hostnames)
      × (after.containers ≡ i.id ∷ remove_text i.id p.containers)
      × (is_active i.status ≡ true)
      × (i.customer_id ≡ customer)
      × (i.domain ≡ trim (to_lower domain))
      × (is_valid_domain i.domain ≡ true)
      × (any (λ j. clash j i) p.instances ≡ false)
      × (cfg.tenant_port_min ≤ i.port)
      × (i.port ≤ cfg.tenant_port_max)
      × ((plan : Plan) × (find_plan plan_id p.plans ≡ some plan)
          × (after.tenant_quotas ≡ (i.port, plan.storage_bytes_limit) ∷ p.tenant_quotas))
      × (after.map_file ≡ map_with i)

  abbrev row_of : ℕ → Instance
  row_of port = new_instance cfg answers customer (trim (to_lower domain)) plan_id port

  abbrev IsFresh : ℕ → Type 0
  IsFresh port =
      (is_valid_domain (trim (to_lower domain)) ≡ true)
      × (any (λ j. clash j (row_of port)) p.instances ≡ false)
      × (cfg.tenant_port_min ≤ port)
      × (port ≤ cfg.tenant_port_max)

  IsPlanned : Plan → Type 0
  IsPlanned plan = find_plan plan_id p.plans ≡ some plan

  clash-port :
      (port : ℕ) (is : List Instance)
      → any (λ j. clash j (row_of port)) is ≡ false
      → any (λ j. j.port == port) is ≡ false
  unfolding new_instance
  clash-port port [] h = refl
  clash-port port (j ∷ js) h = elim (Bool-cases (clash j (row_of port))) [
    | inl e ↦ absurd (cc (rw e at h))
    | inr e ↦
        let rest = clash-port port js (rw e at h) in
        let free : (j.port == port) ≡ false = ground (arith, e) in rw (free, rest) refl
  ]

  abbrev told : ℕ → ℕ → PlatformState
  told port limit = record p {
    instances = row_of port ∷ p.instances;
    containers = answers.new_id ∷ remove_text answers.new_id p.containers;
    tenant_quotas = (port, limit) ∷ p.tenant_quotas;
  }

  -- The row once it is active.
  abbrev active_row : ℕ → Text → Text × Text → Instance
  active_row port container key = record (row_of port) {
    container_id = some container;
    status = active_status;
    cf_hostname_id = answers.hostname;
    initial_key = some key;
  }

  activate-outcome :
      (port : ℕ) (plan : Plan) (container : Text) (key : Text × Text)
      → IsPlanned plan
      → IsFresh port
      → IsProvisionOutcome
          (activate cfg answers (row_of port) container key (told port plan.storage_bytes_limit))
  unfolding IsPlanned activate roll_back new_instance update_instance write_map_file
      delete_instance_row
  activate-outcome port plan container key planned (valid, apart, low, high) =
      let gone =
        delete_instance_row-absent answers.new_id p.instances
          (clash-id (row_of port) p.instances apart) in
      elim (Bool-cases (reload_nginx cfg answers.nginx_ok)) [
        | inl e ↦ elim (Bool-cases cfg.map_file_set) [
          | inl e' ↦
              rw (e, e', text_eq_refl answers.new_id)
                (
                  refl,
                  refl,
                  refl,
                  refl,
                  refl,
                  refl,
                  refl,
                  valid,
                  apart,
                  low,
                  high,
                  (plan, planned, refl),
                  refl,
                )
          | inr e' ↦
              rw (e, e', text_eq_refl answers.new_id)
                (
                  refl,
                  refl,
                  refl,
                  refl,
                  refl,
                  refl,
                  refl,
                  valid,
                  apart,
                  low,
                  high,
                  (plan, planned, refl),
                  refl,
                )
        ]
        | inr e ↦ elim (Bool-cases cfg.map_file_set) [
          | inl e' ↦
              rw (e, e', text_eq_refl answers.new_id)
                (
                  rw (text_eq_refl answers.new_id) gone,
                  refl,
                  inr (refl, refl),
                  inr (remove_text-twice answers.new_id p.containers),
                  inr (port, plan.storage_bytes_limit, clash-port port p.instances apart, refl),
                  inr (refl, (active_row port container key, apart, refl)),
                )
          | inr e' ↦
              rw (e, e', text_eq_refl answers.new_id)
                (
                  rw (text_eq_refl answers.new_id) gone,
                  refl,
                  inr (refl, refl),
                  inr (remove_text-twice answers.new_id p.containers),
                  inr (port, plan.storage_bytes_limit, clash-port port p.instances apart, refl),
                  inr (refl, (active_row port container key, apart, refl)),
                )
        ]
      ]

  create_key-outcome :
      (port : ℕ) (plan : Plan) (container : Text)
      → IsPlanned plan
      → IsFresh port
      → IsProvisionOutcome
          (create_key cfg answers (row_of port) container (told port plan.storage_bytes_limit))
  unfolding create_key roll_back new_instance delete_instance_row activate
  create_key-outcome port plan container planned (valid, apart, low, high) =
      let gone =
        delete_instance_row-absent answers.new_id p.instances
          (clash-id (row_of port) p.instances apart) in
      elim (Option-cases answers.key_created) [
        | inl e ↦ rw e (
          rw (text_eq_refl answers.new_id) gone,
          refl,
          inl refl,
          inr (remove_text-twice answers.new_id p.containers),
          inr (port, plan.storage_bytes_limit, clash-port port p.instances apart, refl),
          inl refl,
        )
        | inr (key, e) ↦
            rw e (activate-outcome port plan container key planned (valid, apart, low, high))
      ]

  start_tenant-outcome :
      (port : ℕ) (plan : Plan)
      → IsPlanned plan
      → IsFresh port
      → IsProvisionOutcome (
          start_tenant cfg answers
            (row_of port)
            plan.storage_bytes_limit
            (record p { instances = row_of port ∷ p.instances }))
  unfolding start_tenant roll_back new_instance delete_instance_row create_key activate
  start_tenant-outcome port plan planned (valid, apart, low, high) =
      let twice = remove_text-twice answers.new_id p.containers in
      let gone =
        delete_instance_row-absent answers.new_id p.instances
          (clash-id (row_of port) p.instances apart) in
      elim (Option-cases answers.container) [
        | inl e ↦
            rw (e, start_tenant)
              (rw (text_eq_refl answers.new_id) gone, refl, inl refl, inr refl, inl refl, inl refl)
        | inr (container, e) ↦ elim (Bool-cases answers.healthy) [
          | inr e1 ↦
              rw (e, e1, start_tenant)
                (
                  rw (text_eq_refl answers.new_id) gone,
                  refl,
                  inl refl,
                  inr twice,
                  inl refl,
                  inl refl,
                )
          | inl e1 ↦ elim (Bool-cases answers.bucket_created) [
            | inr e2 ↦
                rw (e, e1, e2, start_tenant)
                  (
                    rw (text_eq_refl answers.new_id) gone,
                    refl,
                    inl refl,
                    inr twice,
                    inl refl,
                    inl refl,
                  )
            | inl e2 ↦ elim (Bool-cases answers.quota_set) [
              | inr e3 ↦
                  rw (e, e1, e2, e3, start_tenant)
                    (
                      rw (text_eq_refl answers.new_id) gone,
                      refl,
                      inl refl,
                      inr twice,
                      inl refl,
                      inl refl,
                    )
              | inl e3 ↦
                  rw (e, e1, e2, e3, start_tenant)
                    (create_key-outcome port plan container planned (valid, apart, low, high))
            ]
          ]
        ]
      ]

  provision_error-valid :
      (normalized : Text)
      → provision_error cfg answers customer normalized p ≡ none
      → is_valid_domain normalized ≡ true
  unfolding provision_error
  provision_error-valid normalized h = elim (Bool-cases (is_valid_domain normalized)) [
    | inl e ↦ e
    | inr e ↦ absurd (cc (rw (e, provision_error) at h))
  ]

  create_instance-apart :
      (new : Instance) (is rows : List Instance)
      → create_instance new is ≡ some rows
      → (any (λ i. clash i new) is ≡ false) × (rows ≡ new ∷ is)
  unfolding create_instance
  create_instance-apart new is rows h = elim (Bool-cases (any (λ i. clash i new) is)) [
    | inl e ↦ absurd (cc (rw (e, create_instance) at h))
    | inr e ↦ (e, sym (some_inj (rw (e, create_instance) at h)))
  ]

  -- Provisioning either fails or adds one row in front. A failure leaves the tables of instances and
  -- of customers as they were, and no container of the new id where one was started; no custom hostname
  -- and no entry of nginx's map stays behind except where it fails at nginx, and a quota may have been
  -- told to a port that no row has. The row that is added is active and the customer's, with the
  -- trimmed lower-case domain, which is valid, and with a domain, a port in the configured range and an
  -- id that no other row has, not even a deleted one. Then the container runs, the hostname is
  -- registered, the tenant at the port has been told the limit of the plan, and the map is the one
  -- written with the row.
  pub provision_instance-IsProvisionOutcome :
      IsProvisionOutcome (provision_instance cfg answers customer domain plan_id p)
  unfolding IsPlanned provision_instance
  provision_instance-IsProvisionOutcome =
      elim (Option-cases (provision_error cfg answers customer (trim (to_lower domain)) p)) [
        | inr (error, e) ↦
            rw (e, provision_instance) (refl, refl, inl refl, inl refl, inl refl, inl refl)
        | inl e ↦ elim (Option-cases (next_free_port cfg p.instances)) [
          | inl e1 ↦
              rw (e, e1, provision_instance) (refl, refl, inl refl, inl refl, inl refl, inl refl)
          | inr (port, e1) ↦ elim (Option-cases (find_plan plan_id p.plans)) [
            | inl e2 ↦
                rw (e, e1, e2, provision_instance)
                  (refl, refl, inl refl, inl refl, inl refl, inl refl)
            | inr (plan, e2) ↦ elim (Option-cases (create_instance (row_of port) p.instances)) [
              | inl e3 ↦
                  rw (e, e1, e2, e3, provision_instance)
                    (refl, refl, inl refl, inl refl, inl refl, inl refl)
              | inr (rows, e3) ↦
                  let (apart, added) = create_instance-apart (row_of port) p.instances rows e3 in
                  let (free, low, high) = next_free_port-free cfg port p.instances e1 in
                  rw (e, e1, e2, e3, added, provision_instance)
                    (start_tenant-outcome port plan e2
                      (provision_error-valid (trim (to_lower domain)) e, apart, low, high))
            ]
          ]
        ]
      ]
