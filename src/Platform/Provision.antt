-- ===== src/Platform/Provision.antt =====
-- platform/lib/provision.ts: the life of an instance. What Docker, the tenant, Cloudflare and nginx
-- answer is given, and so are the random texts and the id of a new row. `docker rm`, `start` and `stop`
-- and the deletion of a hostname, whose failures the code ignores, succeed.
pub mod Fresh
pub mod Outcome
use r2storage.Platform.{
  Instance, PlatformConfig, PlatformState, Status, active_status, count, delete_instance_row,
  deleted_status, find_instance, find_plan, is_active, is_pending, pending_status, remove_text,
  suspended_status, update_instance,
}
use r2storage.Platform.Domains.{is_valid_domain, next_free_port, reload_nginx, write_map_file}
use r2storage.Prelude.{
  Bool, List, Option, Text, any, false, if◌then◌else◌, leb, none, not, some, text_eq, to_lower,
  trim, true, ℕ, ◌&&◌, ◌==◌, ◌||◌, ◌∷◌,
}

pub data ProvisionError : Type 0 where
  invalid_domain domain_taken has_instance at_capacity no_image no_ports : ProvisionError
  unknown_plan not_unique no_container not_healthy tenant_failed nginx_failed : ProvisionError

pub data Provisioned : Type 0 where
  provisioned : Instance → Provisioned
  provision_failed : ProvisionError → Provisioned

-- The answers, each as `docker run`, `waitForHealth` and so on give them.
pub record Answers : Type 0 where
  pub image_ready : Bool
  pub new_id : Text
  pub random_token : Text
  pub container : Option Text
  pub healthy : Bool
  pub bucket_created : Bool
  pub quota_set : Bool
  pub key_created : Option (Text × Text)
  pub hostname : Option Text
  pub nginx_ok : Bool

abbrev pub is_live : Status → Bool
is_live deleted_status = false
is_live other = true

-- db.instance.create, where a unique column repeats a value: `none`.
unfoldable pub create_instance : Instance → List Instance → Option (List Instance)
create_instance new is =
    if any (λ i. text_eq i.domain new.domain || i.port == new.port || text_eq i.id new.id) is
    then none
    else some (new ∷ is)

unfoldable pub roll_back : Text → PlatformState → PlatformState
roll_back id p = record p {
  containers = remove_text id p.containers;
  instances = delete_instance_row id p.instances;
}

unfoldable pub add_hostname : Option Text → List Text → List Text
add_hostname none hs = hs
add_hostname (some h) hs = h ∷ hs

module _ (cfg : PlatformConfig) (answers : Answers) where
  -- The end of the `try`: the row becomes active, and nginx learns of it.
  unfoldable pub activate :
      Instance → Text → Text × Text → PlatformState → PlatformState × Provisioned
  unfolding add_hostname
  activate new container key p =
      let activated = λ (i : Instance). record i {
        container_id = some container;
        status = active_status;
        cf_hostname_id = answers.hostname;
        initial_key = some key;
      } in
      let q = write_map_file cfg (record p {
        hostnames = add_hostname answers.hostname p.hostnames;
        instances = update_instance new.id activated p.instances;
      }) in
      if reload_nginx cfg answers.nginx_ok
      then (q, provisioned (activated new))
      else (roll_back new.id q, provision_failed nginx_failed)

  -- The tenant's first key, which comes after its bucket and its quota.
  unfoldable pub create_key : Instance → Text → PlatformState → PlatformState × Provisioned
  create_key new container p = elim answers.key_created [
    | none ↦ (roll_back new.id p, provision_failed tenant_failed)
    | some key ↦ activate new container key p
  ]

  -- The `try` with its `catch`, on the row that was created.
  unfoldable pub start_tenant : Instance → ℕ → PlatformState → PlatformState × Provisioned
  start_tenant new limit p = elim answers.container [
    | none ↦ (roll_back new.id p, provision_failed no_container)
    | some container ↦
        let started = record p { containers = new.id ∷ remove_text new.id p.containers } in
        let told = record started { tenant_quotas = (new.port, limit) ∷ p.tenant_quotas } in
        if not answers.healthy
        then (roll_back new.id started, provision_failed not_healthy)
        else if not answers.bucket_created
        then (roll_back new.id started, provision_failed tenant_failed)
        else if not answers.quota_set
        then (roll_back new.id started, provision_failed tenant_failed)
        else create_key new container told
  ]

  unfoldable pub provision_error : Text → Text → PlatformState → Option ProvisionError
  provision_error customer normalized p =
      if not (is_valid_domain normalized)
      then some invalid_domain
      else if any (λ i. text_eq i.domain normalized && is_live i.status) p.instances
      then some domain_taken
      else if leb cfg.max_instances_per_customer
          (count (λ i. text_eq i.customer_id customer && is_live i.status) p.instances)
      then some has_instance
      else if leb cfg.max_active_instances
          (count (λ i. is_pending i.status || is_active i.status) p.instances)
      then some at_capacity
      else if not answers.image_ready
      then some no_image
      else none

  unfoldable pub new_instance : Text → Text → Text → ℕ → Instance
  new_instance customer normalized plan port = record {
    id = answers.new_id;
    customer_id = customer;
    domain = normalized;
    port = port;
    container_id = none;
    admin_secret = answers.random_token;
    initial_key = none;
    cf_hostname_id = none;
    status = pending_status;
    plan_id = plan;
  }

  unfoldable pub provision_instance :
      Text → Text → Text → PlatformState → PlatformState × Provisioned
  unfolding start_tenant new_instance provision_error
  provision_instance customer domain plan_id p =
      let normalized = trim (to_lower domain) in
      elim (provision_error customer normalized p) [
        | some e ↦ (p, provision_failed e)
        | none ↦ elim (next_free_port cfg p.instances) [
          | none ↦ (p, provision_failed no_ports)
          | some port ↦ elim (find_plan plan_id p.plans) [
            | none ↦ (p, provision_failed unknown_plan)
            | some plan ↦
                let new = new_instance customer normalized plan_id port in
                elim (create_instance new p.instances) [
                  | none ↦ (p, provision_failed not_unique)
                  | some rows ↦
                      start_tenant new plan.storage_bytes_limit (record p { instances = rows })
                ]
          ]
        ]
      ]

  unfoldable pub set_status : Status → Instance → Instance
  set_status status i = record i { status = status }

  -- The other operations return whether they completed; one on an unknown id throws at once.
  unfoldable pub suspend_instance : Text → PlatformState → PlatformState × Bool
  unfolding set_status
  suspend_instance id p = elim (find_instance id p.instances) [
    | none ↦ (p, false)
    | some inst ↦ (
      write_map_file cfg
          (record p { instances = update_instance id (set_status suspended_status) p.instances }),
      reload_nginx cfg answers.nginx_ok,
    )
  ]

  unfoldable pub resume_instance : Text → PlatformState → PlatformState × Bool
  unfolding set_status
  resume_instance id p = elim (find_instance id p.instances) [
    | none ↦ (p, false)
    | some inst ↦ if not answers.healthy then (p, false) else (
      write_map_file cfg
          (record p { instances = update_instance id (set_status active_status) p.instances }),
      reload_nginx cfg answers.nginx_ok,
    )
  ]

  remove_hostname : Option Text → List Text → List Text
  remove_hostname none hs = hs
  remove_hostname (some h) hs = remove_text h hs

  unfoldable pub delete_instance : Text → PlatformState → PlatformState × Bool
  unfolding remove_hostname
  delete_instance id p = elim (find_instance id p.instances) [
    | none ↦ (p, false)
    | some inst ↦ (
      write_map_file cfg (record p {
        containers = remove_text id p.containers;
        hostnames = remove_hostname inst.cf_hostname_id p.hostnames;
        instances =
            update_instance id (λ i. record i { status = deleted_status; container_id = none })
              p.instances;
      }),
      reload_nginx cfg answers.nginx_ok,
    )
  ]
