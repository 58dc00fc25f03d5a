-- ===== src/Platform/Tests.antt =====
-- Runs of the control plane.
use mathlib.Core.Bool.{true≢false}
use r2storage.Platform.{
  Customer, Instance, Plan, PlatformConfig, PlatformState, active_status, count,
  delete_instance_row, find_instance, find_plan, remove_text, update_instance,
}
use r2storage.Platform.Billing.{
  StripeEvent, SyncOptions, active_instance, apply_plan_to_instance, find_customer, has_stripe_id,
  plans, subscription_updated, sync_subscription,
}
use r2storage.Platform.Billing.Quota.{TellsOwnLimits, handle_events, handle_events-TellsOwnLimits}
use r2storage.Platform.Domains.{
  active_by_port, escape_regex, free_port_from, insert_by_port, is_valid_domain, next_free_port,
  reload_nginx, write_map_file,
}
use r2storage.Platform.Invariant.{Reachable-WellFormed, WellFormed, provisions, starts, steps}
use r2storage.Platform.Provision.{
  Answers, Provisioned, activate, add_hostname, create_instance, create_key, delete_instance,
  new_instance, not_unique, provision_error, provision_failed, provision_instance, provisioned,
  roll_back, start_tenant,
}
use r2storage.Platform.Provision.Outcome.{IsProvisionOutcome, provision_instance-IsProvisionOutcome}
use r2storage.Platform.Reserved.{at_once, delete_instance_keeps_domain}
use r2storage.Platform.Routes.{delete_instance_route, patch_instance}
use r2storage.Platform.Routes.Ownership.{instance_routes_need_owner}
use r2storage.Platform.Sessions.{
  SessionRow, customer_of, find_row, get_platform_session, require_customer, require_operator,
}
use r2storage.Prelude.{
  [], ap, codes, drop_spaces, is_digit, is_space, lower, none, refl, some, some_inj, split,
  split_push, sym, text_eq, to_lower, trim, true, ◌∙◌, ◌∷◌, ◌≡◌, ◌⊎◌,
}

abbrev small_host : PlatformConfig
small_host = record {
  tenant_port_min = 41001;
  tenant_port_max = 41499;
  max_instances_per_customer = 1;
  max_active_instances = 50;
  map_file_set = true;
  reloads_nginx = true;
}

abbrev good_answers : Answers
good_answers = record {
  image_ready = true;
  new_id = codes "i1";
  random_token = codes "t";
  container = some (codes "c1");
  healthy = true;
  bucket_created = true;
  quota_set = true;
  key_created = some (codes "k", codes "s");
  hostname = some (codes "h1");
  nginx_ok = true;
}

abbrev ann : Customer
ann = record {
  id = codes "ann";
  plan_id = codes "free";
  stripe_customer_id = some (codes "cus_1");
  stripe_subscription_id = none;
  stripe_subscription_status = none;
  stripe_price_id = none;
}

abbrev free_plan : Plan
free_plan = record { id = codes "free"; storage_bytes_limit = 5 }

abbrev no_tenants : PlatformState
no_tenants = record {
  customers = ann ∷ [];
  instances = [];
  plans = free_plan ∷ [];
  containers = [];
  hostnames = [];
  tenant_quotas = [];
  map_file = [];
}

abbrev ann_instance : Instance
ann_instance = record {
  id = codes "i1";
  customer_id = codes "ann";
  domain = codes "a.io";
  port = 41001;
  container_id = some (codes "c1");
  admin_secret = codes "t";
  initial_key = none;
  cf_hostname_id = none;
  status = active_status;
  plan_id = codes "free";
}

abbrev one_tenant : PlatformState
one_tenant = record no_tenants { instances = ann_instance ∷ [] }

abbrev deleted_tenant : PlatformState
deleted_tenant = (delete_instance small_host good_answers (codes "i1") one_tenant).0

abbrev retry : PlatformState × Provisioned
retry =
    provision_instance small_host good_answers (codes "ann") (codes "A.io") (codes "free")
      deleted_tenant

provisioned_once :
    (provision_instance small_host good_answers
      (codes "ann")
      (codes "A.io ")
      (codes "free")
      no_tenants).0.map_file
    ≡ (codes "a\\.io", 41001) ∷ []
unfolding provision_instance is_valid_domain trim to_lower is_space count next_free_port find_plan
    text_eq create_instance create_key activate reload_nginx write_map_file active_by_port
    update_instance escape_regex free_port_from insert_by_port add_hostname new_instance
    provision_error roll_back start_tenant delete_instance_row remove_text drop_spaces is_digit
    lower split split_push
provisioned_once = refl

refused_twice : retry.1 ≡ provision_failed not_unique
unfolding delete_instance find_instance provision_instance is_valid_domain trim to_lower is_space
    count next_free_port find_plan text_eq create_instance create_key activate reload_nginx
    write_map_file active_by_port update_instance escape_regex free_port_from insert_by_port
    add_hostname new_instance provision_error roll_back start_tenant delete_instance_row remove_text
    drop_spaces is_digit lower split split_push
refused_twice = refl

provision_instance-IsProvisionOutcome_example :
    IsProvisionOutcome small_host good_answers
      (codes "ann")
      (codes "a.io")
      (codes "free")
      no_tenants
      (provision_instance small_host good_answers
        (codes "ann")
        (codes "a.io")
        (codes "free")
        no_tenants)
provision_instance-IsProvisionOutcome_example =
    provision_instance-IsProvisionOutcome small_host good_answers (codes "ann") (codes "a.io")
      (codes "free") no_tenants

delete_instance_keeps_domain_example : ¬ (retry ≡ (one_tenant, provisioned ann_instance))
unfolding text_eq trim to_lower is_space find_instance
delete_instance_keeps_domain_example =
    delete_instance_keeps_domain small_host good_answers good_answers (codes "i1") (codes "ann")
      (codes "A.io") (codes "free") one_tenant
      (delete_instance small_host good_answers (codes "i1") one_tenant).0 one_tenant ann_instance
      ann_instance refl refl at_once

Reachable-WellFormed_example :
    WellFormed small_host
      (provision_instance small_host good_answers
        (codes "ann")
        (codes "a.io")
        (codes "free")
        no_tenants).0
Reachable-WellFormed_example =
    Reachable-WellFormed small_host
      (provision_instance small_host good_answers (codes "ann") (codes "a.io") (codes "free")
        no_tenants).0
      (steps (starts no_tenants refl)
        (provisions good_answers (codes "ann") (codes "a.io") (codes "free") no_tenants))

abbrev upgrade : SyncOptions
upgrade = record {
  plan_id = some (codes "pro");
  price_id = none;
  subscription_id = some (codes "sub_1");
  status = some (codes "active");
}

abbrev upgraded : StripeEvent
upgraded = subscription_updated (some (codes "cus_1")) none (codes "sub_1") (codes "active")

handle_events-TellsOwnLimits_example :
    let after = handle_events (plans []) ((true, upgraded) ∷ []) one_tenant in
    (after.instances ≡ one_tenant.instances)
    × (after.plans ≡ one_tenant.plans)
    × TellsOwnLimits one_tenant.instances one_tenant.plans one_tenant.tenant_quotas
        after.tenant_quotas
handle_events-TellsOwnLimits_example =
    handle_events-TellsOwnLimits (plans []) ((true, upgraded) ∷ []) one_tenant

-- The customer's plan becomes `pro`, the tenant is told the limit of `free`.
upgrade_tells_old_limit :
    let after = sync_subscription (plans []) true (codes "cus_1") upgrade one_tenant in
    after.tenant_quotas ≡ (41001, 5) ∷ []
unfolding find_customer has_stripe_id text_eq active_instance find_plan sync_subscription
    apply_plan_to_instance
upgrade_tells_old_limit = refl

abbrev bob_session : SessionRow
bob_session = record {
  token_hash = codes "b";
  customer_id = some (codes "bob");
  role = codes "customer";
  expires_at = 100;
}

bob≢ann : ¬ (codes "bob" ≡ codes "ann")
unfolding text_eq
bob≢ann h = true≢false (ap (text_eq (codes "bob")) h)

instance_routes_need_owner_example :
    ((patch_instance small_host
        (λ t. t)
        (bob_session ∷ [])
        good_answers
        (some (codes "b"))
        50
        (codes "i1")
        (some (codes "suspend"))
        one_tenant).0
      ≡ one_tenant)
    × (((delete_instance_route small_host
            (λ t. t)
            (bob_session ∷ [])
            good_answers
            (some (codes "b"))
            50
            (codes "i1")
            one_tenant).0
          ≡ one_tenant)
        ⊎ (require_operator (λ t. t) (some (codes "b")) 50 (bob_session ∷ []) ≡ true))
unfolding require_operator get_platform_session text_eq find_row require_customer customer_of
    find_instance
instance_routes_need_owner_example =
    instance_routes_need_owner small_host (λ t. t) (bob_session ∷ []) good_answers
      (some (codes "b")) (some (codes "suspend")) 50 (codes "i1") one_tenant
      (λ inst found h. bob≢ann (some_inj (h ∙ ap (λ i. some i.customer_id) (sym (some_inj found)))))
