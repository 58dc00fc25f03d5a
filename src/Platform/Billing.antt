-- ===== src/Platform/Billing.antt =====
-- platform/lib/plans.ts, platform/lib/stripe.ts and `applyPlanToInstance` of platform/lib/provision.ts:
-- what a webhook event changes. The fields of Stripe's objects are given as the code reads them; a
-- field of the options that is missing or null is `none`.
pub mod Quota
use r2storage.Platform.{Customer, Instance, PlatformState, find_plan, is_active}
use r2storage.Prelude.{
  Bool, List, Option, Text, [], codes, false, get_or_else, if◌then◌else◌, is_some, none, not, some,
  text_eq, ℕ, ◌&&◌, ◌*◌, ◌==◌, ◌^◌, ◌∷◌,
}

pub record PlanDef : Type 0 where
  pub id : Text
  pub price_monthly_cents : ℕ
  pub storage_bytes_limit : ℕ
  pub bandwidth_bytes_limit : ℕ
  pub stripe_price_id : Option Text

-- `price` is the environment's STRIPE_PRICE_PRO, or the empty text.
unfoldable pub plans : Text → List PlanDef
plans price =
    record {
      id = codes "free";
      price_monthly_cents = 0;
      storage_bytes_limit = 5 * 1024 ^ 3;
      bandwidth_bytes_limit = 50 * 1024 ^ 3;
      stripe_price_id = none;
    }
    ∷ record {
      id = codes "pro";
      price_monthly_cents = 1000;
      storage_bytes_limit = 100 * 1024 ^ 3;
      bandwidth_bytes_limit = 1024 ^ 4;
      stripe_price_id = some price;
    }
    ∷ []

unfoldable pub get_plan : Text → List PlanDef → Option PlanDef
get_plan id [] = none
get_plan id (p ∷ ps) = if text_eq p.id id then some p else get_plan id ps

has_price : Text → Option Text → Bool
has_price price none = false
has_price price (some q) = text_eq q price

unfoldable pub plan_for_price : Text → List PlanDef → Text
unfolding has_price
plan_for_price price [] = codes "free"
plan_for_price price (p ∷ ps) =
    if has_price price p.stripe_price_id then p.id else plan_for_price price ps

-- The plans that a checkout may be opened for: it is known, has a price in Stripe and costs something.
unfoldable pub is_purchasable : Text → List PlanDef → Bool
is_purchasable id ps = elim (get_plan id ps) [
  | none ↦ false
  | some p ↦ not (text_eq (get_or_else p.stripe_price_id []) []) && not (p.price_monthly_cents == 0)
]

pub record SyncOptions : Type 0 where
  pub plan_id : Option Text
  pub price_id : Option Text
  pub subscription_id : Option Text
  pub status : Option Text

pub data StripeEvent : Type 0 where
  checkout_completed : Option Text → Option Text → Option Text → StripeEvent
  subscription_updated : Option Text → Option Text → Text → Text → StripeEvent
  subscription_deleted : Option Text → StripeEvent
  other_event : StripeEvent

unfoldable pub find_customer : (Customer → Bool) → List Customer → Option Customer
find_customer p [] = none
find_customer p (c ∷ cs) = if p c then some c else find_customer p cs

unfoldable pub update_customer : Text → (Customer → Customer) → List Customer → List Customer
update_customer id f [] = []
update_customer id f (c ∷ cs) = if text_eq c.id id then f c ∷ cs else c ∷ update_customer id f cs

unfoldable pub has_stripe_id : Text → Customer → Bool
has_stripe_id stripe_id c = elim c.stripe_customer_id [
  | none ↦ false
  | some s ↦ text_eq s stripe_id
]

unfoldable pub active_instance : Text → List Instance → Option Instance
active_instance customer [] = none
active_instance customer (i ∷ is) =
    if text_eq i.customer_id customer && is_active i.status
    then some i
    else active_instance customer is

-- The tenant is told the limit of the plan that the instance's row names; an answer that is an error
-- is ignored. A row's plan is in the table, by its foreign key.
unfoldable pub apply_plan_to_instance : Text → Bool → PlatformState → PlatformState
apply_plan_to_instance customer reached p = elim (active_instance customer p.instances) [
  | none ↦ p
  | some inst ↦ elim (find_plan inst.plan_id p.plans) [
    | none ↦ p
    | some plan ↦
        if reached
        then record p { tenant_quotas = (inst.port, plan.storage_bytes_limit) ∷ p.tenant_quotas }
        else p
  ]
]

either : Option Text → Option Text → Option Text
either none d = d
either (some a) d = some a

-- `a || b`, where an empty text counts as missing.
truthy : Option Text → Option Text
truthy none = none
truthy (some a) = if text_eq a [] then none else some a

module _ (defs : List PlanDef) (reached : Bool) where
  synced_plan : SyncOptions → Customer → Text
  unfolding truthy
  synced_plan opts c = elim (truthy opts.plan_id) [
    | some id ↦ id
    | none ↦ elim (truthy opts.price_id) [
      | some price ↦ plan_for_price price defs
      | none ↦ c.plan_id
    ]
  ]

  unfoldable pub synced : SyncOptions → Customer → Customer
  unfolding synced_plan either
  synced opts c = record c {
    plan_id = synced_plan opts c;
    stripe_subscription_id = either opts.subscription_id c.stripe_subscription_id;
    stripe_subscription_status = either opts.status c.stripe_subscription_status;
    stripe_price_id = either opts.price_id c.stripe_price_id;
  }

  unfoldable pub sync_subscription : Text → SyncOptions → PlatformState → PlatformState
  unfolding synced
  sync_subscription stripe_id opts p = elim (find_customer (has_stripe_id stripe_id) p.customers) [
    | none ↦ p
    | some c ↦
        apply_plan_to_instance c.id reached
          (record p { customers = update_customer c.id (λ d. synced opts c) p.customers })
  ]

  known_plan : Option Text → Option Text
  known_plan none = none
  known_plan (some id) = if is_some (get_plan id defs) then some id else none

  unfoldable pub handle_webhook_event : StripeEvent → PlatformState → PlatformState
  unfolding known_plan
  handle_webhook_event (checkout_completed (some customer) (some subscription) plan) p =
      sync_subscription customer
        (record {
          plan_id = known_plan plan;
          price_id = none;
          subscription_id = some subscription;
          status = some (codes "active");
        })
        p
  handle_webhook_event (checkout_completed customer subscription plan) p = p
  handle_webhook_event (subscription_updated none price subscription status) p = p
  handle_webhook_event (subscription_updated (some customer) price subscription status) p =
      sync_subscription customer
        (record {
          plan_id = none;
          price_id = price;
          subscription_id = some subscription;
          status = some status;
        })
        p
  handle_webhook_event (subscription_deleted none) p = p
  handle_webhook_event (subscription_deleted (some customer)) p =
      sync_subscription customer
        (record {
          plan_id = some (codes "free");
          price_id = none;
          subscription_id = none;
          status = some (codes "canceled");
        })
        p
  handle_webhook_event other_event p = p
