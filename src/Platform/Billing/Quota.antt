-- ===== src/Platform/Billing/Quota.antt =====
-- What a webhook event does to the rows and to the tenants.
use r2storage.Platform.{Instance, Plan, PlatformState, find_plan, is_active}
use r2storage.Platform.Billing.{
  PlanDef, StripeEvent, SyncOptions, active_instance, apply_plan_to_instance, checkout_completed,
  find_customer, handle_webhook_event, has_stripe_id, other_event, subscription_deleted,
  subscription_updated, sync_subscription,
}
use r2storage.Prelude.{
  Bool, Bool-cases, List, Option-cases, Text, [], ap, arith, get_elem?, inl, inr, none, refl, some,
  some_inj, subst, suc, sym, text_eq, true, ℕ, ◌&&◌, ◌∙◌, ◌∷◌, ◌≡◌,
}

apply_plan_to_instance-keeps :
    (customer : Text) (reached : Bool) (p : PlatformState)
    → let after = apply_plan_to_instance customer reached p in
      (after.instances ≡ p.instances) × (after.customers ≡ p.customers)
unfolding apply_plan_to_instance
apply_plan_to_instance-keeps customer reached p =
    elim (Option-cases (active_instance customer p.instances)) [
      | inl e ↦ rw (e, apply_plan_to_instance) (refl, refl)
      | inr (i, e) ↦ elim (Option-cases (find_plan i.plan_id p.plans)) [
        | inl e' ↦ rw (e, e', apply_plan_to_instance) (refl, refl)
        | inr (plan, e') ↦ elim (Bool-cases reached) [
          | inl r ↦ rw (e, e', r, apply_plan_to_instance) (refl, refl)
          | inr r ↦ rw (e, e', r, apply_plan_to_instance) (refl, refl)
        ]
      ]
    ]

sync_subscription-instances :
    (defs : List PlanDef) (reached : Bool) (stripe_id : Text) (opts : SyncOptions)
    (p : PlatformState)
    → (sync_subscription defs reached stripe_id opts p).instances ≡ p.instances
unfolding sync_subscription
sync_subscription-instances defs reached stripe_id opts p =
    elim (Option-cases (find_customer (has_stripe_id stripe_id) p.customers)) [
      | inl e ↦ rw (e, sync_subscription) refl
      | inr (c, e) ↦ rw (e, sync_subscription) ((apply_plan_to_instance-keeps c.id reached _).0)
    ]

pub handle_webhook_event-instances :
    (defs : List PlanDef) (reached : Bool) (event : StripeEvent) (p : PlatformState)
    → (handle_webhook_event defs reached event p).instances ≡ p.instances
unfolding handle_webhook_event
handle_webhook_event-instances defs reached (checkout_completed (some customer) (some s) plan) p =
    sync_subscription-instances defs reached customer _ p
handle_webhook_event-instances defs reached (checkout_completed none s plan) p = refl
handle_webhook_event-instances defs reached (checkout_completed (some customer) none plan) p = refl
handle_webhook_event-instances defs reached (subscription_updated none price s status) p = refl
handle_webhook_event-instances defs reached (subscription_updated (some customer) price s status)
      p =
    sync_subscription-instances defs reached customer _ p
handle_webhook_event-instances defs reached (subscription_deleted none) p = refl
handle_webhook_event-instances defs reached (subscription_deleted (some customer)) p =
    sync_subscription-instances defs reached customer _ p
handle_webhook_event-instances defs reached other_event p = refl

-- A port and the limit of the plan that the row of an active instance at the port names.
abbrev pub IsOwnLimit : List Instance → List Plan → ℕ × ℕ → Type 0
IsOwnLimit is plans (port, limit) =
    (i : Instance) × (plan : Plan) × (n : ℕ) × (get_elem? is n ≡ some i)
    × (is_active i.status ≡ true)
    × (i.port ≡ port)
    × (find_plan i.plan_id plans ≡ some plan)
    × (plan.storage_bytes_limit ≡ limit)

-- The later table of quotas is the earlier one with own limits in front.
pub data TellsOwnLimits (is : List Instance) (plans : List Plan) (old : List (ℕ × ℕ))
    : List (ℕ × ℕ) → Type 0 where
  tells_none : TellsOwnLimits is plans old old
  tells :
      {quotas : List (ℕ × ℕ)} (q : ℕ × ℕ)
      → IsOwnLimit is plans q
      → TellsOwnLimits is plans old quotas
      → TellsOwnLimits is plans old (q ∷ quotas)

active_instance-elem :
    (customer : Text) (is : List Instance) (i : Instance)
    → active_instance customer is ≡ some i
    → (n : ℕ) × (get_elem? is n ≡ some i) × (is_active i.status ≡ true)
unfolding active_instance
active_instance-elem customer [] i h = absurd (cc h)
active_instance-elem customer (j ∷ js) i h =
    elim (Bool-cases (text_eq j.customer_id customer && is_active j.status)) [
      | inl e ↦
          let same : j ≡ i = some_inj (rw e at h) in
          let active : is_active j.status ≡ true = ground (arith, e) in
          (0, ap some same, subst (λ x. is_active x.status ≡ true) same active)
      | inr e ↦
          let (n, at, active) = active_instance-elem customer js i (rw e at h) in
          (suc n, at, active)
    ]

-- What one event may do to the rows of the instances, to the plans and to the tenants.
abbrev Tells : List (ℕ × ℕ) → PlatformState → PlatformState → Type 0
Tells old p after =
    (after.instances ≡ p.instances)
    × (after.plans ≡ p.plans)
    × (TellsOwnLimits p.instances p.plans old p.tenant_quotas
        → TellsOwnLimits p.instances p.plans old after.tenant_quotas)

apply_plan_to_instance-Tells :
    (old : List (ℕ × ℕ)) (customer : Text) (reached : Bool) (p : PlatformState)
    → Tells old p (apply_plan_to_instance customer reached p)
unfolding apply_plan_to_instance
apply_plan_to_instance-Tells old customer reached p =
    elim (Option-cases (active_instance customer p.instances)) [
      | inl e ↦ rw (e, apply_plan_to_instance) (refl, refl, λ t. t)
      | inr (i, e) ↦ elim (Option-cases (find_plan i.plan_id p.plans)) [
        | inl e' ↦ rw (e, e', apply_plan_to_instance) (refl, refl, λ t. t)
        | inr (plan, e') ↦ elim (Bool-cases reached) [
          | inr r ↦ rw (e, e', r, apply_plan_to_instance) (refl, refl, λ t. t)
          | inl r ↦
              let (n, at, active) = active_instance-elem customer p.instances i e in
              rw (e, e', r, apply_plan_to_instance)
                (
                  refl,
                  refl,
                  λ t.
                      tells (i.port, plan.storage_bytes_limit)
                        (i, plan, n, at, active, refl, e', refl) t,
                )
        ]
      ]
    ]

sync_subscription-Tells :
    (old : List (ℕ × ℕ)) (defs : List PlanDef) (reached : Bool) (stripe_id : Text)
    (opts : SyncOptions) (p : PlatformState)
    → Tells old p (sync_subscription defs reached stripe_id opts p)
unfolding sync_subscription
sync_subscription-Tells old defs reached stripe_id opts p =
    elim (Option-cases (find_customer (has_stripe_id stripe_id) p.customers)) [
      | inl e ↦ rw (e, sync_subscription) (refl, refl, λ t. t)
      | inr (c, e) ↦ rw (e, sync_subscription) (apply_plan_to_instance-Tells old c.id reached _)
    ]

handle_webhook_event-Tells :
    (old : List (ℕ × ℕ)) (defs : List PlanDef) (reached : Bool) (event : StripeEvent)
    (p : PlatformState)
    → Tells old p (handle_webhook_event defs reached event p)
unfolding handle_webhook_event
handle_webhook_event-Tells old defs reached (checkout_completed (some customer) (some s) plan) p =
    sync_subscription-Tells old defs reached customer _ p
handle_webhook_event-Tells old defs reached (checkout_completed none s plan) p =
    (refl, refl, λ t. t)
handle_webhook_event-Tells old defs reached (checkout_completed (some customer) none plan) p =
    (refl, refl, λ t. t)
handle_webhook_event-Tells old defs reached (subscription_updated none price s status) p =
    (refl, refl, λ t. t)
handle_webhook_event-Tells old defs reached (subscription_updated (some customer) price s status)
      p =
    sync_subscription-Tells old defs reached customer _ p
handle_webhook_event-Tells old defs reached (subscription_deleted none) p = (refl, refl, λ t. t)
handle_webhook_event-Tells old defs reached (subscription_deleted (some customer)) p =
    sync_subscription-Tells old defs reached customer _ p
handle_webhook_event-Tells old defs reached other_event p = (refl, refl, λ t. t)

-- Events one after another, each with whether its tenant is reached.
abbrev pub handle_events : List PlanDef → List (Bool × StripeEvent) → PlatformState → PlatformState
handle_events defs [] p = p
handle_events defs ((reached, event) ∷ es) p =
    handle_events defs es (handle_webhook_event defs reached event p)

handle_events-Tells :
    (defs : List PlanDef) (es : List (Bool × StripeEvent)) (old : List (ℕ × ℕ)) (p : PlatformState)
    → Tells old p (handle_events defs es p)
handle_events-Tells defs [] old p = (refl, refl, λ t. t)
handle_events-Tells defs ((reached, event) ∷ es) old p =
    let q = handle_webhook_event defs reached event p in
    let (is, plans, told) = handle_webhook_event-Tells old defs reached event p in
    let (is', plans', told') = handle_events-Tells defs es old q in
    (
      is' ∙ is,
      plans' ∙ plans,
      λ t.
          subst (λ xs. TellsOwnLimits xs p.plans old (handle_events defs es q).tenant_quotas) is
            (subst (λ ps. TellsOwnLimits q.instances ps old (handle_events defs es q).tenant_quotas)
              plans
              (told' (
                subst (λ xs. TellsOwnLimits xs q.plans old q.tenant_quotas) (sym is)
                  (subst (λ ps. TellsOwnLimits p.instances ps old q.tenant_quotas) (sym plans)
                    (told t))))),
    )

-- Whatever webhook events arrive, and whichever tenants are reached: the rows of the instances and the
-- plans stay as they were, and every quota that a tenant is told is the limit of the plan that the row
-- of an active instance at its port named before the first event, whatever plan the events bring.
pub handle_events-TellsOwnLimits :
    (defs : List PlanDef) (es : List (Bool × StripeEvent)) (p : PlatformState)
    → let after = handle_events defs es p in
      (after.instances ≡ p.instances)
      × (after.plans ≡ p.plans)
      × TellsOwnLimits p.instances p.plans p.tenant_quotas after.tenant_quotas
handle_events-TellsOwnLimits defs es p =
    let (is, plans, told) = handle_events-Tells defs es p.tenant_quotas p in
    (is, plans, told tells_none)
