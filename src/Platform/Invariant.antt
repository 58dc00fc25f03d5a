-- ===== src/Platform/Invariant.antt =====
-- The table of instances in every state that the control plane reaches.
use r2storage.Platform.{
  Instance, PlatformConfig, PlatformState, active_status, deleted_status, find_instance,
  suspended_status, update_instance,
}
use r2storage.Platform.Billing.{PlanDef, StripeEvent, handle_webhook_event}
use r2storage.Platform.Billing.Quota.{handle_webhook_event-instances}
use r2storage.Platform.Domains.{write_map_file}
use r2storage.Platform.Provision.{
  Answers, Provisioned, delete_instance, provision_failed, provision_instance, provisioned,
  resume_instance, set_status, suspend_instance,
}
use r2storage.Platform.Provision.Fresh.{clash}
use r2storage.Platform.Provision.Outcome.{IsProvisionOutcome, provision_instance-IsProvisionOutcome}
use r2storage.Prelude.{
  All, Bool, Bool-cases, List, Option-cases, Text, [], any, false, inl, inr, none, refl, text_eq,
  ◌∷◌, ◌≡◌, ◌≤◌,
}

-- No two rows repeat a unique value.
abbrev pub Apart : List Instance → Type 0
Apart [] = Unit
Apart (i ∷ is) = (any (λ j. clash j i) is ≡ false) × Apart is

abbrev pub InRange : PlatformConfig → List Instance → Type 0
InRange cfg is = All (λ i. (cfg.tenant_port_min ≤ i.port) × (i.port ≤ cfg.tenant_port_max)) is

abbrev pub WellFormed : PlatformConfig → PlatformState → Type 0
WellFormed cfg p = Apart p.instances × InRange cfg p.instances

-- An update that leaves the unique values and the port alone.
abbrev KeepsIdentity : (Instance → Instance) → Type 0
KeepsIdentity f =
    (i : Instance) → (((f i).domain ≡ i.domain) × ((f i).port ≡ i.port) × ((f i).id ≡ i.id))

clash-update :
    (f : Instance → Instance) (id : Text) (i : Instance) (is : List Instance)
    → KeepsIdentity f
    → any (λ j. clash j i) is ≡ false
    → any (λ j. clash j i) (update_instance id f is) ≡ false
unfolding update_instance
clash-update f id i [] keeps h = h
clash-update f id i (j ∷ js) keeps h = elim (Bool-cases (text_eq j.id id)) [
  | inl e ↦ let (d, q, k) = keeps j in rw (e, d, q, k) h
  | inr e ↦ elim (Bool-cases (clash j i)) [
    | inl e' ↦ absurd (cc (rw e' at h))
    | inr e' ↦ rw (e, e') (clash-update f id i js keeps (rw e' at h))
  ]
]

clash_same :
    (i k : Instance) (is : List Instance)
    → i.domain ≡ k.domain
    → i.port ≡ k.port
    → i.id ≡ k.id
    → any (λ j. clash j k) is ≡ false
    → any (λ j. clash j i) is ≡ false
clash_same i k is d q e h = rw (d, q, e) h

update_instance-Apart :
    (f : Instance → Instance) (id : Text) (is : List Instance)
    → KeepsIdentity f
    → Apart is
    → Apart (update_instance id f is)
unfolding update_instance
update_instance-Apart f id [] keeps h = tt
update_instance-Apart f id (i ∷ is) keeps (h, hs) = elim (Bool-cases (text_eq i.id id)) [
  | inl e ↦ let (d, q, k) = keeps i in rw e (clash_same (f i) i is d q k h, hs)
  | inr e ↦ rw e (clash-update f id i is keeps h, update_instance-Apart f id is keeps hs)
]

update_instance-InRange :
    (cfg : PlatformConfig) (f : Instance → Instance) (id : Text) (is : List Instance)
    → KeepsIdentity f
    → InRange cfg is
    → InRange cfg (update_instance id f is)
unfolding update_instance
update_instance-InRange cfg f id [] keeps h = tt
update_instance-InRange cfg f id (i ∷ is) keeps (h, hs) = elim (Bool-cases (text_eq i.id id)) [
  | inl e ↦ let (d, q, k) = keeps i in rw (e, q) (h, hs)
  | inr e ↦ rw e (h, update_instance-InRange cfg f id is keeps hs)
]

pub write_map_file-instances :
    (cfg : PlatformConfig) (p : PlatformState) → (write_map_file cfg p).instances ≡ p.instances
unfolding write_map_file
write_map_file-instances cfg p = elim (Bool-cases cfg.map_file_set) [
  | inl e ↦ rw e refl
  | inr e ↦ rw e refl
]

update-WellFormed :
    (cfg : PlatformConfig) (f : Instance → Instance) (id : Text) (p q : PlatformState)
    → KeepsIdentity f
    → q.instances ≡ update_instance id f p.instances
    → WellFormed cfg p
    → WellFormed cfg (write_map_file cfg q)
update-WellFormed cfg f id p q keeps h (apart, within) =
    rw (write_map_file-instances cfg q, h)
      (
        update_instance-Apart f id p.instances keeps apart,
        update_instance-InRange cfg f id p.instances keeps within,
      )

provision_instance-WellFormed :
    (cfg : PlatformConfig) (answers : Answers) (customer domain plan_id : Text) (p : PlatformState)
    → WellFormed cfg p
    → WellFormed cfg (provision_instance cfg answers customer domain plan_id p).0
provision_instance-WellFormed cfg answers customer domain plan_id p sound =
    go (provision_instance cfg answers customer domain plan_id p)
      (provision_instance-IsProvisionOutcome cfg answers customer domain plan_id p)
  where
    go :
        (result : PlatformState × Provisioned)
        → IsProvisionOutcome cfg answers customer domain plan_id p result
        → WellFormed cfg result.0
    go (after, provision_failed e) h = rw h.0 sound
    go (after, provisioned i) h = rw h.0 ((h.8, sound.0), ((h.9, h.10), sound.1))

suspend_instance-WellFormed :
    (cfg : PlatformConfig) (answers : Answers) (id : Text) (p : PlatformState)
    → WellFormed cfg p
    → WellFormed cfg (suspend_instance cfg answers id p).0
unfolding set_status suspend_instance
suspend_instance-WellFormed cfg answers id p sound =
    elim (Option-cases (find_instance id p.instances)) [
      | inl e ↦ rw (e, suspend_instance) sound
      | inr (i, e) ↦
          rw (e, suspend_instance)
            (update-WellFormed cfg (set_status cfg answers suspended_status) id p _
              (λ j. (refl, refl, refl)) refl sound)
    ]

resume_instance-WellFormed :
    (cfg : PlatformConfig) (answers : Answers) (id : Text) (p : PlatformState)
    → WellFormed cfg p
    → WellFormed cfg (resume_instance cfg answers id p).0
unfolding set_status resume_instance
resume_instance-WellFormed cfg answers id p sound =
    elim (Option-cases (find_instance id p.instances)) [
      | inl e ↦ rw (e, resume_instance) sound
      | inr (i, e) ↦ elim (Bool-cases answers.healthy) [
        | inr e' ↦ rw (e, e', resume_instance) sound
        | inl e' ↦
            rw (e, e', resume_instance)
              (update-WellFormed cfg (set_status cfg answers active_status) id p _
                (λ j. (refl, refl, refl)) refl sound)
      ]
    ]

delete_instance-WellFormed :
    (cfg : PlatformConfig) (answers : Answers) (id : Text) (p : PlatformState)
    → WellFormed cfg p
    → WellFormed cfg (delete_instance cfg answers id p).0
unfolding delete_instance
delete_instance-WellFormed cfg answers id p sound =
    elim (Option-cases (find_instance id p.instances)) [
      | inl e ↦ rw (e, delete_instance) sound
      | inr (i, e) ↦
          rw (e, delete_instance)
            (update-WellFormed cfg (λ j. record j { status = deleted_status; container_id = none })
              id p _ (λ j. (refl, refl, refl)) refl sound)
    ]

-- What the routes, the scripts and the webhook do to the platform.
pub data Step (cfg : PlatformConfig) : PlatformState → PlatformState → Type 0 where
  provisions :
      (answers : Answers) (customer domain plan_id : Text) (p : PlatformState)
      → Step cfg p (provision_instance cfg answers customer domain plan_id p).0
  suspends :
      (answers : Answers) (id : Text) (p : PlatformState)
      → Step cfg p (suspend_instance cfg answers id p).0
  resumes :
      (answers : Answers) (id : Text) (p : PlatformState)
      → Step cfg p (resume_instance cfg answers id p).0
  deletes :
      (answers : Answers) (id : Text) (p : PlatformState)
      → Step cfg p (delete_instance cfg answers id p).0
  bills :
      (defs : List PlanDef) (reached : Bool) (event : StripeEvent) (p : PlatformState)
      → Step cfg p (handle_webhook_event defs reached event p)

pub data Reachable (cfg : PlatformConfig) : PlatformState → Type 0 where
  starts : (p : PlatformState) → (p.instances ≡ []) → Reachable cfg p
  steps : {p q : PlatformState} → Reachable cfg p → Step cfg p q → Reachable cfg q

Step-WellFormed :
    (cfg : PlatformConfig) {p q : PlatformState}
    → Step cfg p q
    → WellFormed cfg p
    → WellFormed cfg q
Step-WellFormed cfg (provisions answers customer domain plan_id p) sound =
    provision_instance-WellFormed cfg answers customer domain plan_id p sound
Step-WellFormed cfg (suspends answers id p) sound =
    suspend_instance-WellFormed cfg answers id p sound
Step-WellFormed cfg (resumes answers id p) sound = resume_instance-WellFormed cfg answers id p sound
Step-WellFormed cfg (deletes answers id p) sound = delete_instance-WellFormed cfg answers id p sound
Step-WellFormed cfg (bills defs reached event p) sound =
    rw (handle_webhook_event-instances defs reached event p) sound

-- In every state reached from an empty table of instances by provisioning, suspending, resuming and
-- deleting instances and by webhook events, whatever Docker, the tenants, Cloudflare and nginx answer,
-- no two rows share a domain, a port or an id, and every port lies in the configured range.
pub Reachable-WellFormed :
    (cfg : PlatformConfig) (p : PlatformState) → Reachable cfg p → WellFormed cfg p
Reachable-WellFormed cfg p (starts _ empty) = rw empty (tt, tt)
Reachable-WellFormed cfg q (steps reached step) =
    Step-WellFormed cfg step (Reachable-WellFormed cfg _ reached)
