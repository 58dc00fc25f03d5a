-- ===== src/Platform/Reserved.antt =====
-- platform/lib/provision.ts: the domains that a later provisioning may take.
use r2storage.Platform.{
  Instance, PlatformConfig, PlatformState, active_status, deleted_status, find_instance,
  suspended_status, update_instance,
}
use r2storage.Platform.Billing.Quota.{handle_webhook_event-instances}
use r2storage.Platform.Domains.{write_map_file}
use r2storage.Platform.Invariant.{
  Step, bills, deletes, provisions, resumes, suspends, write_map_file-instances,
}
use r2storage.Platform.Provision.{
  Answers, Provisioned, delete_instance, provision_failed, provision_instance, provisioned,
  resume_instance, set_status, suspend_instance,
}
use r2storage.Platform.Provision.Fresh.{clash}
use r2storage.Platform.Provision.Outcome.{IsProvisionOutcome, provision_instance-IsProvisionOutcome}
use r2storage.Prelude.{
  Bool, Bool-cases, List, Option-cases, Text, [], any, ap, arith, inl, inr, none, refl, some,
  some_inj, subst, sym, text_eq, text_eq_refl, to_lower, trim, true, ◌∙◌, ◌∷◌, ◌≡◌,
}

-- What follows a state.
pub data Later (cfg : PlatformConfig) : PlatformState → PlatformState → Type 0 where
  at_once : {p : PlatformState} → Later cfg p p
  after_step : {p q s : PlatformState} → Later cfg p q → Step cfg q s → Later cfg p s

-- Whether some row has the domain, whatever its status.
abbrev has_domain : Text → List Instance → Bool
has_domain domain is = any (λ j. text_eq j.domain domain) is

find_instance-has_domain :
    (id : Text) (is : List Instance) (i : Instance)
    → find_instance id is ≡ some i
    → has_domain i.domain is ≡ true
unfolding find_instance
find_instance-has_domain id [] i h = absurd (cc h)
find_instance-has_domain id (j ∷ js) i h = elim (Bool-cases (text_eq j.id id)) [
  | inl e ↦
      let same : j ≡ i = some_inj (rw e at h) in
      let own : text_eq j.domain i.domain ≡ true =
        ap (λ x. text_eq x.domain i.domain) same ∙ text_eq_refl i.domain in
      rw own refl
  | inr e ↦ let rest = find_instance-has_domain id js i (rw e at h) in ground (arith, rest)
]

has_domain-update_instance :
    (domain id : Text) (f : Instance → Instance) (is : List Instance)
    → ((i : Instance) → (f i).domain ≡ i.domain)
    → has_domain domain (update_instance id f is) ≡ has_domain domain is
unfolding update_instance
has_domain-update_instance domain id f [] keeps = refl
has_domain-update_instance domain id f (i ∷ is) keeps = elim (Bool-cases (text_eq i.id id)) [
  | inl e ↦ rw (e, keeps i) refl
  | inr e ↦ rw (e, has_domain-update_instance domain id f is keeps) refl
]

-- A domain that any row has, a deleted one included, clashes with a new row's.
taken-clash :
    (new : Instance) (is : List Instance)
    → has_domain new.domain is ≡ true
    → any (λ i. clash i new) is ≡ true
taken-clash new [] h = absurd (cc h)
taken-clash new (i ∷ is) h = elim (Bool-cases (text_eq i.domain new.domain)) [
  | inl e ↦ rw e refl
  | inr e ↦ elim (Bool-cases (clash i new)) [
    | inl e' ↦ rw e' refl
    | inr e' ↦ rw e' (taken-clash new is (rw e at h))
  ]
]

module _ (cfg : PlatformConfig) (domain : Text) where
  written :
      (id : Text) (f : Instance → Instance) (is : List Instance) (q : PlatformState)
      → ((i : Instance) → (f i).domain ≡ i.domain)
      → q.instances ≡ update_instance id f is
      → has_domain domain is ≡ true
      → has_domain domain (write_map_file cfg q).instances ≡ true
  written id f is q keeps e h =
      ap (has_domain domain) (write_map_file-instances cfg q ∙ e)
      ∙ has_domain-update_instance domain id f is keeps
      ∙ h

  delete_instance-has_domain :
      (answers : Answers) (id : Text) (p : PlatformState)
      → has_domain domain p.instances ≡ true
      → has_domain domain (delete_instance cfg answers id p).0.instances ≡ true
  unfolding delete_instance
  delete_instance-has_domain answers id p h = elim (Option-cases (find_instance id p.instances)) [
    | inl e ↦ rw (e, delete_instance) h
    | inr (i, e) ↦
        rw (e, delete_instance)
          (written id (λ j. record j { status = deleted_status; container_id = none }) p.instances _
            (λ j. refl) refl h)
  ]

  Step-has_domain :
      {p q : PlatformState}
      → Step cfg p q
      → has_domain domain p.instances ≡ true
      → has_domain domain q.instances ≡ true
  unfolding suspend_instance resume_instance set_status
  Step-has_domain (provisions answers customer wanted plan_id p) h =
      go (provision_instance cfg answers customer wanted plan_id p)
        (provision_instance-IsProvisionOutcome cfg answers customer wanted plan_id p)
    where
      go :
          (result : PlatformState × Provisioned)
          → IsProvisionOutcome cfg answers customer wanted plan_id p result
          → has_domain domain result.0.instances ≡ true
      go (after, provision_failed e) outcome = rw (outcome.0) h
      go (after, provisioned i) outcome = ap (has_domain domain) (outcome.0) ∙ ground (arith, h)
  Step-has_domain (suspends answers id p) h = elim (Option-cases (find_instance id p.instances)) [
    | inl e ↦ rw (e, suspend_instance) h
    | inr (i, e) ↦
        rw (e, suspend_instance)
          (written id (set_status cfg answers suspended_status) p.instances _ (λ j. refl) refl h)
  ]
  Step-has_domain (resumes answers id p) h = elim (Option-cases (find_instance id p.instances)) [
    | inl e ↦ rw (e, resume_instance) h
    | inr (i, e) ↦ elim (Bool-cases answers.healthy) [
      | inr e' ↦ rw (e, e', resume_instance) h
      | inl e' ↦
          rw (e, e', resume_instance)
            (written id (set_status cfg answers active_status) p.instances _ (λ j. refl) refl h)
    ]
  ]
  Step-has_domain (deletes answers id p) h = delete_instance-has_domain answers id p h
  Step-has_domain (bills defs reached event p) h =
      ap (has_domain domain) (handle_webhook_event-instances defs reached event p) ∙ h

  Later-has_domain :
      {p q : PlatformState}
      → Later cfg p q
      → has_domain domain p.instances ≡ true
      → has_domain domain q.instances ≡ true
  Later-has_domain at_once h = h
  Later-has_domain (after_step earlier step) h = Step-has_domain step (Later-has_domain earlier h)

-- Once an instance was deleted, its domain is never provisioned again: not at once, and not after any
-- sequence of provisionings, suspensions, resumptions, deletions and webhook events that follows.
pub delete_instance_keeps_domain :
    (cfg : PlatformConfig) (closing answers : Answers) (id customer domain plan_id : Text)
    (p q after : PlatformState) (inst i : Instance)
    → find_instance id p.instances ≡ some inst
    → inst.domain ≡ trim (to_lower domain)
    → Later cfg (delete_instance cfg closing id p).0 q
    → ¬ (provision_instance cfg answers customer domain plan_id q ≡ (after, provisioned i))
delete_instance_keeps_domain cfg closing answers id customer domain plan_id p q after inst i found
      owned later h =
    let normalized = trim (to_lower domain) in
    let before : has_domain normalized p.instances ≡ true =
      ap (λ d. has_domain d p.instances) (sym owned)
      ∙ find_instance-has_domain id p.instances inst found in
    let kept =
      Later-has_domain cfg normalized later
        (delete_instance-has_domain cfg normalized closing id p before) in
    let outcome : IsProvisionOutcome cfg answers customer domain plan_id q (after, provisioned i) =
      subst (IsProvisionOutcome cfg answers customer domain plan_id q) h
        (provision_instance-IsProvisionOutcome cfg answers customer domain plan_id q) in
    let same : i.domain ≡ normalized = outcome.6 in
    let clashes = taken-clash i q.instances (rw same kept) in absurd (cc (clashes, outcome.8))
