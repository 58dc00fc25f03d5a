-- ===== src/Platform/Routes.antt =====
-- platform/app/api/instances/[id]/route.ts and the POST of platform/app/api/instances/route.ts: what a
-- session may do to the instances. A reply is its status; the other answers are as in provisioning.
pub mod Ownership
use r2storage.Platform.{Customer, PlatformConfig, PlatformState, find_instance}
use r2storage.Platform.Billing.{find_customer}
use r2storage.Platform.Provision.{
  Answers, delete_instance, provision_failed, provision_instance, provisioned, resume_instance,
  suspend_instance,
}
use r2storage.Platform.Sessions.{SessionRow, require_customer, require_operator}
use r2storage.Prelude.{
  Bool, List, Option, Text, [], codes, get_or_else, if◌then◌else◌, none, some, text_eq, ℕ,
}

module _ (cfg : PlatformConfig) (sha256 : Text → Text) (rows : List SessionRow) where
  -- The status of the refusal, or nothing.
  unfoldable pub guard : Option Text → ℕ → Text → PlatformState → Option ℕ
  guard token now id p = elim (require_customer sha256 token now rows) [
    | none ↦ some 401
    | some customer ↦ elim (find_instance id p.instances) [
      | none ↦ some 404
      | some inst ↦ if text_eq inst.customer_id customer then none else some 403
    ]
  ]

  status_of_result : PlatformState × Bool → PlatformState × ℕ
  status_of_result (p, completed) = if completed then (p, 200) else (p, 500)

  -- PATCH /api/instances/[id] with the action of its body.
  unfoldable pub patch_instance :
      Answers → Option Text → ℕ → Text → Option Text → PlatformState → PlatformState × ℕ
  unfolding status_of_result
  patch_instance answers token now id action p = elim (guard token now id p) [
    | some status ↦ (p, status)
    | none ↦
        if text_eq (get_or_else action []) (codes "suspend")
        then status_of_result (suspend_instance cfg answers id p)
        else if text_eq (get_or_else action []) (codes "resume")
        then status_of_result (resume_instance cfg answers id p)
        else (p, 400)
  ]

  -- DELETE /api/instances/[id], which the operator may do to any instance.
  unfoldable pub delete_instance_route :
      Answers → Option Text → ℕ → Text → PlatformState → PlatformState × ℕ
  unfolding status_of_result
  delete_instance_route answers token now id p =
      if require_operator sha256 token now rows
      then status_of_result (delete_instance cfg answers id p)
      else elim (guard token now id p) [
        | some status ↦ (p, status)
        | none ↦ status_of_result (delete_instance cfg answers id p)
      ]

  find_customer_id : Text → List Customer → Option Customer
  find_customer_id id cs = find_customer (λ c. text_eq c.id id) cs

  -- POST /api/instances
  unfoldable pub post_instance :
      Answers → Option Text → ℕ → Option Text → PlatformState → PlatformState × ℕ
  unfolding find_customer_id
  post_instance answers token now domain p = elim (require_customer sha256 token now rows) [
    | none ↦ (p, 401)
    | some customer ↦
        if text_eq (get_or_else domain []) []
        then (p, 400)
        else let plan_id = elim (find_customer_id customer p.customers) as (λ _. Text) [
          | none ↦ codes "free"
          | some c ↦ if text_eq c.plan_id [] then codes "free" else c.plan_id
        ] in
          let (after, result) =
            provision_instance cfg answers customer (get_or_else domain []) plan_id p in
          elim result [ provisioned i ↦ (after, 200) | provision_failed e ↦ (after, 400) ]
  ]
