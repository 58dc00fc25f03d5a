-- ===== src/Platform.antt =====
-- platform/lib: the control plane that runs one container of the backend for each customer. Its state
-- is the tables of platform/prisma/schema.prisma with what the program has caused outside: containers,
-- custom hostnames, quotas in the tenants, and the map file of nginx. Secrets stand decrypted.
pub mod Domains
pub mod Provision
pub mod Reserved
pub mod Billing
pub mod Sessions
pub mod Routes
pub mod Invariant
mod Tests
use r2storage.Prelude.{
  Bool, List, Option, Text, [], false, if◌then◌else◌, none, some, text_eq, true, ℕ, ◌+◌, ◌∷◌,
}

pub data Status : Type 0 where
  pending_status active_status suspended_status deleted_status : Status

pub record Instance : Type 0 where
  pub id : Text
  pub customer_id : Text
  pub domain : Text
  pub port : ℕ
  pub container_id : Option Text
  pub admin_secret : Text
  pub initial_key : Option (Text × Text)
  pub cf_hostname_id : Option Text
  pub status : Status
  pub plan_id : Text

pub record Plan : Type 0 where
  pub id : Text
  pub storage_bytes_limit : ℕ

pub record Customer : Type 0 where
  pub id : Text
  pub plan_id : Text
  pub stripe_customer_id : Option Text
  pub stripe_subscription_id : Option Text
  pub stripe_subscription_status : Option Text
  pub stripe_price_id : Option Text

-- The containers by the id of their instance, the ids of the custom hostnames, each tenant's quota by
-- its port, and the lines of the map file for tenants.
pub record PlatformState : Type 0 where
  pub customers : List Customer
  pub instances : List Instance
  pub plans : List Plan
  pub containers : List Text
  pub hostnames : List Text
  pub tenant_quotas : List (ℕ × ℕ)
  pub map_file : List (Text × ℕ)

pub record PlatformConfig : Type 0 where
  pub tenant_port_min : ℕ
  pub tenant_port_max : ℕ
  pub max_instances_per_customer : ℕ
  pub max_active_instances : ℕ
  pub map_file_set : Bool
  pub reloads_nginx : Bool

abbrev pub is_pending : Status → Bool
is_pending pending_status = true
is_pending other = false

abbrev pub is_active : Status → Bool
is_active active_status = true
is_active other = false

abbrev pub is_deleted : Status → Bool
is_deleted deleted_status = true
is_deleted other = false

unfoldable pub find_instance : Text → List Instance → Option Instance
find_instance id [] = none
find_instance id (i ∷ is) = if text_eq i.id id then some i else find_instance id is

-- db.instance.update of the row with the id.
unfoldable pub update_instance : Text → (Instance → Instance) → List Instance → List Instance
update_instance id f [] = []
update_instance id f (i ∷ is) = if text_eq i.id id then f i ∷ is else i ∷ update_instance id f is

unfoldable pub delete_instance_row : Text → List Instance → List Instance
delete_instance_row id [] = []
delete_instance_row id (i ∷ is) =
    let rest = delete_instance_row id is in if text_eq i.id id then rest else i ∷ rest

unfoldable pub remove_text : Text → List Text → List Text
remove_text t [] = []
remove_text t (x ∷ xs) = let rest = remove_text t xs in if text_eq x t then rest else x ∷ rest

unfoldable pub find_plan : Text → List Plan → Option Plan
find_plan id [] = none
find_plan id (p ∷ ps) = if text_eq p.id id then some p else find_plan id ps

unfoldable pub count {ℓ} : {A : Type ℓ} → (A → Bool) → List A → ℕ
count p [] = 0
count p (x ∷ xs) = let n = count p xs in if p x then n + 1 else n
