-- ===== src/Admin.antt =====
-- backend/src/api/admin.ts: the guard of the admin API, its access keys, presigned URLs and quota. The
-- audit log is left out, and so are the routes that only list or count rows. Tables that the source
-- reads newest first are lists with the newest row in front.
pub mod Buckets
pub mod Domains
pub mod Guard
pub mod Limits
mod Tests
use r2storage.Auth.Lockout.{ip_only, record_failure}
use r2storage.Auth.Login.{AuthConfig, AuthState, secrets_equal}
use r2storage.Auth.S3Auth.{KeyRow, SigningPrimitives}
use r2storage.Auth.S3Auth.Presign.{PresignedUrl, generate_presigned_url}
use r2storage.Auth.Session.{renew_session}
use r2storage.Prelude.{
  Bool, List, Option, Text, [], codes, filter, get_or_else, if◌then◌else◌, is_some, min, none, not,
  some, starts_with, text_eq, trim, true, ℕ, ◌&&◌, ◌*◌, ◌==◌, ◌||◌, ◌∷◌,
}
use r2storage.S3.Cors.{decimal_text}
use r2storage.Store.{World, find_bucket}

pub record KeyEntry : Type 0 where
  pub id : Text
  pub row : KeyRow

pub record DomainRow : Type 0 where
  pub id : Text
  pub domain : Text
  pub bucket_name : Text

pub record AdminState : Type 0 where
  pub stored : World
  pub key_entries : List KeyEntry
  pub domains : List DomainRow

pub data GuardResult : Type 0 where
  not_guarded by_session by_header unauthorized : GuardResult
  locked_reply : ℕ → GuardResult

unfoldable pub is_public_route : Text → Bool
is_public_route url =
    starts_with (codes "/api/admin/login") url
    || starts_with (codes "/api/admin/logout") url
    || starts_with (codes "/api/admin/session") url

module _ (cfg : AuthConfig) (hash : Text → Text) where
  -- A request without a session: `provided` is the x-admin-secret header where it is one string.
  unfoldable pub guard_secret : ℕ → Text → Option Text → AuthState → AuthState × GuardResult
  unfolding secrets_equal
  guard_secret now ip none s = (s, unauthorized)
  guard_secret now ip (some provided) s =
      let (lockout_state, status) = record_failure cfg.lockout now ip ip_only s.lockout_state in
      if secrets_equal provided cfg.admin_secret then (s, by_header) else (
        record s { lockout_state = lockout_state },
        if status.locked then locked_reply status.retry_after_sec else unauthorized,
      )

  -- The preHandler hook, with the request's raw URL and the token of its cookie.
  unfoldable pub admin_guard :
      ℕ → Text → Text → Option Text → Option Text → AuthState → AuthState × GuardResult
  unfolding guard_secret
  admin_guard now ip url token provided s =
      let (renewed, rows) = renew_session cfg.session hash now token s.sessions in
      if not (starts_with (codes "/api/admin") url) || is_public_route url
      then (s, not_guarded)
      else if renewed
      then (record s { sessions = rows }, by_session)
      else guard_secret now ip provided s

-- POST /api/admin/keys with the random id, key id and secret of the new key.
unfoldable pub create_key_entry :
    Text → Text → Text → Option Text → Option Text → AdminState → AdminState × ℕ
create_key_entry id access_key_id secret permission bucket_filter s =
    let scope_filter = trim (get_or_else bucket_filter []) in
    let given = get_or_else permission [] in
    let entry : KeyEntry = record {
      id = id;
      row = record {
        access_key_id = access_key_id;
        secret_access_key = secret;
        permission = if text_eq given [] then codes "FULL" else given;
        bucket_filter = if text_eq scope_filter [] then none else some scope_filter;
      };
    } in
    if not (text_eq scope_filter []) && not (is_some (find_bucket scope_filter s.stored.buckets))
    then (s, 400)
    else (record s { key_entries = entry ∷ s.key_entries }, 201)

unfoldable pub find_entry : (KeyEntry → Bool) → List KeyEntry → Option KeyEntry
find_entry p [] = none
find_entry p (e ∷ es) = if p e then some e else find_entry p es

-- DELETE /api/admin/keys/:id, where the deletion of a missing row throws.
unfoldable pub delete_key_entry : Text → AdminState → AdminState × ℕ
delete_key_entry id s = elim (find_entry (λ e. text_eq e.id id) s.key_entries) [
  | none ↦ (s, 500)
  | some found ↦ (record s { key_entries = filter (λ e. not (text_eq e.id id)) s.key_entries }, 200)
]

-- The newest key that is not limited to another bucket, or else the newest key.
unfoldable pub presigning_key : Text → List KeyEntry → Option KeyEntry
unfolding find_entry
presigning_key bucket entries =
    elim (find_entry (λ e. text_eq (get_or_else e.row.bucket_filter bucket) bucket) entries) [
      | some e ↦ some e
      | none ↦ find_entry (λ e. true) entries
    ]

abbrev pub max_lifetime : ℕ
max_lifetime = 7 * 24 * 60 * 60

-- The lifetime of a URL: 0 or nothing stands for an hour. A number below 0 is refused before, and a
-- fraction is left out.
unfoldable pub presigned_lifetime : Option ℕ → ℕ
presigned_lifetime none = 3600
presigned_lifetime (some n) = if n == 0 then 3600 else min n max_lifetime

module _ (crypto : SigningPrimitives) (encode_uri_component : Text → Text) where
  -- POST /api/admin/buckets/:name/presigned with the Host header and the text of the date.
  unfoldable pub create_presigned :
      Text → Text → Text → Text → Option ℕ → AdminState → Option PresignedUrl
  unfolding presigning_key presigned_lifetime
  create_presigned host iso bucket k lifetime s = elim (presigning_key bucket s.key_entries) [
    | none ↦ none
    | some e ↦ some (
        generate_presigned_url crypto encode_uri_component host bucket k e.row iso
          (decimal_text (presigned_lifetime lifetime)))
  ]

-- setStorageQuota
unfoldable pub set_storage_quota : ℕ → World → World
set_storage_quota n w = record w { storage_limit = some (decimal_text n) }

-- PATCH /api/admin/quota: nothing stands for a value that is no number from 0 on.
unfoldable pub patch_quota : Option ℕ → AdminState → AdminState × ℕ
unfolding set_storage_quota
patch_quota none s = (s, 400)
patch_quota (some n) s = (record s { stored = set_storage_quota n s.stored }, 200)
