-- ===== src/Admin/Domains.antt =====
-- backend/src/api/admin.ts: the custom domains, whose domain column is unique.
use r2storage.Admin.{AdminState, DomainRow}
use r2storage.Prelude.{
  Bool, List, Option, Text, [], filter, get_or_else, if◌then◌else◌, is_some, none, not, some,
  text_eq, to_lower, trim, ℕ, ◌||◌, ◌∷◌,
}
use r2storage.Store.{Bucket, find_bucket}

unfoldable pub find_domain : (DomainRow → Bool) → List DomainRow → Option DomainRow
find_domain p [] = none
find_domain p (d ∷ ds) = if p d then some d else find_domain p ds

unfoldable pub update_domain : Text → (DomainRow → DomainRow) → List DomainRow → List DomainRow
update_domain id f [] = []
update_domain id f (d ∷ ds) = if text_eq d.id id then f d ∷ ds else d ∷ update_domain id f ds

-- POST /api/admin/domains with the id of the new row; a row with a taken domain throws.
unfoldable pub create_domain : Text → Text → Text → AdminState → AdminState × ℕ
unfolding find_domain
create_domain id domain bucket_name s =
    let normalized = trim (to_lower domain) in
    let new : DomainRow = record { id = id; domain = normalized; bucket_name = bucket_name } in
    if text_eq domain [] || text_eq bucket_name []
    then (s, 400)
    else if not (is_some (find_bucket bucket_name s.stored.buckets))
    then (s, 404)
    else if is_some (find_domain (λ d. text_eq d.domain normalized) s.domains)
    then (s, 500)
    else (record s { domains = new ∷ s.domains }, 201)

-- The refusal of a new domain name, of which `normalized` is the trimmed lower-case form.
unfoldable pub domain_refused : Text → Text → List DomainRow → Option ℕ
unfolding find_domain
domain_refused id normalized ds =
    if text_eq normalized []
    then some 400
    else elim (find_domain (λ d. text_eq d.domain normalized) ds) [
      | none ↦ none
      | some taken ↦ if text_eq taken.id id then none else some 409
    ]

unfoldable pub bucket_refused : Text → List Bucket → Option ℕ
bucket_refused bucket_name bs =
    if text_eq bucket_name []
    then some 400
    else if is_some (find_bucket bucket_name bs)
    then none
    else some 404

-- The first refusal of a PATCH.
unfoldable pub patch_refused : Text → Option Text → Option Text → AdminState → Option ℕ
unfolding domain_refused bucket_refused
patch_refused id domain bucket_name s =
    let of_bucket : Option ℕ = elim bucket_name [
      | none ↦ none
      | some b ↦ bucket_refused b s.stored.buckets
    ] in
    elim domain as (λ _. Option ℕ) [
      | none ↦ of_bucket
      | some d ↦ elim (domain_refused id (trim (to_lower d)) s.domains) as (λ _. Option ℕ) [
        | some status ↦ some status
        | none ↦ of_bucket
      ]
    ]

-- PATCH /api/admin/domains/:id
unfoldable pub patch_domain : Text → Option Text → Option Text → AdminState → AdminState × ℕ
unfolding patch_refused update_domain
patch_domain id domain bucket_name s = elim (find_domain (λ d. text_eq d.id id) s.domains) [
  | none ↦ (s, 404)
  | some existing ↦ elim (patch_refused id domain bucket_name s) [
    | some status ↦ (s, status)
    | none ↦
        let change : DomainRow → DomainRow = λ d. record d {
          domain = elim domain as (λ _. Text) [ none ↦ d.domain | some new ↦ trim (to_lower new) ];
          bucket_name = get_or_else bucket_name d.bucket_name;
        } in
        (record s { domains = update_domain id change s.domains }, 200)
  ]
]

-- DELETE /api/admin/domains/:id
unfoldable pub delete_domain : Text → AdminState → AdminState × ℕ
unfolding find_domain
delete_domain id s = elim (find_domain (λ d. text_eq d.id id) s.domains) [
  | none ↦ (s, 500)
  | some found ↦ (record s { domains = filter (λ d. not (text_eq d.id id)) s.domains }, 200)
]
