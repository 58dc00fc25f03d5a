-- ===== src/S3/Cors/Origins.antt =====
-- Which origins a response names.
use r2storage.Prelude.{
  Bool, Bool-cases, List, Option-cases, Text, [], ap, codes, false, get_elem?, get_or_else,
  if◌then◌else◌, inl, inr, none, refl, some, some_inj, suc, sym, text_eq, true, ℕ, ◌&&◌, ◌||◌, ◌∙◌,
  ◌∷◌, ◌≡◌, ◌≢◌,
}
use r2storage.Range.Preconditions.{Headers, header, lookup_text}
use r2storage.S3.{Request}
use r2storage.S3.Cors.{
  cors_headers_for_request, find_rule, includes, is_empty, method_allowed, preflight,
  preflight_route, rule_headers, rule_matches, split_names,
}
use r2storage.Store.{Bucket, CorsRule, World, find_bucket}

pub find_rule-some :
    (p : CorsRule → Bool) (rules : List CorsRule) (rule : CorsRule)
    → find_rule p rules ≡ some rule
    → (p rule ≡ true) × ((i : ℕ) × (get_elem? rules i ≡ some rule))
unfolding find_rule
find_rule-some p [] rule h = absurd (cc h)
find_rule-some p (r ∷ rs) rule h = elim (Bool-cases (p r)) [
  | inl e ↦ let same : r ≡ rule = some_inj (rw e at h) in (ap p (sym same) ∙ e, (0, ap some same))
  | inr e ↦ let (q, (i, at)) = find_rule-some p rs rule (rw e at h) in (q, (suc i, at))
]

and-true : (a b : Bool) → (a && b) ≡ true → (a ≡ true) × (b ≡ true)
and-true true true h = (refl, refl)
and-true true false h = absurd (cc h)
and-true false b h = absurd (cc h)

abbrev asked_origin : Request → Text
asked_origin r = get_or_else (header r.headers "origin") []

abbrev asked_method : Request → Text
asked_method r = get_or_else (header r.headers "access-control-request-method") []

abbrev asked_headers : Request → List Text
asked_headers r = split_names (get_or_else (header r.headers "access-control-request-headers") [])

cors_headers-allowed :
    (rules : List CorsRule) (origin method : Text) (names : List Text) (headers : Headers)
    → (let given = cors_headers_for_request rules origin (preflight method names) in
        if is_empty given then none else some given)
      ≡ some headers
    → (rule : CorsRule) × (i : ℕ) × (get_elem? rules i ≡ some rule)
      × (origin ≢ [])
      × ((includes (codes "*") rule.allowed_origins || includes origin rule.allowed_origins) ≡ true)
      × ((text_eq method [] || includes method rule.allowed_methods) ≡ true)
      × (lookup_text (codes "access-control-allow-origin") headers
          ≡ some (if includes (codes "*") rule.allowed_origins then codes "*" else origin))
unfolding cors_headers_for_request rule_matches method_allowed rule_headers lookup_text text_eq
cors_headers-allowed rules origin method names headers h = elim (Bool-cases (text_eq origin [])) [
  | inl e ↦ absurd (cc (rw (e, cors_headers_for_request) at h))
  | inr e ↦ elim (Option-cases (find_rule (rule_matches origin (preflight method names)) rules)) [
    | inl e' ↦ absurd (cc (rw (e, e', cors_headers_for_request) at h))
    | inr (rule, e') ↦
        let (matches, (i, at)) =
          find_rule-some (rule_matches origin (preflight method names)) rules rule e' in
        let (origin_ok, method_ok) = and-true _ _ matches in
        let given = some_inj (rw (e, e', cors_headers_for_request) at h) in
        (
          rule,
          i,
          at,
          (λ blank. cc (e, ap (λ t. text_eq t []) blank)),
          origin_ok,
          method_ok,
          ap (lookup_text (codes "access-control-allow-origin")) (sym given) ∙ refl,
        )
  ]
]

-- A preflight that is answered is for a stored bucket of which some rule allows the origin, by its
-- name or by `*`, and the requested method; the answer names `*` where the rule has `*`, and else the
-- request's own origin, which is not empty.
pub preflight_route-allowed :
    (r : Request) (w : World) (headers : Headers)
    → preflight_route r w ≡ some headers
    → let origin = get_or_else (header r.headers "origin") [] in
      let method = get_or_else (header r.headers "access-control-request-method") [] in
      (bucket : Bucket) × (rule : CorsRule) × (i : ℕ) × (find_bucket r.bucket_name w.buckets
        ≡ some bucket)
      × (get_elem? bucket.cors_rules i ≡ some rule)
      × (origin ≢ [])
      × ((includes (codes "*") rule.allowed_origins || includes origin rule.allowed_origins) ≡ true)
      × ((text_eq method [] || includes method rule.allowed_methods) ≡ true)
      × (lookup_text (codes "access-control-allow-origin") headers
          ≡ some (if includes (codes "*") rule.allowed_origins then codes "*" else origin))
unfolding preflight_route
preflight_route-allowed r w headers h = elim (Option-cases (find_bucket r.bucket_name w.buckets)) [
  | inl e ↦ absurd (cc (rw (e, preflight_route) at h))
  | inr (bucket, e) ↦
      let (rule, i, at, named, origin_ok, method_ok, answer) =
        cors_headers-allowed bucket.cors_rules (asked_origin r) (asked_method r) (asked_headers r)
          headers (rw (e, preflight_route) at h) in
      (bucket, rule, i, e, at, named, origin_ok, method_ok, answer)
]
