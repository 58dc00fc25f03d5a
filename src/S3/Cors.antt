-- ===== src/S3/Cors.antt =====
-- backend/src/api/cors.ts: `corsHeadersForRequest`; backend/src/api/s3.ts: `applyCorsHeaders` and the
-- preflight route. Header names stand in lower case, and the latest setting of a name counts.
pub mod Origins
use r2storage.Prelude.{
  Bool, List, Option, Text, [], any, codes, drop_spaces, false, filter, get_or_else, if◌then◌else◌,
  join_with, leb, map, none, not, some, split, suc, text_eq, true, zero, ℕ, ◌%◌, ◌&&◌, ◌++◌, ◌+◌,
  ◌/◌, ◌==◌, ◌||◌, ◌∷◌,
}
use r2storage.Range.Preconditions.{Headers, header}
use r2storage.S3.{Request}
use r2storage.Store.{Bucket, CorsRule, World, find_bucket}

-- `reply.header`, which replaces an earlier value, and the headers of an object in their order.
unfoldable pub set_header : Text → Text → Headers → Headers
set_header name value [] = (name, value) ∷ []
set_header name value ((k, v) ∷ h) =
    if text_eq k name then (name, value) ∷ h else (k, v) ∷ set_header name value h

unfoldable pub set_headers : Headers → Headers → Headers
unfolding set_header
set_headers [] h = h
set_headers ((k, v) ∷ more) h = set_headers more (set_header k v h)

abbrev pub includes : Text → List Text → Bool
includes t ts = any (text_eq t) ts

-- The fields of CorsRequest: a preflight with its method and its header names, or any other request.
pub data CorsRequest : Type 0 where
  actual : CorsRequest
  preflight : Text → List Text → CorsRequest

unfoldable pub method_allowed : CorsRequest → CorsRule → Bool
method_allowed actual rule = true
method_allowed (preflight method headers) rule =
    text_eq method [] || includes method rule.allowed_methods

unfoldable pub rule_matches : Text → CorsRequest → CorsRule → Bool
unfolding method_allowed
rule_matches origin req rule =
    (includes (codes "*") rule.allowed_origins || includes origin rule.allowed_origins)
    && method_allowed req rule

unfoldable pub find_rule : (CorsRule → Bool) → List CorsRule → Option CorsRule
find_rule p [] = none
find_rule p (r ∷ rs) = if p r then some r else find_rule p rs

unfoldable pub decimal_text_fuel : ℕ → ℕ → Text → Text
decimal_text_fuel zero n acc = acc
decimal_text_fuel (suc fuel) n acc =
    let rest = decimal_text_fuel fuel (n / 10) ((b'0' + n % 10) ∷ acc) in
    if leb n 9 then (b'0' + n % 10) ∷ acc else rest

-- `String(n)` below 10 ^ 20.
abbrev pub decimal_text : ℕ → Text
decimal_text n = decimal_text_fuel 20 n []

nonempty_list : Text → List Text → Headers
nonempty_list name [] = []
nonempty_list name (t ∷ ts) = (name, join_with (codes ", ") (t ∷ ts)) ∷ []

allow_headers : List Text → List Text → Headers
unfolding nonempty_list
allow_headers [] allowed = nonempty_list (codes "access-control-allow-headers") allowed
allow_headers (t ∷ ts) allowed = nonempty_list (codes "access-control-allow-headers") (t ∷ ts)

preflight_headers : CorsRequest → CorsRule → Headers
unfolding allow_headers
preflight_headers actual rule = []
preflight_headers (preflight method headers) rule =
    ((codes "access-control-allow-methods", join_with (codes ", ") rule.allowed_methods) ∷ [])
    ++ allow_headers headers rule.allowed_headers
    ++ (if rule.max_age_seconds == 0
        then []
        else (codes "access-control-max-age", decimal_text rule.max_age_seconds) ∷ [])

unfoldable pub rule_headers : Text → CorsRequest → CorsRule → Headers
unfolding preflight_headers nonempty_list
rule_headers origin req rule =
    ((
      codes "access-control-allow-origin",
      if includes (codes "*") rule.allowed_origins then codes "*" else origin,
    )
      ∷ (codes "vary", codes "Origin")
      ∷ [])
    ++ nonempty_list (codes "access-control-expose-headers") rule.expose_headers
    ++ preflight_headers req rule

unfoldable pub cors_headers_for_request : List CorsRule → Text → CorsRequest → Headers
unfolding rule_headers
cors_headers_for_request rules origin req =
    if text_eq origin [] then [] else elim (find_rule (rule_matches origin req) rules) [
      | none ↦ []
      | some rule ↦ rule_headers origin req rule
    ]

abbrev pub is_empty {ℓ} : {A : Type ℓ} → List A → Bool
is_empty [] = true
is_empty (x ∷ xs) = false

unfoldable pub apply_cors_headers : Bucket → Headers → Headers → Headers
apply_cors_headers bucket request h =
    let origin = get_or_else (header request "origin") [] in
    if is_empty bucket.cors_rules
    then set_header (codes "access-control-allow-origin")
        (if text_eq bucket.cors_origins [] then codes "*" else bucket.cors_origins) h
    else set_headers (cors_headers_for_request bucket.cors_rules origin actual) h

-- `.split(/,\s*/).filter(Boolean)`: a separator takes the spaces after its comma.
unfoldable pub split_names : Text → List Text
split_names t =
    filter (λ w. not (text_eq w []))
      (elim (split b',' t) as (λ _. List Text) [ [] ↦ [] | w ∷ ws ↦ w ∷ map drop_spaces ws ])

-- OPTIONS /s3/:bucket and /s3/:bucket/*: the headers of a 200, or nothing for a 403.
unfoldable pub preflight_route : Request → World → Option Headers
unfolding split_names
preflight_route r w = elim (find_bucket r.bucket_name w.buckets) [
  | none ↦ none
  | some bucket ↦
      let req =
        preflight (get_or_else (header r.headers "access-control-request-method") [])
          (split_names (get_or_else (header r.headers "access-control-request-headers") [])) in
      let headers =
        cors_headers_for_request bucket.cors_rules (get_or_else (header r.headers "origin") [])
          req in
      if is_empty headers then none else some headers
]
