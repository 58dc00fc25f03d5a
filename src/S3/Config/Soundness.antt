-- ===== src/S3/Config/Soundness.antt =====
-- backend/src/api/lifecycle.ts, backend/src/api/cors.ts and backend/src/api/s3.ts: the rules of buckets.
use r2storage.Prelude.{
  Bool, Bool-cases, List, Option, Option-cases, Text, [], all, arith, false, get_or_else,
  if◌then◌else◌, inl, inr, leb, length, ltb, none, not, parse_nat, refl, some, some_inj, subst, sym,
  text_eq, trim, true, ℕ, ◌&&◌, ◌+◌, ◌==◌, ◌||◌, ◌∷◌, ◌≡◌,
}
use r2storage.S3.{Request, has_query, refuses, write_access}
use r2storage.S3.Config.{
  Captures, ConfigBody, CorsBlock, RuleBlock, capped_age, config_mismatch, config_read,
  config_too_large, configured, cors_rule, cors_rules_from, has_subresource, is_calendar_day,
  is_status, lifecycle_rule, lifecycle_rules_from, max_age_cap_sec, max_cors_rules,
  max_lifecycle_rules, parse_cors, parse_lifecycle, put_body, put_bucket, put_config, reset_bucket,
  rule_expiry, rule_id, rule_prefix, set_bucket, valid_methods,
}
use r2storage.S3.Cors.{includes}
use r2storage.Store.{Bucket, CorsRule, LifecycleRule, World, find_bucket}

unfoldable pub sound_expiry : (Text → Option Text) → Option ℕ → Option Text → Bool
sound_expiry iso_day (some n) none = leb 1 n
sound_expiry iso_day none (some day) = is_calendar_day iso_day day
sound_expiry iso_day (some n) (some day) = false
sound_expiry iso_day none none = false

unfoldable pub is_sound_rule : (Text → Option Text) → LifecycleRule → Bool
is_sound_rule iso_day r =
    is_status r.status && sound_expiry iso_day r.days r.date && not (text_eq r.id [])

unfoldable pub is_sound_cors : CorsRule → Bool
is_sound_cors r =
    not (length r.allowed_origins == 0)
    && not (length r.allowed_methods == 0)
    && all (λ m. includes m valid_methods) r.allowed_methods
    && leb r.max_age_seconds max_age_cap_sec

unfoldable pub is_sound_bucket : (Text → Option Text) → Bucket → Bool
is_sound_bucket iso_day b =
    all (is_sound_rule iso_day) b.lifecycle_rules && all is_sound_cors b.cors_rules

-- Every stored rule of every bucket is one that the parsers give.
abbrev pub SoundRules : (Text → Option Text) → World → Type 0
SoundRules iso_day w = all (is_sound_bucket iso_day) w.buckets ≡ true

both_true : (a b : Bool) → a ≡ true → b ≡ true → (a && b) ≡ true
both_true a b h h' = ground arith

of_both : (a b : Bool) → (a && b) ≡ true → (a ≡ true) × (b ≡ true)
of_both a b h = ground arith

module _ (iso_day : Text → Option Text) where
  rule_expiry_sound :
      (e : Option (Option Text × Option Text)) (days : Option ℕ) (date : Option Text)
      → rule_expiry iso_day e ≡ some (days, date)
      → sound_expiry iso_day days date ≡ true
  unfolding rule_expiry sound_expiry
  rule_expiry_sound none days date h = cc
  rule_expiry_sound (some (none, none)) days date h = cc
  rule_expiry_sound (some (some a, some b)) days date h = cc
  rule_expiry_sound (some (some a, none)) days date h = elim (Option-cases (parse_nat a)) [
    | inl e ↦ absurd (cc (rw (e, rule_expiry) at h))
    | inr (n, e) ↦ elim (Bool-cases (leb 1 n)) [
      | inl e' ↦
          subst (λ x. sound_expiry iso_day x.0 x.1 ≡ true) (some_inj (rw (e, e', rule_expiry) at h))
            e'
      | inr e' ↦ absurd (cc (rw (e, e', rule_expiry) at h))
    ]
  ]
  rule_expiry_sound (some (none, some a)) days date h =
      elim (Bool-cases (is_calendar_day iso_day (trim a))) [
        | inl e ↦
            subst (λ x. sound_expiry iso_day x.0 x.1 ≡ true) (some_inj (rw (e, rule_expiry) at h)) e
        | inr e ↦ absurd (cc (rw (e, rule_expiry) at h))
      ]

  rule_id-nonempty :
      (i : ℕ) (given : Option Text) (id : Text)
      → rule_id i given ≡ some id
      → not (text_eq id []) ≡ true
  unfolding rule_id text_eq
  rule_id-nonempty i none id h = rw (sym (some_inj h)) refl
  rule_id-nonempty i (some given) id h = ground arith

  lifecycle_rule_sound :
      (i : ℕ) (b : RuleBlock) (r : LifecycleRule)
      → lifecycle_rule iso_day i b ≡ some r
      → is_sound_rule iso_day r ≡ true
  unfolding lifecycle_rule is_sound_rule
  lifecycle_rule_sound i b r h = elim (Option-cases (rule_prefix b)) [
    | inl e ↦ absurd (cc (rw (e, lifecycle_rule) at h))
    | inr (p, e) ↦ elim (Option-cases (rule_expiry iso_day b.expiration)) [
      | inl e1 ↦ absurd (cc (rw (e, e1, lifecycle_rule) at h))
      | inr ((days, date), e1) ↦ elim (Option-cases (rule_id i b.id)) [
        | inl e2 ↦ absurd (cc (rw (e, e1, e2, lifecycle_rule) at h))
        | inr (id, e2) ↦ elim (Bool-cases (is_status (get_or_else b.status []))) [
          | inl e3 ↦ rw (sym (some_inj (rw (e, e1, e2, e3, lifecycle_rule) at h))) (
              both_true _ _ (both_true _ _ e3 (rule_expiry_sound b.expiration days date e1))
                (rule_id-nonempty i b.id id e2))
          | inr e3 ↦ absurd (cc (rw (e, e1, e2, e3, lifecycle_rule) at h))
        ]
      ]
    ]
  ]

  lifecycle_rules_from_sound :
      (i : ℕ) (bs : List RuleBlock) (rs : List LifecycleRule)
      → lifecycle_rules_from iso_day i bs ≡ some rs
      → all (is_sound_rule iso_day) rs ≡ true
  unfolding lifecycle_rules_from
  lifecycle_rules_from_sound i [] rs h = rw (sym (some_inj h)) refl
  lifecycle_rules_from_sound i (b ∷ bs) rs h = elim (Option-cases (lifecycle_rule iso_day i b)) [
    | inl e ↦ absurd (cc (rw (e, lifecycle_rules_from) at h))
    | inr (r, e) ↦ elim (Option-cases (lifecycle_rules_from iso_day (i + 1) bs)) [
      | inl e' ↦ absurd (cc (rw (e, e', lifecycle_rules_from) at h))
      | inr (rest, e') ↦ rw (sym (some_inj (rw (e, e', lifecycle_rules_from) at h))) (
          both_true _ _ (lifecycle_rule_sound i b r e)
            (lifecycle_rules_from_sound (i + 1) bs rest e'))
    ]
  ]

neither : (a b : Bool) → (a || b) ≡ false → (not a ≡ true) × (not b ≡ true)
neither a b h = ground arith

holds_of_negation : (a : Bool) → not a ≡ false → a ≡ true
holds_of_negation a h = ground arith

capped_age-bound : (age : Option Text) → leb (capped_age age) max_age_cap_sec ≡ true
unfolding capped_age
capped_age-bound none = refl
capped_age-bound (some digits) = ground arith

cors_rule_sound : (b : CorsBlock) (r : CorsRule) → cors_rule b ≡ some r → is_sound_cors r ≡ true
unfolding cors_rule is_sound_cors capped_age
cors_rule_sound b r h = elim (Bool-cases (length b.origins == 0 || length b.methods == 0)) [
  | inl e ↦ absurd (cc (rw (e, cors_rule) at h))
  | inr e ↦ elim (Bool-cases (not (all (λ m. includes m valid_methods) b.methods))) [
    | inl e' ↦ absurd (cc (rw (e, e', cors_rule) at h))
    | inr e' ↦
        let (given, given') = neither (length b.origins == 0) (length b.methods == 0) e in
        rw (sym (some_inj (rw (e, e', cors_rule) at h))) (
          both_true _ _ (both_true _ _ (both_true _ _ given given') (holds_of_negation _ e'))
            (capped_age-bound b.max_age))
  ]
]

cors_rules_from_sound :
    (bs : List CorsBlock) (rs : List CorsRule)
    → cors_rules_from bs ≡ some rs
    → all is_sound_cors rs ≡ true
unfolding cors_rules_from
cors_rules_from_sound [] rs h = rw (sym (some_inj h)) refl
cors_rules_from_sound (b ∷ bs) rs h = elim (Option-cases (cors_rule b)) [
  | inl e ↦ absurd (cc (rw (e, cors_rules_from) at h))
  | inr (r, e) ↦ elim (Option-cases (cors_rules_from bs)) [
    | inl e' ↦ absurd (cc (rw (e, e', cors_rules_from) at h))
    | inr (rest, e') ↦
        rw (sym (some_inj (rw (e, e', cors_rules_from) at h)))
          (both_true _ _ (cors_rule_sound b r e) (cors_rules_from_sound bs rest e'))
  ]
]

all-set_bucket :
    (p : Bucket → Bool) (name : Text) (f : Bucket → Bucket) (bs : List Bucket)
    → ((b : Bucket) → p b ≡ true → p (f b) ≡ true)
    → all p bs ≡ true
    → all p (set_bucket name f bs) ≡ true
unfolding set_bucket
all-set_bucket p name f [] keeps h = h
all-set_bucket p name f (b ∷ bs) keeps h =
    let (h', h'') = of_both _ _ h in
    elim (Bool-cases (text_eq b.name name)) [
      | inl e ↦ rw e (both_true _ _ (keeps b h') h'')
      | inr e ↦ rw e (both_true _ _ h' (all-set_bucket p name f bs keeps h''))
    ]

module _ (iso_day : Text → Option Text) (r : Request) (w : World) where
  parse_lifecycle_sound :
      (bs : List RuleBlock) (rs : List LifecycleRule)
      → parse_lifecycle iso_day bs ≡ some rs
      → all (is_sound_rule iso_day) rs ≡ true
  unfolding parse_lifecycle
  parse_lifecycle_sound bs rs h =
      elim (Bool-cases (length bs == 0 || ltb max_lifecycle_rules (length bs))) [
        | inl e ↦ absurd (cc (rw (e, parse_lifecycle) at h))
        | inr e ↦ lifecycle_rules_from_sound iso_day 0 bs rs (rw (e, parse_lifecycle) at h)
      ]

  parse_cors_sound :
      (bs : List CorsBlock) (rs : List CorsRule)
      → parse_cors bs ≡ some rs
      → all is_sound_cors rs ≡ true
  unfolding parse_cors
  parse_cors_sound bs rs h = elim (Bool-cases (length bs == 0 || ltb max_cors_rules (length bs))) [
    | inl e ↦ absurd (cc (rw (e, parse_cors) at h))
    | inr e ↦ cors_rules_from_sound bs rs (rw (e, parse_cors) at h)
  ]

  configured_sound :
      (f : Bucket → Bucket)
      → ((b : Bucket) → is_sound_bucket iso_day b ≡ true → is_sound_bucket iso_day (f b) ≡ true)
      → SoundRules iso_day w
      → SoundRules iso_day (configured r.bucket_name f w)
  unfolding configured
  configured_sound f keeps h =
      all-set_bucket (is_sound_bucket iso_day) r.bucket_name f w.buckets keeps h

  put_config_sound :
      (c : Captures) → SoundRules iso_day w → SoundRules iso_day (put_config iso_day r c w).0
  unfolding put_config is_sound_bucket
  put_config_sound c h = elim (Bool-cases (has_query r "lifecycle")) [
    | inl e ↦ elim (Option-cases (parse_lifecycle iso_day c.rule_blocks)) [
      | inl e' ↦ rw (e, e', put_config) h
      | inr (rules, e') ↦
          rw (e, e', put_config)
            (configured_sound _
              (λ b sound.
                both_true _ _ (parse_lifecycle_sound c.rule_blocks rules e') (of_both _ _ sound).1)
              h)
    ]
    | inr e ↦ elim (Bool-cases (has_query r "cors")) [
      | inl e1 ↦ elim (Option-cases (parse_cors c.cors_blocks)) [
        | inl e' ↦ rw (e, e1, e', put_config) h
        | inr (rules, e') ↦
            rw (e, e1, e', put_config)
              (configured_sound _
                (λ b sound.
                  both_true _ _ (of_both _ _ sound).0 (parse_cors_sound c.cors_blocks rules e'))
                h)
      ]
      | inr e1 ↦ elim (Option-cases c.tag_set_read) [
        | inl e' ↦ rw (e, e1, e', put_config) h
        | inr (tags, e') ↦ rw (e, e1, e', put_config) (configured_sound _ (λ b sound. sound) h)
      ]
    ]
  ]

  put_body_sound :
      (body : ConfigBody) → SoundRules iso_day w → SoundRules iso_day (put_body iso_day r body w).0
  unfolding put_body
  put_body_sound config_too_large h = h
  put_body_sound config_mismatch h = h
  put_body_sound (config_read c) h = put_config_sound c h

  reset_sound :
      (b : Bucket)
      → is_sound_bucket iso_day b ≡ true
      → is_sound_bucket iso_day (
          if has_query r "lifecycle"
          then record b { lifecycle_rules = [] }
          else if has_query r "cors"
          then record b { cors_rules = [] }
          else record b { tags = none })
        ≡ true
  unfolding is_sound_bucket
  reset_sound b h =
      let (h', h'') = of_both _ _ h in
      elim (Bool-cases (has_query r "lifecycle")) [
        | inl e ↦ rw e (both_true _ _ refl h'')
        | inr e ↦ elim (Bool-cases (has_query r "cors")) [
          | inl e' ↦ rw (e, e') (both_true _ _ h' refl)
          | inr e' ↦ rw (e, e') h
        ]
      ]

  put_sound :
      (body : ConfigBody)
      → SoundRules iso_day w
      → SoundRules iso_day (put_bucket iso_day r body w).0
  unfolding put_bucket
  put_sound body h = elim (Option-cases (find_bucket r.bucket_name w.buckets)) [
    | inl e ↦ rw (e, put_bucket) h
    | inr (bucket, e) ↦ elim (Bool-cases (refuses r write_access)) [
      | inl e1 ↦ rw (e, e1, put_bucket) h
      | inr e1 ↦ elim (Bool-cases (has_subresource iso_day r)) [
        | inl e2 ↦ rw (e, e1, e2, put_bucket) (put_body_sound body h)
        | inr e2 ↦ rw (e, e1, e2, put_bucket) h
      ]
    ]
  ]

  -- Both a PUT and a DELETE of a bucket's configuration keep every stored rule sound: a lifecycle rule
  -- is Enabled or Disabled, has an id, and has either a number of days from 1 on or an existing
  -- calendar day; a CORS rule has origins, only known methods, and an age of at most a day.
  pub put_bucket-SoundRules :
      (body : ConfigBody)
      → SoundRules iso_day w
      → SoundRules iso_day (put_bucket iso_day r body w).0
        × SoundRules iso_day (reset_bucket iso_day r w).0
  unfolding reset_bucket
  put_bucket-SoundRules body h = (
    put_sound body h,
    elim (Option-cases (find_bucket r.bucket_name w.buckets)) [
      | inl e ↦ rw (e, reset_bucket) h
      | inr (bucket, e) ↦ elim (Bool-cases (refuses r write_access)) [
        | inl e1 ↦ rw (e, e1, reset_bucket) h
        | inr e1 ↦ elim (Bool-cases (has_subresource iso_day r)) [
          | inl e2 ↦ rw (e, e1, e2, reset_bucket) (configured_sound _ reset_sound h)
          | inr e2 ↦ rw (e, e1, e2, reset_bucket) h
        ]
      ]
    ],
  )
