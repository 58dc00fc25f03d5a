-- ===== src/Maintenance/Lifecycle.antt =====
-- Which objects the lifecycle sweep deletes.
use r2storage.Maintenance.{
  add_object, add_objects, collect_expired, expire_object, expire_objects, rule_expires,
  sweep_bucket, sweep_buckets, sweep_expired_objects,
}
use r2storage.Prelude.{
  Bool, Bool-cases, List, Option, Text, [], any, arith, false, filter, if◌then◌else◌, inl, inr,
  none, refl, sym, text_eq, text_eq_iff, true, ℕ, ◌&&◌, ◌++◌, ◌||◌, ◌∙◌, ◌∷◌, ◌≡◌,
}
use r2storage.S3.Delete.Batch.{both_true}
use r2storage.Store.{Bucket, LifecycleRule, ObjectRow, World, delete_object, find_object, is_object}
use r2storage.Store.Laws.{find_object-delete_object}

-- Whether some row of the key passes the test.
abbrev row_with : (ObjectRow → Bool) → Text → Text → List ObjectRow → Bool
row_with p bucket k rows = any (λ o. is_object bucket k o && p o) rows

abbrev keyed : Text → Text → List ObjectRow → Bool
keyed bucket k rows = any (is_object bucket k) rows

is_object-same :
    (o : ObjectRow) (bucket k : Text) (rows : List ObjectRow)
    → is_object bucket k o ≡ true
    → keyed o.bucket_name o.key rows ≡ keyed bucket k rows
is_object-same o bucket k rows h =
    let (b, c) = both_true (text_eq o.bucket_name bucket) (text_eq o.key k) h in
    rw ((text_eq_iff o.bucket_name bucket).0 b, (text_eq_iff o.key k).0 c) refl

any-append {ℓ} :
    {A : Type ℓ} (p : A → Bool) (xs ys : List A) → any p (xs ++ ys) ≡ (any p xs || any p ys)
any-append p [] ys = refl
any-append p (x ∷ xs) ys = ground (arith, any-append p xs ys)

keyed-add_object :
    (bucket k : Text) (o : ObjectRow) (acc : List ObjectRow)
    → keyed bucket k (add_object o acc) ≡ (keyed bucket k acc || is_object bucket k o)
unfolding add_object
keyed-add_object bucket k o acc = elim (Bool-cases (is_object bucket k o)) [
  | inl e ↦ elim (Bool-cases (any (is_object o.bucket_name o.key) acc)) [
    | inl dup ↦ rw (dup, e) (ground (arith, is_object-same o bucket k acc e, dup))
    | inr fresh ↦ rw (fresh, e) (ground (arith, any-append (is_object bucket k) acc (o ∷ []), e))
  ]
  | inr e ↦ elim (Bool-cases (any (is_object o.bucket_name o.key) acc)) [
    | inl dup ↦ rw (dup, e) (ground arith)
    | inr fresh ↦ rw (fresh, e) (ground (arith, any-append (is_object bucket k) acc (o ∷ []), e))
  ]
]

keyed-add_objects :
    (bucket k : Text) (p : ObjectRow → Bool) (rows acc : List ObjectRow)
    → keyed bucket k (add_objects (filter p rows) acc)
      ≡ (keyed bucket k acc || row_with p bucket k rows)
unfolding add_objects
keyed-add_objects bucket k p [] acc = ground arith
keyed-add_objects bucket k p (o ∷ rows) acc = elim (Bool-cases (p o)) [
  | inl e ↦ rw e (
      keyed-add_objects bucket k p rows (add_object o acc)
      ∙ ground (arith, keyed-add_object bucket k o acc))
  | inr e ↦ rw e (keyed-add_objects bucket k p rows acc ∙ ground arith)
]

row_with-delete_object :
    (p : ObjectRow → Bool) (bucket k other j : Text) (rows : List ObjectRow)
    → row_with p bucket k (delete_object other j rows)
      ≡ (if text_eq other bucket && text_eq j k then false else row_with p bucket k rows)
unfolding delete_object
row_with-delete_object p bucket k other j [] = ground arith
row_with-delete_object p bucket k other j (r ∷ rows) = ground (
  arith,
  text_eq_iff r.bucket_name other,
  text_eq_iff r.key j,
  text_eq_iff other bucket,
  text_eq_iff j k,
  text_eq_iff r.bucket_name bucket,
  text_eq_iff r.key k,
  row_with-delete_object p bucket k other j rows,
)

if-same {ℓ} : {A : Type ℓ} (b : Bool) {x : A} → (if b then x else x) ≡ x
if-same true = refl
if-same false = refl

find_object-expire_objects :
    (bucket k : Text) (ds : List ObjectRow) (w : World)
    → find_object bucket k (expire_objects ds w).objects
      ≡ (if keyed bucket k ds then none else find_object bucket k w.objects)
unfolding expire_objects expire_object
find_object-expire_objects bucket k [] w = refl
find_object-expire_objects bucket k (o ∷ ds) w =
    let rest = find_object-expire_objects bucket k ds (expire_object o w) in
    let first = find_object-delete_object bucket k o.bucket_name o.key w.objects in
    elim (Bool-cases (is_object bucket k o)) [
      | inl e ↦ rest ∙ rw (first, e) (if-same (keyed bucket k ds))
      | inr e ↦ rest ∙ rw (first, e) refl
    ]

row_with-expire_objects :
    (p : ObjectRow → Bool) (bucket k : Text) (ds : List ObjectRow) (w : World)
    → row_with p bucket k (expire_objects ds w).objects
      ≡ (if keyed bucket k ds then false else row_with p bucket k w.objects)
unfolding expire_objects expire_object
row_with-expire_objects p bucket k [] w = refl
row_with-expire_objects p bucket k (o ∷ ds) w =
    let rest = row_with-expire_objects p bucket k ds (expire_object o w) in
    let first = row_with-delete_object p bucket k o.bucket_name o.key w.objects in
    elim (Bool-cases (is_object bucket k o)) [
      | inl e ↦ rest ∙ rw (first, e) (if-same (keyed bucket k ds))
      | inr e ↦ rest ∙ rw (first, e) refl
    ]

module _ (day_start : Text → Option ℕ) (now : ℕ) where
  -- Whether the bucket has a rule that takes some row of the key.
  abbrev pub takes : Bucket → Text → Text → List ObjectRow → Bool
  takes c bucket k rows =
      any
        (λ rule.
          row_with (λ o. text_eq o.bucket_name c.name && rule_expires day_start now rule o) bucket k
            rows)
        c.lifecycle_rules

  keyed-collect_expired :
      (name bucket k : Text) (rules : List LifecycleRule) (rows acc : List ObjectRow)
      → keyed bucket k (collect_expired day_start now name rules rows acc) ≡ (
          keyed bucket k acc
          || any
              (λ rule.
                row_with
                  (λ o. text_eq o.bucket_name name && rule_expires day_start now rule o)
                  bucket
                  k
                  rows)
              rules)
  unfolding collect_expired
  keyed-collect_expired name bucket k [] rows acc = ground arith
  keyed-collect_expired name bucket k (rule ∷ rules) rows acc =
      keyed-collect_expired name bucket k rules rows _
      ∙ ground (
        arith,
        keyed-add_objects bucket k
            (λ o. text_eq o.bucket_name name && rule_expires day_start now rule o) rows acc,
      )

  any-rules :
      (bucket k name : Text) (rules : List LifecycleRule) (ds : List ObjectRow) (w : World)
      → any
          (λ rule.
            row_with
              (λ o. text_eq o.bucket_name name && rule_expires day_start now rule o)
              bucket
              k
              (expire_objects ds w).objects)
          rules
        ≡ (if keyed bucket k ds
            then false
            else any
                (λ rule.
                  row_with
                    (λ o. text_eq o.bucket_name name && rule_expires day_start now rule o)
                    bucket
                    k
                    w.objects)
                rules)
  any-rules bucket k name [] ds w = sym (if-same (keyed bucket k ds))
  any-rules bucket k name (rule ∷ rules) ds w =
      let first =
        row_with-expire_objects
          (λ o. text_eq o.bucket_name name && rule_expires day_start now rule o) bucket k ds w in
      let rest = any-rules bucket k name rules ds w in
      elim (Bool-cases (keyed bucket k ds)) [
        | inl e ↦ rw (first, rest, e) refl
        | inr e ↦ rw (first, rest, e) refl
      ]

  any-buckets :
      (bucket k : Text) (cs : List Bucket) (ds : List ObjectRow) (w : World)
      → any (λ c. takes c bucket k (expire_objects ds w).objects) cs
        ≡ (if keyed bucket k ds then false else any (λ c. takes c bucket k w.objects) cs)
  any-buckets bucket k [] ds w = sym (if-same (keyed bucket k ds))
  any-buckets bucket k (c ∷ cs) ds w =
      let first = any-rules bucket k c.name c.lifecycle_rules ds w in
      let rest = any-buckets bucket k cs ds w in
      elim (Bool-cases (keyed bucket k ds)) [
        | inl e ↦ rw (first, rest, e) refl
        | inr e ↦ rw (first, rest, e) refl
      ]

  find_object-sweep_buckets :
      (bucket k : Text) (cs : List Bucket) (w : World)
      → find_object bucket k (sweep_buckets day_start now cs w).objects ≡ (
          if any (λ c. takes c bucket k w.objects) cs then none else find_object bucket k w.objects)
  unfolding sweep_buckets sweep_bucket
  find_object-sweep_buckets bucket k [] w = refl
  find_object-sweep_buckets bucket k (c ∷ cs) w =
      let ds = collect_expired day_start now c.name c.lifecycle_rules w.objects [] in
      let taken = keyed-collect_expired c.name bucket k c.lifecycle_rules w.objects [] in
      let found = find_object-expire_objects bucket k ds w in
      let due = any-buckets bucket k cs ds w in
      find_object-sweep_buckets bucket k cs (sweep_bucket day_start now c w)
      ∙ elim (Bool-cases (takes c bucket k w.objects)) [
        | inl e ↦ rw (due, found, taken, e) refl
        | inr e ↦ rw (due, found, taken, e) refl
      ]

  -- After the lifecycle sweep a key holds no object if some bucket has an enabled rule whose prefix,
  -- taken as a LIKE pattern, and age or date take a row of that key and bucket, and else it holds
  -- exactly what it held before.
  pub find_object-sweep_expired_objects :
      (bucket k : Text) (w : World)
      → find_object bucket k (sweep_expired_objects day_start now w).objects ≡ (
          if any (λ c. takes c bucket k w.objects) w.buckets
          then none
          else find_object bucket k w.objects)
  unfolding sweep_expired_objects
  find_object-sweep_expired_objects bucket k w = find_object-sweep_buckets bucket k w.buckets w
