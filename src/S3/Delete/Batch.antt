-- ===== src/S3/Delete/Batch.antt =====
-- DeleteObjects: the effect of a batch on the table of objects.
use r2storage.Prelude.{
  Bool, Bool-cases, List, Option-cases, Text, [], any, arith, false, if◌then◌else◌, inl, inr,
  length, ltb, none, refl, some, text_eq, text_eq_iff, true, ℕ, ◌&&◌, ◌||◌, ◌∙◌, ◌∷◌, ◌≡◌, ◌⊎◌,
}
use r2storage.S3.{Reply, Request, full_access, has_query, refuses, succeeded}
use r2storage.S3.Delete.{
  delete_each, delete_found, delete_keys, delete_objects, delete_one, unique_keys,
}
use r2storage.Storage.Engine.{Platform, delete_object_file}
use r2storage.Store.{ObjectRow, World, find_bucket, find_object}
use r2storage.Store.Laws.{find_object-delete_object, find_object-some}

pub both_true : (a b : Bool) → (a && b) ≡ true → (a ≡ true) × (b ≡ true)
both_true true b h = (refl, h)
both_true false b h = absurd (cc)

any-same :
    (k j : Text) (seen : List Text)
    → any (text_eq k) seen ≡ true
    → text_eq k j ≡ true
    → any (λ x. text_eq x j) seen ≡ true
any-same k j [] h e = absurd (cc)
any-same k j (x ∷ seen) h e =
    ground (arith, text_eq_iff k x, text_eq_iff k j, text_eq_iff x j, any-same k j seen)

module _ (pf : Platform) (boot_quota : ℕ) where
  empty_at :
      (bucket k other j : Text) (rs : List ObjectRow)
      → find_object bucket k rs ≡ none
      → (text_eq bucket other && text_eq k j) ≡ true
      → find_object other j rs ≡ none
  empty_at bucket k other j rs e h =
      let (b, c) = both_true (text_eq bucket other) (text_eq k j) h in
      rw (← (text_eq_iff bucket other).0 b, ← (text_eq_iff k j).0 c) e

  absent :
      (bucket k other j : Text) (rs : List ObjectRow)
      → find_object bucket k rs ≡ none
      → find_object other j rs
        ≡ (if text_eq bucket other && text_eq k j then none else find_object other j rs)
  absent bucket k other j rs e = elim (Bool-cases (text_eq bucket other && text_eq k j)) [
    | inl same ↦ rw same (empty_at bucket k other j rs e same)
    | inr different ↦ rw different refl
  ]

  find_object-delete_one :
      (bucket k other j : Text) (w : World)
      → find_object other j (delete_one pf boot_quota bucket k w).objects
        ≡ (if text_eq bucket other && text_eq k j then none else find_object other j w.objects)
  unfolding delete_one delete_found delete_object_file
  find_object-delete_one bucket k other j w = elim (Option-cases (find_object bucket k w.objects)) [
    | inl e ↦ rw (e, delete_one) (absent bucket k other j w.objects e)
    | inr (o, e) ↦
        let (b, c) = find_object-some bucket k w.objects o e in
        rw (e, delete_one, b, c) (find_object-delete_object other j bucket k w.objects)
  ]

  find_object-delete_each :
      (bucket : Text) (ks : List Text) (other j : Text) (w : World)
      → find_object other j (delete_each pf boot_quota bucket ks w).objects ≡ (
          if text_eq bucket other && any (λ k. text_eq k j) ks
          then none
          else find_object other j w.objects)
  unfolding delete_each
  find_object-delete_each bucket [] other j w = ground arith
  find_object-delete_each bucket (k ∷ ks) other j w =
      find_object-delete_each bucket ks other j (delete_one pf boot_quota bucket k w)
      ∙ rw (find_object-delete_one bucket k other j w) (ground arith)

  any-unique_keys :
      (j : Text) (seen ks : List Text)
      → (any (λ k. text_eq k j) seen || any (λ k. text_eq k j) (unique_keys pf boot_quota seen ks))
        ≡ (any (λ k. text_eq k j) seen || any (λ k. text_eq k j) ks)
  unfolding unique_keys
  any-unique_keys j seen [] = refl
  any-unique_keys j seen (k ∷ ks) = elim (Bool-cases (any (text_eq k) seen)) [
    | inl again ↦
        rw (again, unique_keys) (ground (arith, any-unique_keys j seen ks, any-same k j seen again))
    | inr new ↦ rw (new, unique_keys) (ground (arith, any-unique_keys j (k ∷ seen) ks))
  ]

  Batch : Text → List Text → World → World × Reply → Type 0
  Batch bucket keys w (after, reply) =
      (after ≡ w) × ¬ (reply ≡ succeeded 200 none)
      ⊎ (reply ≡ succeeded 200 none)
        × ((other j : Text)
            → find_object other j after.objects ≡ (
                if text_eq bucket other && any (λ k. text_eq k j) keys
                then none
                else find_object other j w.objects))

  delete_keys-Batch :
      (bucket : Text) (ks : List Text) (w : World)
      → Batch bucket ks w (delete_keys pf boot_quota bucket ks w)
  unfolding delete_keys Batch
  delete_keys-Batch bucket [] w = inl (refl, (λ e. cc))
  delete_keys-Batch bucket (k ∷ ks) w = elim (Bool-cases (ltb 1000 (length (k ∷ ks)))) [
    | inl many ↦ rw many (inl (refl, (λ e. cc)))
    | inr few ↦ rw few (inr (refl, (λ other j. find_object-delete_each bucket (k ∷ ks) other j w)))
  ]

  Batch-unique_keys :
      (bucket : Text) (keys : List Text) (w : World) (result : World × Reply)
      → Batch bucket (unique_keys pf boot_quota [] keys) w result
      → Batch bucket keys w result
  unfolding Batch
  Batch-unique_keys bucket keys w (after, reply) (inl h) = inl h
  Batch-unique_keys bucket keys w (after, reply) (inr (e, h)) =
      inr (e, (λ other j. rw (← any-unique_keys j [] keys) (h other j)))

  -- A batch of keys either is refused and changes nothing, or is answered with 200: then exactly the
  -- listed keys of the bucket have no object any more, whether listed once or more often and whether
  -- they had one before, and every other object of any bucket is as it was.
  pub delete_objects-find_object :
      (r : Request) (keys : List Text) (w : World)
      → let (after, reply) = delete_objects pf boot_quota r (some keys) w in
        (after ≡ w) × ¬ (reply ≡ succeeded 200 none)
        ⊎ (reply ≡ succeeded 200 none)
          × ((other j : Text)
              → find_object other j after.objects ≡ (
                  if text_eq r.bucket_name other && any (λ k. text_eq k j) keys
                  then none
                  else find_object other j w.objects))
  unfolding delete_objects Batch
  delete_objects-find_object r keys w = elim (Bool-cases (has_query r "delete")) [
    | inr missing ↦ rw (missing, delete_objects) (inl (refl, (λ e. cc)))
    | inl asked ↦ elim (Option-cases (find_bucket r.bucket_name w.buckets)) [
      | inl nowhere ↦ rw (asked, nowhere, delete_objects) (inl (refl, (λ e. cc)))
      | inr (b, found) ↦ elim (Bool-cases (refuses r full_access)) [
        | inl denied ↦ rw (asked, found, denied, delete_objects) (inl (refl, (λ e. cc)))
        | inr allowed ↦
            rw (asked, found, allowed, delete_objects)
              (Batch-unique_keys r.bucket_name keys w _
                (delete_keys-Batch r.bucket_name (unique_keys pf boot_quota [] keys) w))
      ]
    ]
  ]
