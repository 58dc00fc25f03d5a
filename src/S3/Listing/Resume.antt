-- ===== src/S3/Listing/Resume.antt =====
-- Where the page after a truncated page of ListObjects begins.
use mathlib.Core.List.{reverse, reverse-cons}
use mathlib.Core.Bool.{true≢false}
use r2storage.Prelude.{
  All, Bool-cases, List, Text, [], ap, append-nil, append_assoc, arith, false, inl, inr, leb,
  length, map, refl, some, subst, sym, text_eq, true, ℕ, ◌++◌, ◌+◌, ◌<◌, ◌∙◌, ◌∷◌, ◌≡◌, ◌≤◌,
}
use r2storage.S3.Listing.{
  Item, common_prefix, content, keys_after, list_loop, list_objects, next_item, next_marker,
  text_lt,
}

text_lt_irrefl : (k : Text) → text_lt k k ≡ false
unfolding text_lt
text_lt_irrefl [] = refl
text_lt_irrefl (x ∷ xs) = ground (arith, text_lt_irrefl xs)

leb-true : (m n : ℕ) → m ≤ n → leb m n ≡ true
leb-true m n h = ground arith

leb-false : (m n : ℕ) → n < m → leb m n ≡ false
leb-false m n h = ground arith

-- Without a delimiter a page of `ks ++ k ∷ rest` that has room for `ks` alone is truncated at `k`.
list_loop-cut :
    (prefix : Text) (max_keys : ℕ) (items : List (Item Text)) (last k : Text) (ks rest : List Text)
    → max_keys ≡ length items + length ks
    → list_loop prefix [] max_keys items last (ks ++ k ∷ rest)
      ≡ record { items = reverse items ++ map content ks; truncated = true; last_consumed = k }
unfolding list_loop next_item common_prefix
list_loop-cut prefix max_keys items last k [] rest h =
    rw (leb-true max_keys (length items) (omega arith), list_loop, append-nil (reverse items)) refl
list_loop-cut prefix max_keys items last k (x ∷ ks) rest h =
    rw (leb-false max_keys (length items) (omega arith), list_loop)
      (list_loop-cut prefix max_keys (content x ∷ items) x k ks rest (omega arith)
        ∙ rw
            (
              reverse-cons (content x) items,
              append_assoc (reverse items) (content x ∷ []) (map content ks),
            )
            refl)

keys_after_none : (ks : List Text) → keys_after [] ks ≡ ks
unfolding keys_after text_eq
keys_after_none [] = refl
keys_after_none (k ∷ ks) = ap (k ∷◌) (keys_after_none ks)

text_lt-≢ : (k j : Text) → text_lt k j ≡ true → ¬ (j ≡ k)
text_lt-≢ k j h e = true≢false (sym h ∙ ap (text_lt k) e ∙ text_lt_irrefl k)

-- The keys after a marker do not have the marker among them.
keys_after_excludes :
    (c : ℕ) (s : Text) (ks : List Text) → All (λ j. ¬ (j ≡ c ∷ s)) (keys_after (c ∷ s) ks)
unfolding keys_after text_eq
keys_after_excludes c s [] = tt
keys_after_excludes c s (j ∷ ks) = elim (Bool-cases (text_lt (c ∷ s) j)) [
  | inl after ↦ rw (after, keys_after) (text_lt-≢ (c ∷ s) j after, keys_after_excludes c s ks)
  | inr before ↦ rw (before, keys_after) (keys_after_excludes c s ks)
]

All-append : {A : Type 0} (P : A → Type 0) (xs ys : List A) → All P xs → All P ys → All P (xs ++ ys)
All-append P [] ys h k = k
All-append P (x ∷ xs) ys h k = (h.0, All-append P xs ys h.1 k)

All-reverse : {A : Type 0} (P : A → Type 0) (xs : List A) → All P xs → All P (reverse xs)
All-reverse P [] h = h
All-reverse P (x ∷ xs) h =
    subst (All P) (sym (reverse-cons x xs))
      (All-append P (reverse xs) (x ∷ []) (All-reverse P xs h.1) (h.0, tt))

-- A page without a delimiter holds only what it was given.
list_loop_excludes :
    (prefix : Text) (max_keys : ℕ) (items : List (Item Text)) (last k : Text) (ks : List Text)
    → All (λ i. ¬ (i ≡ content k)) items
    → All (λ j. ¬ (j ≡ k)) ks
    → All (λ i. ¬ (i ≡ content k)) (list_loop prefix [] max_keys items last ks).items
unfolding list_loop next_item common_prefix
list_loop_excludes prefix max_keys items last k [] h g =
    All-reverse (λ i. ¬ (i ≡ content k)) items h
list_loop_excludes prefix max_keys items last k (x ∷ ks) h g =
    elim (Bool-cases (leb max_keys (length items))) [
      | inl full_page ↦ rw (full_page, list_loop) (All-reverse (λ i. ¬ (i ≡ content k)) items h)
      | inr room ↦
          rw (room, list_loop)
            (list_loop_excludes prefix max_keys (content x ∷ items) x k ks ((λ e. g.0 cc), h) g.1)
    ]

-- In a listing without a delimiter, the key just past a full page is on no page: the first page ends
-- before it and gives it as the marker, and the page that begins at the marker leaves it out, whatever
-- its size.
pub list_objects_skips_marker :
    (prefix : Text) (c : ℕ) (s : Text) (ks rest : List Text) (next_size : ℕ)
    → let k = c ∷ s in
      let keys = ks ++ k ∷ rest in
      let first = list_objects prefix [] (length ks) [] keys in
      (first.items ≡ map content ks)
      × (next_marker first ≡ some k)
      × All (λ i. ¬ (i ≡ content k)) (list_objects prefix [] next_size k keys).items
unfolding list_objects next_marker
list_objects_skips_marker prefix c s ks rest next_size =
    let cut =
      ap (list_loop prefix [] (length ks) [] []) (keys_after_none (ks ++ (c ∷ s) ∷ rest))
      ∙ list_loop-cut prefix (length ks) [] [] (c ∷ s) ks rest (omega arith) in
    (
      ap (λ p. p.items) cut,
      ap next_marker cut,
      list_loop_excludes prefix next_size [] [] (c ∷ s) (keys_after (c ∷ s) (ks ++ (c ∷ s) ∷ rest))
          tt (keys_after_excludes c s (ks ++ (c ∷ s) ∷ rest)),
    )
