-- ===== src/S3/Listing/Coverage.antt =====
-- One page of ListObjects.
use mathlib.Core.List.{reverse, reverse-cons}
use r2storage.Prelude.{
  All, Bool-cases, List, Option-cases, Text, [], ap, arith, false, inl, inr, leb, length,
  length-append, none, refl, some, some_inj, subst, sym, text_eq_iff, true, ℕ, ◌++◌, ◌∷◌, ◌≡◌, ◌≤◌,
  ◌⊎◌,
}
use r2storage.S3.Listing.{
  Item, Page, common_prefix, content, folded, is_last_prefix, keys_after, list_loop, list_objects,
  next_item,
}

length-reverse {ℓ} : {A : Type ℓ} (xs : List A) → length (reverse xs) ≡ length xs
length-reverse [] = refl
length-reverse (x ∷ xs) =
    omega
      (arith, ap length (reverse-cons x xs), length-append (reverse xs) (x ∷ []), length-reverse xs)

module _ (prefix delimiter : Text) (max_keys : ℕ) where
  length-list_loop :
      (items : List (Item Text)) (last : Text) (ks : List Text)
      → length items ≤ max_keys
      → length (list_loop prefix delimiter max_keys items last ks).items ≤ max_keys
  unfolding list_loop
  length-list_loop items last [] h = omega (arith, length-reverse items)
  length-list_loop items last (k ∷ ks) h =
      elim (Option-cases (next_item prefix delimiter k k items)) [
        | inl same ↦ rw (same, list_loop) (length-list_loop items k ks h)
        | inr (item, new) ↦ elim (Bool-cases (leb max_keys (length items))) [
          | inl full_page ↦ rw (new, full_page, list_loop) (omega (arith, length-reverse items))
          | inr room ↦
              rw (new, room, list_loop) (length-list_loop (item ∷ items) k ks (ground arith))
        ]
      ]

  -- An item stands for a key: it is the key, or the common prefix of the key.
  abbrev pub StandsFor : Text → Item Text → Type 0
  StandsFor k item =
      (item ≡ content k)
      ⊎ ((cp : Text) × (common_prefix prefix delimiter k ≡ some cp) × (item ≡ folded cp))

  abbrev pub IsListed : Text → List (Item Text) → Type 0
  IsListed k [] = ⊥
  IsListed k (i ∷ is) = StandsFor k i ⊎ IsListed k is

  IsListed-append_left :
      (k : Text) (xs ys : List (Item Text)) → IsListed k xs → IsListed k (xs ++ ys)
  IsListed-append_left k [] ys h = absurd h
  IsListed-append_left k (x ∷ xs) ys (inl h) = inl h
  IsListed-append_left k (x ∷ xs) ys (inr h) = inr (IsListed-append_left k xs ys h)

  IsListed-append_right :
      (k : Text) (xs ys : List (Item Text)) → IsListed k ys → IsListed k (xs ++ ys)
  IsListed-append_right k [] ys h = h
  IsListed-append_right k (x ∷ xs) ys h = inr (IsListed-append_right k xs ys h)

  IsListed-reverse : (k : Text) (xs : List (Item Text)) → IsListed k xs → IsListed k (reverse xs)
  IsListed-reverse k [] h = absurd h
  IsListed-reverse k (x ∷ xs) (inl here) =
      subst (IsListed k) (sym (reverse-cons x xs))
        (IsListed-append_right k (reverse xs) (x ∷ []) (inl here))
  IsListed-reverse k (x ∷ xs) (inr later) =
      subst (IsListed k) (sym (reverse-cons x xs))
        (IsListed-append_left k (reverse xs) (x ∷ []) (IsListed-reverse k xs later))

  -- What stands on the page already stays on it.
  list_loop-keeps :
      (j : Text) (items : List (Item Text)) (last : Text) (ks : List Text)
      → IsListed j items
      → IsListed j (list_loop prefix delimiter max_keys items last ks).items
  unfolding list_loop
  list_loop-keeps j items last [] h = IsListed-reverse j items h
  list_loop-keeps j items last (k ∷ ks) h =
      elim (Option-cases (next_item prefix delimiter k k items)) [
        | inl same ↦ rw (same, list_loop) (list_loop-keeps j items k ks h)
        | inr (item, new) ↦ elim (Bool-cases (leb max_keys (length items))) [
          | inl full_page ↦ rw (new, full_page, list_loop) (IsListed-reverse j items h)
          | inr room ↦ rw (new, room, list_loop) (list_loop-keeps j (item ∷ items) k ks (inr h))
        ]
      ]

  is_last_prefix-IsListed :
      (k cp : Text) (items : List (Item Text))
      → common_prefix prefix delimiter k ≡ some cp
      → is_last_prefix cp items ≡ true
      → IsListed k items
  unfolding is_last_prefix
  is_last_prefix-IsListed k cp (folded p ∷ items) e h =
      inl (inr (cp, e, ap folded ((text_eq_iff p cp).0 h)))
  is_last_prefix-IsListed k cp (content a ∷ items) e h = absurd (cc)
  is_last_prefix-IsListed k cp [] e h = absurd (cc)

  next_item-none :
      (k : Text) (items : List (Item Text))
      → next_item prefix delimiter k k items ≡ none
      → IsListed k items
  unfolding next_item
  next_item-none k items h = elim (Option-cases (common_prefix prefix delimiter k)) [
    | inl e ↦ absurd (cc (rw (e, next_item) at h))
    | inr (cp, e) ↦ elim (Bool-cases (is_last_prefix cp items)) [
      | inl same ↦ is_last_prefix-IsListed k cp items e same
      | inr other ↦ absurd (cc (rw (e, other, next_item) at h))
    ]
  ]

  next_item-some :
      (k : Text) (items : List (Item Text)) (item : Item Text)
      → next_item prefix delimiter k k items ≡ some item
      → StandsFor k item
  unfolding next_item
  next_item-some k items item h = elim (Option-cases (common_prefix prefix delimiter k)) [
    | inl e ↦ inl (sym (some_inj (rw (e, next_item) at h)))
    | inr (cp, e) ↦ elim (Bool-cases (is_last_prefix cp items)) [
      | inl same ↦ absurd (cc (rw (e, same, next_item) at h))
      | inr other ↦ inr (cp, e, sym (some_inj (rw (e, other, next_item) at h)))
    ]
  ]

  list_loop-IsListed :
      (items : List (Item Text)) (last : Text) (ks : List Text) (page : Page Text)
      → list_loop prefix delimiter max_keys items last ks ≡ page
      → page.truncated ≡ false
      → All (λ k. IsListed k page.items) ks
  unfolding list_loop
  list_loop-IsListed items last [] page e h = tt
  list_loop-IsListed items last (k ∷ ks) page e h =
      elim (Option-cases (next_item prefix delimiter k k items)) [
        | inl same ↦
            let e' = rw (same, list_loop) at e in
            (
              subst (λ p. IsListed k p.items) e'
                  (list_loop-keeps k items k ks (next_item-none k items same)),
              list_loop-IsListed items k ks page e' h,
            )
        | inr (item, new) ↦ elim (Bool-cases (leb max_keys (length items))) [
          | inl full_page ↦
              let t = ap (λ p. p.truncated) (rw (new, full_page, list_loop) at e) in absurd (cc)
          | inr room ↦
              let e' = rw (new, room, list_loop) at e in
              (
                subst (λ p. IsListed k p.items) e'
                    (list_loop-keeps k (item ∷ items) k ks (inl (next_item-some k items item new))),
                list_loop-IsListed (item ∷ items) k ks page e' h,
              )
        ]
      ]

  -- A page holds at most the asked number of items, and a page that is not marked as truncated stands
  -- for every key after the marker: each is listed itself or by its common prefix.
  pub list_objects-IsListed :
      (marker : Text) (keys : List Text)
      → let page = list_objects prefix delimiter max_keys marker keys in
        (length page.items ≤ max_keys)
        × (page.truncated ≡ false → All (λ k. IsListed k page.items) (keys_after marker keys))
  unfolding list_objects
  list_objects-IsListed marker keys = (
    length-list_loop [] [] (keys_after marker keys) (omega arith),
    list_loop-IsListed [] [] (keys_after marker keys)
        (list_objects prefix delimiter max_keys marker keys) refl,
  )
