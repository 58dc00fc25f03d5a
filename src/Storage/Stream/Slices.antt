-- ===== src/Storage/Stream/Slices.antt =====
-- A slice of a stream does not depend on the pieces in which the stream comes.
use mathlib.Core.List.{flatten}
use r2storage.Prelude.{
  Bool-cases, List, [], ap, append-nil, arith, drop, false, inl, inr, leb, leb→le, length,
  length-take, ltb, ltb→lt, min, refl, suc, sym, take, take-append_length, zero, ℕ, ◌++◌, ◌+◌, ◌-◌,
  ◌<◌, ◌∙◌, ◌∷◌, ◌≡◌, ◌≤◌,
}
use r2storage.Storage.Stream.{slice_piece, slice_stream}
use r2storage.Store.{Bytes}

module _ {ℓ} {A : Type ℓ} where
  pub take-append_ge :
      (n : ℕ) (xs ys : List A) → length xs ≤ n → take n (xs ++ ys) ≡ xs ++ take (n - length xs) ys
  take-append_ge n [] ys h = ap (λ k. take k ys) (omega arith)
  take-append_ge zero (x ∷ xs) ys h = absurd (omega (arith, h))
  take-append_ge (suc n) (x ∷ xs) ys h =
      ap (◌∷◌ x)
        (take-append_ge n xs ys (omega (arith, h)) ∙ ap (λ k. xs ++ take k ys) (omega arith))

  pub take-append_le : (n : ℕ) (xs ys : List A) → n ≤ length xs → take n (xs ++ ys) ≡ take n xs
  take-append_le zero xs ys h = refl
  take-append_le (suc n) [] ys h = absurd (omega (arith, h))
  take-append_le (suc n) (x ∷ xs) ys h = ap (◌∷◌ x) (take-append_le n xs ys (omega (arith, h)))

  pub drop-append_ge :
      (n : ℕ) (xs ys : List A) → length xs ≤ n → drop n (xs ++ ys) ≡ drop (n - length xs) ys
  drop-append_ge n [] ys h = ap (λ k. drop k ys) (omega arith)
  drop-append_ge zero (x ∷ xs) ys h = absurd (omega (arith, h))
  drop-append_ge (suc n) (x ∷ xs) ys h =
      drop-append_ge n xs ys (omega (arith, h)) ∙ ap (λ k. drop k ys) (omega arith)

  pub drop-append_le :
      (n : ℕ) (xs ys : List A) → n ≤ length xs → drop n (xs ++ ys) ≡ drop n xs ++ ys
  drop-append_le zero xs ys h = refl
  drop-append_le (suc n) [] ys h = absurd (omega (arith, h))
  drop-append_le (suc n) (x ∷ xs) ys h = drop-append_le n xs ys (omega (arith, h))

  drop-nil : (n : ℕ) → drop {A = A} n [] ≡ []
  drop-nil zero = refl
  drop-nil (suc n) = refl

  drop-all : (n : ℕ) (xs : List A) → length xs ≤ n → drop n xs ≡ []
  drop-all n [] h = drop-nil n
  drop-all zero (x ∷ xs) h = absurd (omega (arith, h))
  drop-all (suc n) (x ∷ xs) h = drop-all n xs (omega (arith, h))

slice_piece-drop :
    (start end place : ℕ) (c : Bytes)
    → slice_piece start end place c
      ≡ drop (start - place) (take (min (length c) (end + 1 - place)) c)
unfolding slice_piece
slice_piece-drop start end place c =
    elim (Bool-cases (ltb (start - place) (min (length c) (end + 1 - place)))) [
      | inl e ↦ rw e refl
      | inr e ↦ rw e (
          sym (
            drop-all (start - place) (take (min (length c) (end + 1 - place)) c)
              (ground (arith, e, length-take (min (length c) (end + 1 - place)) c))))
    ]

leb-false : {a b : ℕ} → leb a b ≡ false → b < a
leb-false {a} {b} h = ground arith

take-nil : (n : ℕ) → take {A = ℕ} n [] ≡ []
take-nil zero = refl
take-nil (suc n) = refl

drop-take : (n m : ℕ) (x : Bytes) → drop n (take (m + n) x) ≡ take m (drop n x)
drop-take zero m x = ap (λ k. take k x) (omega arith)
drop-take (suc n) m [] =
    drop-all (suc n) (take (m + suc n) []) (omega (arith, length-take {A = ℕ} (m + suc n) []))
    ∙ sym (take-nil m)
drop-take (suc n) m (b ∷ x) =
    let shifted : m + suc n ≡ suc (m + n) = omega arith in
    ap (λ k. drop (suc n) (take k (b ∷ x))) shifted ∙ drop-take n m x

take-whole : (c : Bytes) → take (length c) c ≡ c
take-whole c = ap (take (length c)) (sym (append-nil c)) ∙ take-append_length c []

-- The window of a byte string from `start` to `end`, seen from a place in the stream.
abbrev window : ℕ → ℕ → ℕ → Bytes → Bytes
window start end place x = drop (start - place) (take (end + 1 - place) x)

window-before :
    (start end place : ℕ) (c x : Bytes)
    → start ≤ end
    → place + length c ≤ start
    → window start end (place + length c) x ≡ window start end place (c ++ x)
window-before start end place c x h early =
    let moved : start - (place + length c) ≡ start - place - length c = omega arith in
    let left : end + 1 - (place + length c) ≡ end + 1 - place - length c = omega arith in
    ap (λ n. drop n (take (end + 1 - (place + length c)) x)) moved
    ∙ ap (λ m. drop (start - place - length c) (take m x)) left
    ∙ sym (
        drop-append_ge (start - place) c (take (end + 1 - place - length c) x)
          (omega (arith, early)))
    ∙ ap (drop (start - place))
        (sym (take-append_ge (end + 1 - place) c x (omega (arith, h, early))))

window-after : (start end place : ℕ) (x : Bytes) → end < place → window start end place x ≡ []
window-after start end place x past =
    let none_left : end + 1 - place ≡ 0 = omega (arith, past) in
    ap (λ m. drop (start - place) (take m x)) none_left ∙ drop-nil (start - place)

window-last :
    (start end place : ℕ) (c x : Bytes)
    → end + 1 ≤ place + min (length c) (end + 1 - place)
    → slice_piece start end place c ≡ window start end place (c ++ x)
window-last start end place c x last =
    let short : end + 1 - place ≤ length c = omega (arith, last) in
    let same : min (length c) (end + 1 - place) ≡ end + 1 - place = omega (arith, last) in
    slice_piece-drop start end place c
    ∙ ap (λ m. drop (start - place) (take m c)) same
    ∙ ap (drop (start - place)) (sym (take-append_le (end + 1 - place) c x short))

window-inside :
    (start end place : ℕ) (c x : Bytes)
    → start < place + length c
    → place + min (length c) (end + 1 - place) < end + 1
    → slice_piece start end place c ++ window start end (place + length c) x
      ≡ window start end place (c ++ x)
window-inside start end place c x here more =
    let long : length c ≤ end + 1 - place = omega (arith, more) in
    let same : min (length c) (end + 1 - place) ≡ length c = omega (arith, more) in
    let begun : start - (place + length c) ≡ 0 = omega (arith, here) in
    let left : end + 1 - (place + length c) ≡ end + 1 - place - length c = omega arith in
    let piece : slice_piece start end place c ≡ drop (start - place) c =
      slice_piece-drop start end place c
      ∙ ap (λ m. drop (start - place) (take m c)) same
      ∙ ap (drop (start - place)) (take-whole c) in
    let rest : window start end (place + length c) x ≡ take (end + 1 - place - length c) x =
      ap (λ n. drop n (take (end + 1 - (place + length c)) x)) begun ∙ ap (λ m. take m x) left in
    ap (λ p. p ++ window start end (place + length c) x) piece
    ∙ ap (λ r. drop (start - place) c ++ r) rest
    ∙ sym (
        drop-append_le (start - place) c (take (end + 1 - place - length c) x)
          (omega (arith, here)))
    ∙ ap (drop (start - place)) (sym (take-append_ge (end + 1 - place) c x long))

slice_stream-window :
    (start end place : ℕ) (cs : List Bytes)
    → start ≤ end
    → slice_stream start end place cs ≡ window start end place (flatten cs)
unfolding slice_stream flatten
slice_stream-window start end place [] h = sym (
    drop-all (start - place) (take (end + 1 - place) [])
      (omega (arith, length-take {A = ℕ} (end + 1 - place) [])))
slice_stream-window start end place (c ∷ cs) h =
    let rest = slice_stream-window start end (place + length c) cs h in
    elim (Bool-cases (leb (place + length c) start)) [
      | inl early ↦ rw early (
          rest
          ∙ window-before start end place c (flatten cs) h (leb→le (place + length c) start early))
      | inr here ↦ elim (Bool-cases (ltb end place)) [
        | inl past ↦
            rw (here, past)
              (sym (window-after start end place (flatten (c ∷ cs)) (ltb→lt end place past)))
        | inr within ↦
            elim (Bool-cases (leb (end + 1) (place + min (length c) (end + 1 - place)))) [
              | inl last ↦
                  rw (here, within, last)
                    (window-last start end place c (flatten cs) (leb→le _ _ last))
              | inr more ↦
                  rw (here, within, more)
                    (ap (λ r. slice_piece start end place c ++ r) rest
                      ∙ window-inside start end place c (flatten cs) (leb-false here)
                          (leb-false more))
            ]
      ]
    ]

-- Whatever the pieces in which a stream comes, the slice from `start` to `end` inclusive is exactly
-- those positions of the whole stream's bytes.
pub slice_stream-take :
    (start end : ℕ) (cs : List Bytes)
    → start ≤ end
    → slice_stream start end 0 cs ≡ take (end - start + 1) (drop start (flatten cs))
slice_stream-take start end cs h =
    let size : end + 1 - 0 ≡ end - start + 1 + start = omega (arith, h) in
    slice_stream-window start end 0 cs h
    ∙ ap (λ n. drop (start - 0) (take n (flatten cs))) size
    ∙ ap (λ n. drop n (take (end - start + 1 + start) (flatten cs))) (omega arith)
    ∙ drop-take start (end - start + 1) (flatten cs)
