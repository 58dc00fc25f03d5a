-- ===== src/Auth/S3Auth/RoundTrip/Split.antt =====
-- Splitting a text that was joined from words without the separator, and the words that
-- `encodeURIComponent` gives.
use r2storage.Auth.S3Auth.Presign.{escape_mark, escape_marks, uri_encode}
use r2storage.Auth.S3Auth.RoundTrip.{UriEncoder, is_encoded}
use r2storage.Prelude.{
  ==_iff, All, Bool, Bool-cases, List, Text, [], all, any, ap, append_assoc, false, inl, inr,
  is_digit, join, refl, some, split, split_push, subst, sym, true, ℕ, ◌++◌, ◌==◌, ◌∙◌, ◌∷◌, ◌≡◌,
}
use r2storage.S3.Chunked.{cut_at}

==_refl : (n : ℕ) → (n == n) ≡ true
==_refl n = (==_iff n n).1 refl

pub split-append :
    (sep : ℕ) (a b : Text)
    → any (λ c. c == sep) a ≡ false
    → split sep (a ++ (sep ∷ b)) ≡ a ∷ split sep b
unfolding split split_push
split-append sep [] b h = rw (==_refl sep) refl
split-append sep (c ∷ a) b h = elim (Bool-cases (c == sep)) [
  | inl e ↦ absurd (cc (rw e at h))
  | inr e ↦ rw (e, split-append sep a b (rw e at h)) refl
]

pub split-whole : (sep : ℕ) (a : Text) → any (λ c. c == sep) a ≡ false → split sep a ≡ a ∷ []
unfolding split split_push
split-whole sep [] h = refl
split-whole sep (c ∷ a) h = elim (Bool-cases (c == sep)) [
  | inl e ↦ absurd (cc (rw e at h))
  | inr e ↦ rw (e, split-whole sep a (rw e at h)) refl
]

pub cut_at-append :
    (sep : ℕ) (a b : Text)
    → any (λ c. c == sep) a ≡ false
    → cut_at sep (a ++ (sep ∷ b)) ≡ (a, some b)
unfolding cut_at
cut_at-append sep [] b h = rw (==_refl sep) refl
cut_at-append sep (c ∷ a) b h = elim (Bool-cases (c == sep)) [
  | inl e ↦ absurd (cc (rw e at h))
  | inr e ↦ rw (e, cut_at-append sep a b (rw e at h)) refl
]

pub any-append {ℓ} :
    {A : Type ℓ} (p : A → Bool) (a b : List A)
    → any p a ≡ false
    → any p b ≡ false
    → any p (a ++ b) ≡ false
any-append p [] b h h' = h'
any-append p (x ∷ a) b h h' = elim (Bool-cases (p x)) [
  | inl e ↦ absurd (cc (rw e at h))
  | inr e ↦ rw e (any-append p a b (rw e at h) h')
]

pub all-append {ℓ} :
    {A : Type ℓ} (p : A → Bool) (a b : List A)
    → all p a ≡ true
    → all p b ≡ true
    → all p (a ++ b) ≡ true
all-append p [] b h h' = h'
all-append p (x ∷ a) b h h' = elim (Bool-cases (p x)) [
  | inl e ↦ rw e (all-append p a b (rw e at h) h')
  | inr e ↦ absurd (cc (rw e at h))
]

all-lacks :
    (p : ℕ → Bool) (sep : ℕ) (t : Text)
    → p sep ≡ false
    → all p t ≡ true
    → any (λ c. c == sep) t ≡ false
all-lacks p sep [] h h' = refl
all-lacks p sep (c ∷ t) h h' = elim (Bool-cases (c == sep)) [
  | inl e ↦ let same : p c ≡ false = ap p ((==_iff c sep).0 e) ∙ h in absurd (cc (rw same at h'))
  | inr e ↦ elim (Bool-cases (p c)) [
    | inl good ↦ rw e (all-lacks p sep t h (rw good at h'))
    | inr bad ↦ absurd (cc (rw bad at h'))
  ]
]

at_literal : (P : ℕ → Type 0) (c k : ℕ) → (c == k) ≡ true → P k → P c
at_literal P c k h x = subst P (sym ((==_iff c k).0 h)) x

escape_mark-encoded : (c : ℕ) → is_encoded c ≡ true → all is_encoded (escape_mark c) ≡ true
unfolding escape_mark is_digit
escape_mark-encoded c h = elim (Bool-cases (c == b'!')) [
  | inl e ↦ at_literal (λ x. all is_encoded (escape_mark x) ≡ true) c b'!' e refl
  | inr e1 ↦ elim (Bool-cases (c == 39)) [
    | inl e ↦ at_literal (λ x. all is_encoded (escape_mark x) ≡ true) c 39 e refl
    | inr e2 ↦ elim (Bool-cases (c == b'(')) [
      | inl e ↦ at_literal (λ x. all is_encoded (escape_mark x) ≡ true) c b'(' e refl
      | inr e3 ↦ elim (Bool-cases (c == b')')) [
        | inl e ↦ at_literal (λ x. all is_encoded (escape_mark x) ≡ true) c b')' e refl
        | inr e4 ↦ elim (Bool-cases (c == b'*')) [
          | inl e ↦ at_literal (λ x. all is_encoded (escape_mark x) ≡ true) c b'*' e refl
          | inr e5 ↦ rw (e1, e2, e3, e4, e5, escape_mark, h) refl
        ]
      ]
    ]
  ]
]

escape_marks-encoded : (t : Text) → all is_encoded t ≡ true → all is_encoded (escape_marks t) ≡ true
unfolding escape_marks
escape_marks-encoded [] h = refl
escape_marks-encoded (c ∷ t) h = elim (Bool-cases (is_encoded c)) [
  | inr e ↦ absurd (cc (rw e at h))
  | inl e ↦
      all-append is_encoded (escape_mark c) (escape_marks t) (escape_mark-encoded c e)
        (escape_marks-encoded t (rw e at h))
]

pub uri_encode-lacks :
    (enc : UriEncoder) (sep : ℕ) (t : Text)
    → is_encoded sep ≡ false
    → any (λ c. c == sep) (uri_encode enc.encode t) ≡ false
unfolding uri_encode
uri_encode-lacks enc sep t h =
    all-lacks is_encoded sep (escape_marks (enc.encode t)) h
      (escape_marks-encoded (enc.encode t) (enc.gives t))

pub split-join :
    (sep : ℕ) (w : Text) (ws : List Text)
    → All (λ v. any (λ c. c == sep) v ≡ false) (w ∷ ws)
    → split sep (join sep (w ∷ ws)) ≡ w ∷ ws
unfolding join
split-join sep w [] (h, hs) = split-whole sep w h
split-join sep w (v ∷ ws) (h, hs) =
    split-append sep w (join sep (v ∷ ws)) h ∙ ap (◌∷◌ w) (split-join sep v ws hs)

pub join-snoc :
    (sep : ℕ) (w v : Text) (ws : List Text)
    → join sep (w ∷ ws) ++ (sep ∷ v) ≡ join sep ((w ∷ ws) ++ (v ∷ []))
unfolding join
join-snoc sep w v [] = refl
join-snoc sep w v (u ∷ ws) =
    append_assoc w (sep ∷ join sep (u ∷ ws)) (sep ∷ v)
    ∙ ap (λ t. w ++ (sep ∷ t)) (join-snoc sep u v ws)

pub join-lacks :
    (sep c : ℕ) (ws : List Text)
    → (sep == c) ≡ false
    → All (λ v. any (λ x. x == c) v ≡ false) ws
    → any (λ x. x == c) (join sep ws) ≡ false
unfolding join
join-lacks sep c [] h hs = refl
join-lacks sep c (w ∷ []) h hs = hs.0
join-lacks sep c (w ∷ v ∷ ws) h hs =
    any-append (λ x. x == c) w (sep ∷ join sep (v ∷ ws)) hs.0
      (rw h (join-lacks sep c (v ∷ ws) h hs.1))
