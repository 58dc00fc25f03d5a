-- ===== src/S3/Chunked/Carried.antt =====
-- What a turn of the decoder takes from the body in the signed mode: chunks that carry signatures.
use r2storage.Prelude.{
  Bool-cases, List, Option, Option-cases, Text, [], ap, append_assoc, arith, codes, drop, false,
  inl, inr, length, length-take, ltb, none, refl, some, some_inj, starts_with, strip_prefix, suc,
  sym, take, text_eq, text_eq_iff, to_lower, trim, true, zero, ℕ, ◌&&◌, ◌++◌, ◌==◌, ◌∙◌, ◌∷◌, ◌≡◌,
}
use r2storage.S3.Chunked.{
  Decoder, Phase, Turn, begin_chunk, crlf_phase, crlf_turn, cut_at, data_phase, data_turn,
  done_phase, end_chunk, goes_on, line_signature, max_chunk_size, max_line_length, parse_hex,
  phase_turn, size_line, size_phase, size_turn, split_line, throws, trailer_line, trailer_phase,
  trailer_turn, trailer_value, turn, wait_for_line, waits,
}
use r2storage.Store.{Bytes}

cons_line :
    (c : ℕ) (s : Bytes) (line : Text) (rest : Bytes) (o : Option (Text × Bytes))
    → ((a : Text) (b : Bytes) → o ≡ some (a, b) → s ≡ a ++ 13 ∷ 10 ∷ b)
    → elim o as (λ k. Option (Text × Bytes)) [ none ↦ none | some (a, b) ↦ some (c ∷ a, b) ]
      ≡ some (line, rest)
    → c ∷ s ≡ line ++ 13 ∷ 10 ∷ rest
cons_line c s line rest none k h = absurd (cc h)
cons_line c s line rest (some (a, b)) k h =
    let same = some_inj h in ap (◌∷◌ c) (k a b refl) ∙ (λ i. (same i).0 ++ 13 ∷ 10 ∷ (same i).1)

starts_with-newline : (y : ℕ) (t : Bytes) → starts_with (10 ∷ []) (y ∷ t) ≡ true → y ≡ 10
unfolding starts_with strip_prefix
starts_with-newline y t h = elim (Bool-cases (10 == y)) [
  | inl e ↦ ground (arith, e)
  | inr e ↦ absurd (cc (rw (e, starts_with, strip_prefix) at h))
]

split_line-single : (c : ℕ) → none ≡ split_line (c ∷ [])
unfolding split_line starts_with strip_prefix
split_line-single c = elim (Bool-cases (c == 13)) [ inl e ↦ rw e refl | inr e ↦ rw e refl ]

split_line-some :
    (s : Bytes) (line : Text) (rest : Bytes)
    → split_line s ≡ some (line, rest)
    → s ≡ line ++ 13 ∷ 10 ∷ rest
unfolding split_line
split_line-some [] line rest h = absurd (cc h)
split_line-some (c ∷ []) line rest h = absurd (cc (split_line-single c, h))
split_line-some (c ∷ y ∷ t) line rest h =
    let later = λ (a : Text) (b : Bytes) (e : split_line (y ∷ t) ≡ some (a, b)).
      split_line-some (y ∷ t) a b e in
    elim (Bool-cases (c == 13)) [
      | inr e ↦ cons_line c (y ∷ t) line rest (split_line (y ∷ t)) later (rw e at h)
      | inl e ↦ elim (Bool-cases (starts_with (10 ∷ []) (y ∷ t))) [
        | inr e' ↦ cons_line c (y ∷ t) line rest (split_line (y ∷ t)) later (rw (e, e') at h)
        | inl e' ↦
            let same = some_inj (rw (e, e') at h) in
            let c13 : c ≡ 13 = ground (arith, e) in
            let y10 = starts_with-newline y t e' in
            rw (c13, y10) (λ i. (same i).0 ++ 13 ∷ 10 ∷ (same i).1)
      ]
    ]

take-drop : (n : ℕ) (s : Bytes) → take n s ++ drop n s ≡ s
take-drop zero s = refl
take-drop (suc n) [] = refl
take-drop (suc n) (c ∷ s) = ap (◌∷◌ c) (take-drop n s)

-- The bytes of a chunk: its size line, CRLF, its data, CRLF.
abbrev pub chunk_bytes : Text → Bytes → Bytes
chunk_bytes line payload = line ++ 13 ∷ 10 ∷ (payload ++ 13 ∷ 10 ∷ [])

-- A size line that announces the size and carries the signature.
abbrev pub Carries : Text → Text → ℕ → Type 0
Carries line sig n =
    (parse_hex (trim (cut_at b';' line).0) ≡ some n)
    × (line_signature (cut_at b';' line).1 ≡ some sig)
    × (text_eq sig [] ≡ false)

module _ (signature_of : Text → Bytes → Text) where
  -- The bytes are those of chunks, one after another, that carry a signature each: the one derived
  -- from the chunk's data and from the signature before it, the first of which is the seed. The last
  -- signature, and the data with the latest in front, are the other indices.
  pub data SignedBody (seed : Text) : Bytes → Text → List Bytes → Type 0 where
    seeded : SignedBody seed [] seed []
    signed_chunk :
        {body : Bytes} {previous : Text} {payloads : List Bytes} (line sig : Text) (payload : Bytes)
        → SignedBody seed body previous payloads
        → Carries line sig (length payload)
        → sig ≡ signature_of previous payload
        → SignedBody seed (body ++ chunk_bytes line payload) sig (payload ∷ payloads)

  -- What has been taken from the body since the last whole chunk.
  abbrev pub Partial : Phase → Bytes → Decoder → Type 0
  Partial size_phase gone d = gone ≡ []
  Partial data_phase gone d =
      (line : Text) × (gone ≡ line ++ 13 ∷ 10 ∷ []) × Carries line d.chunk_sig d.chunk_size
  Partial crlf_phase gone d =
      (line : Text) × (gone ≡ line ++ 13 ∷ 10 ∷ d.payload)
      × Carries line d.chunk_sig (length d.payload)
  Partial trailer_phase gone d = Unit
  Partial done_phase gone d = Unit

  abbrev pub Follows : Text → Bytes → Decoder → Type 0
  Follows seed fed d =
      (body : Bytes) × (gone : Bytes) × (fed ≡ body ++ (gone ++ d.buf))
      × SignedBody seed body d.prev_signature d.pushed
      × Partial d.phase gone d

  abbrev pub KeepsPrefix : Text → Bytes → Turn → Type 0
  KeepsPrefix seed fed waits = Unit
  KeepsPrefix seed fed (throws c) = Unit
  KeepsPrefix seed fed (goes_on d) = Follows seed fed d

  end_chunk-KeepsPrefix :
      (seed : Text) (fed body : Bytes) (d : Decoder) (line : Text)
      → fed ≡ body ++ ((line ++ 13 ∷ 10 ∷ d.payload) ++ 13 ∷ 10 ∷ d.buf)
      → SignedBody seed body d.prev_signature d.pushed
      → Carries line d.chunk_sig (length d.payload)
      → KeepsPrefix seed fed (end_chunk true signature_of d)
  unfolding end_chunk
  end_chunk-KeepsPrefix seed fed body d line f chain carried =
      elim (Bool-cases (text_eq (signature_of d.prev_signature d.payload) d.chunk_sig)) [
        | inr forged ↦ rw forged tt
        | inl genuine ↦ rw genuine (
          body ++ chunk_bytes line d.payload,
          [],
          f
              ∙ rw
                  (
                    append_assoc body (chunk_bytes line d.payload) d.buf,
                    append_assoc line (13 ∷ 10 ∷ (d.payload ++ 13 ∷ 10 ∷ [])) d.buf,
                    append_assoc d.payload (13 ∷ 10 ∷ []) d.buf,
                    append_assoc line (13 ∷ 10 ∷ d.payload) (13 ∷ 10 ∷ d.buf),
                  )
                  refl,
          signed_chunk line d.chunk_sig d.payload chain carried
              (sym ((text_eq_iff (signature_of d.prev_signature d.payload) d.chunk_sig).0 genuine)),
          refl,
        )
      ]

  size_line-KeepsPrefix :
      (seed : Text) (fed body : Bytes) (d : Decoder) (line : Text) (cut : Text × Option Text)
      → cut_at b';' line ≡ cut
      → fed ≡ body ++ ((line ++ 13 ∷ 10 ∷ []) ++ d.buf)
      → SignedBody seed body d.prev_signature d.pushed
      → KeepsPrefix seed fed (size_line true signature_of d cut)
  unfolding size_line begin_chunk
  size_line-KeepsPrefix seed fed body d line (size_hex, extension) cut f chain =
      elim (Option-cases (parse_hex (trim size_hex))) [
        | inl e ↦ rw (e, size_line) tt
        | inr (n, e) ↦ elim (Bool-cases (n == 0)) [
          | inl last ↦ rw (e, last, size_line) (body, line ++ 13 ∷ 10 ∷ [], f, chain, tt)
          | inr more ↦ elim (Bool-cases (ltb max_chunk_size n)) [
            | inl too_big ↦ rw (e, more, too_big, size_line) tt
            | inr fits ↦ elim (Option-cases (line_signature extension)) [
              | inl bad ↦ rw (e, more, fits, bad, size_line) tt
              | inr (sig, good) ↦ elim (Bool-cases (text_eq sig [])) [
                | inl missing ↦ rw (e, more, fits, good, size_line, missing) tt
                | inr present ↦
                    rw (e, more, fits, good, size_line, present)
                      (
                        body,
                        line ++ 13 ∷ 10 ∷ [],
                        f,
                        chain,
                        (
                          line,
                          refl,
                          (
                            ap (λ p. parse_hex (trim p.0)) cut ∙ e,
                            ap (λ p. line_signature p.1) cut ∙ good,
                            present,
                          ),
                        ),
                      )
              ]
            ]
          ]
        ]
      ]

  trailer_line-KeepsPrefix :
      (seed : Text) (fed body gone : Bytes) (d : Decoder) (line : Text × Option Text)
      → d.phase ≡ trailer_phase
      → fed ≡ body ++ (gone ++ d.buf)
      → SignedBody seed body d.prev_signature d.pushed
      → KeepsPrefix seed fed (trailer_line true signature_of d line)
  unfolding trailer_line trailer_value
  trailer_line-KeepsPrefix seed fed body gone d (name, none) p f chain = tt
  trailer_line-KeepsPrefix seed fed body gone d ([], some value) p f chain = tt
  trailer_line-KeepsPrefix seed fed body gone d (c ∷ name, some value) p f chain =
      elim (Bool-cases (text_eq (to_lower (trim (c ∷ name))) (codes "x-amz-checksum-crc32"))) [
        | inl named ↦ rw named (body, gone, f, chain, rw p tt)
        | inr other ↦ rw other (body, gone, f, chain, rw p tt)
      ]

  wait_for_line-KeepsPrefix :
      (seed : Text) (fed : Bytes) (d : Decoder)
      → KeepsPrefix seed fed (wait_for_line true signature_of d)
  unfolding wait_for_line
  wait_for_line-KeepsPrefix seed fed d = elim (Bool-cases (ltb max_line_length (length d.buf))) [
    | inl long ↦ rw long tt
    | inr short ↦ rw short tt
  ]

  crlf_turn-KeepsPrefix :
      (seed : Text) (fed body gone : Bytes) (d : Decoder) (s : Bytes)
      → d.buf ≡ s
      → fed ≡ body ++ (gone ++ d.buf)
      → SignedBody seed body d.prev_signature d.pushed
      → Partial crlf_phase gone d
      → KeepsPrefix seed fed (crlf_turn true signature_of d s)
  unfolding crlf_turn
  crlf_turn-KeepsPrefix seed fed body gone d [] e f chain part = tt
  crlf_turn-KeepsPrefix seed fed body gone d (x ∷ []) e f chain part = tt
  crlf_turn-KeepsPrefix seed fed body gone d (x ∷ y ∷ rest) e f chain (line, taken, carried) =
      elim (Bool-cases (x == 13 && y == 10)) [
        | inr other ↦ rw other tt
        | inl ends ↦
            let x13 : x ≡ 13 = ground (arith, ends) in
            let y10 : y ≡ 10 = ground (arith, ends) in
            let buf : d.buf ≡ 13 ∷ 10 ∷ rest = e ∙ rw (x13, y10) refl in
            rw ends (
              end_chunk-KeepsPrefix seed fed body (record d { buf = rest }) line
                (f ∙ rw (taken, buf) refl) chain carried)
      ]

  -- The front of the buffer goes.
  moved :
      (fed body gone front buf rest : Bytes)
      → fed ≡ body ++ (gone ++ buf)
      → buf ≡ front ++ rest
      → fed ≡ body ++ ((gone ++ front) ++ rest)
  moved fed body gone front buf rest f e = f ∙ rw (e, append_assoc gone front rest) refl

  line_gone : (line rest : Bytes) → line ++ 13 ∷ 10 ∷ rest ≡ (line ++ 13 ∷ 10 ∷ []) ++ rest
  line_gone line rest = sym (append_assoc line (13 ∷ 10 ∷ []) rest)

  trailer_turn-KeepsPrefix :
      (seed : Text) (fed body gone : Bytes) (d : Decoder)
      → d.phase ≡ trailer_phase
      → fed ≡ body ++ (gone ++ d.buf)
      → SignedBody seed body d.prev_signature d.pushed
      → KeepsPrefix seed fed (trailer_turn true signature_of d)
  unfolding trailer_turn
  trailer_turn-KeepsPrefix seed fed body gone d p f chain = elim (Bool-cases (length d.buf == 0)) [
    | inl empty ↦ rw empty tt
    | inr some_left ↦ elim (Bool-cases (starts_with (13 ∷ 10 ∷ []) d.buf)) [
      | inl last ↦
          rw (some_left, last)
            (
              body,
              gone ++ take 2 d.buf,
              moved fed body gone (take 2 d.buf) d.buf (drop 2 d.buf) f (sym (take-drop 2 d.buf)),
              chain,
              tt,
            )
      | inr more ↦ elim (Option-cases (split_line d.buf)) [
        | inl e ↦ rw (some_left, more, e) (wait_for_line-KeepsPrefix seed fed d)
        | inr ((line, rest), e) ↦
            rw (some_left, more, e)
              (trailer_line-KeepsPrefix seed fed body (gone ++ (line ++ 13 ∷ 10 ∷ []))
                (record d { buf = rest }) (cut_at b':' line) p
                (moved fed body gone (line ++ 13 ∷ 10 ∷ []) d.buf rest f
                  (split_line-some d.buf line rest e ∙ line_gone line rest))
                chain)
      ]
    ]
  ]

  phase_turn-KeepsPrefix :
      (seed : Text) (fed body gone : Bytes) (p : Phase) (d : Decoder)
      → d.phase ≡ p
      → fed ≡ body ++ (gone ++ d.buf)
      → SignedBody seed body d.prev_signature d.pushed
      → Partial p gone d
      → KeepsPrefix seed fed (phase_turn true signature_of p d)
  unfolding phase_turn size_turn data_turn
  phase_turn-KeepsPrefix seed fed body gone size_phase d q f chain empty =
      elim (Option-cases (split_line d.buf)) [
        | inl e ↦ rw (e, phase_turn, size_turn) (wait_for_line-KeepsPrefix seed fed d)
        | inr ((line, rest), e) ↦
            rw (e, phase_turn, size_turn)
              (size_line-KeepsPrefix seed fed body (record d { buf = rest }) line (cut_at b';' line)
                refl (f ∙ rw (empty, split_line-some d.buf line rest e, line_gone line rest) refl)
                chain)
      ]
  phase_turn-KeepsPrefix seed fed body gone data_phase d q f chain
        (line, taken, (sized, sig, given)) =
      elim (Bool-cases (ltb (length d.buf) d.chunk_size)) [
        | inl short ↦ rw short tt
        | inr all_there ↦
            let whole_size : length (take d.chunk_size d.buf) ≡ d.chunk_size =
              ground (arith, all_there, length-take d.chunk_size d.buf) in
            rw all_there (
              body,
              gone ++ take d.chunk_size d.buf,
              moved fed body gone (take d.chunk_size d.buf) d.buf (drop d.chunk_size d.buf) f
                  (sym (take-drop d.chunk_size d.buf)),
              chain,
              (
                line,
                rw taken (append_assoc line (13 ∷ 10 ∷ []) (take d.chunk_size d.buf)),
                (sized ∙ ap some (sym whole_size), sig, given),
              ),
            )
      ]
  phase_turn-KeepsPrefix seed fed body gone crlf_phase d q f chain part =
      crlf_turn-KeepsPrefix seed fed body gone d d.buf refl f chain part
  phase_turn-KeepsPrefix seed fed body gone trailer_phase d q f chain part =
      trailer_turn-KeepsPrefix seed fed body gone d q f chain
  phase_turn-KeepsPrefix seed fed body gone done_phase d q f chain part = tt

  pub turn-KeepsPrefix :
      (seed : Text) (fed : Bytes) (d : Decoder)
      → Follows seed fed d
      → KeepsPrefix seed fed (turn true signature_of d)
  unfolding turn
  turn-KeepsPrefix seed fed d (body, gone, f, chain, part) =
      phase_turn-KeepsPrefix seed fed body gone d.phase d refl f chain part
