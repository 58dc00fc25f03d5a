-- ===== src/S3/Multipart/Sorting.antt =====
-- The order in which assembleUpload joins the parts.
use mathlib.Core.List.Perm as Perm
use mathlib.Core.List.{Perm}
use r2storage.Prelude.{Bool-cases, List, [], arith, inl, inr, leb, ℕ, ◌∷◌, ◌≤◌}
use r2storage.S3.Multipart.{insert_part, sort_parts}
use r2storage.Store.{PartRow}

abbrev pub Precedes : ℕ → List PartRow → Type 0
Precedes n [] = Unit
Precedes n (p ∷ ps) = n ≤ p.part_number

abbrev pub IsAscending : List PartRow → Type 0
IsAscending [] = Unit
IsAscending (p ∷ ps) = Precedes p.part_number ps × IsAscending ps

insert_part-Precedes :
    (n : ℕ) (p : PartRow) (ps : List PartRow)
    → n ≤ p.part_number
    → Precedes n ps
    → Precedes n (insert_part p ps)
unfolding insert_part
insert_part-Precedes n p [] h k = h
insert_part-Precedes n p (q ∷ qs) h k = elim (Bool-cases (leb p.part_number q.part_number)) [
  | inl first ↦ rw first h
  | inr later ↦ rw later k
]

insert_part-IsAscending :
    (p : PartRow) (ps : List PartRow) → IsAscending ps → IsAscending (insert_part p ps)
unfolding insert_part
insert_part-IsAscending p [] h = (tt, tt)
insert_part-IsAscending p (q ∷ qs) h = elim (Bool-cases (leb p.part_number q.part_number)) [
  | inl first ↦ rw first ((ground arith), h)
  | inr later ↦
      rw later (
        insert_part-Precedes q.part_number p qs (ground arith) h.0,
        insert_part-IsAscending p qs h.1,
      )
]

insert_part-Perm : (p : PartRow) (ps : List PartRow) → Perm (insert_part p ps) (p ∷ ps)
unfolding insert_part
insert_part-Perm p [] = Perm.refl (p ∷ [])
insert_part-Perm p (q ∷ qs) = elim (Bool-cases (leb p.part_number q.part_number)) [
  | inl first ↦ rw first (Perm.refl (p ∷ q ∷ qs))
  | inr later ↦ rw later (Perm.trans (Perm.cons q (insert_part-Perm p qs)) (Perm.swap p q qs))
]

sort_parts-Perm : (ps : List PartRow) → Perm (sort_parts ps) ps
unfolding sort_parts
sort_parts-Perm [] = Perm.refl []
sort_parts-Perm (p ∷ ps) =
    Perm.trans (insert_part-Perm p (sort_parts ps)) (Perm.cons p (sort_parts-Perm ps))

sort_parts-ascends : (ps : List PartRow) → IsAscending (sort_parts ps)
unfolding sort_parts
sort_parts-ascends [] = tt
sort_parts-ascends (p ∷ ps) = insert_part-IsAscending p (sort_parts ps) (sort_parts-ascends ps)

-- The parts are joined in an ascending order of their numbers, and they are the parts that were
-- selected, none of them lost or doubled.
pub sort_parts-IsAscending :
    (ps : List PartRow) → IsAscending (sort_parts ps) × Perm (sort_parts ps) ps
sort_parts-IsAscending ps = (sort_parts-ascends ps, sort_parts-Perm ps)
