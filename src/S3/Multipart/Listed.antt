-- ===== src/S3/Multipart/Listed.antt =====
-- The parts that a completion lists, and the bytes that they hold.
use r2storage.Prelude.{
  Bool-cases, List, Option-cases, Text, [], inl, inr, some, some_inj, subst, text_eq, text_eq_iff,
  ℕ, ◌++◌, ◌∷◌, ◌≡◌,
}
use r2storage.S3.Multipart.{join_parts, select_parts}
use r2storage.Storage.Engine.{Platform, read_buffer}
use r2storage.Store.{Bytes, PartRow, UploadRow, World, find_part, find_upload}

-- The parts stand for the numbers of the request, one by one: each is the stored part of the upload
-- under its number, and its ETag is the one that the request lists at its place.
pub data IsSelection (id : Text) (stored : List PartRow)
    : List ℕ → List Text → List PartRow → Type 0 where
  all_listed : {etags : List Text} → IsSelection id stored [] etags []
  stored_part :
      {n : ℕ} {ns : List ℕ} {etag : Text} {etags : List Text} {p : PartRow} {ps : List PartRow}
      → find_part id n stored ≡ some p
      → p.etag ≡ etag
      → IsSelection id stored ns etags ps
      → IsSelection id stored (n ∷ ns) (etag ∷ etags) (p ∷ ps)
  stored_blank :
      {n : ℕ} {ns : List ℕ} {p : PartRow} {ps : List PartRow}
      → find_part id n stored ≡ some p
      → p.etag ≡ []
      → IsSelection id stored ns [] ps
      → IsSelection id stored (n ∷ ns) [] (p ∷ ps)

pub select_parts-IsSelection :
    (id : Text) (stored : List PartRow) (ns : List ℕ) (etags : List Text) (ps : List PartRow)
    → select_parts id stored ns etags ≡ some ps
    → IsSelection id stored ns etags ps
unfolding select_parts
select_parts-IsSelection id stored [] etags ps h =
    subst (IsSelection id stored [] etags) (some_inj h) all_listed
select_parts-IsSelection id stored (n ∷ ns) [] ps h = elim (Option-cases (find_part id n stored)) [
  | inl gone ↦ absurd (cc (rw (gone, select_parts) at h))
  | inr (p, found) ↦ elim (Bool-cases (text_eq p.etag [])) [
    | inr bad ↦ absurd (cc (rw (found, bad, select_parts) at h))
    | inl same ↦ elim (Option-cases (select_parts id stored ns [])) [
      | inl lost ↦ absurd (cc (rw (found, same, lost, select_parts) at h))
      | inr (rest, later) ↦
          subst (IsSelection id stored (n ∷ ns) [])
            (some_inj (rw (found, same, later, select_parts) at h))
            (stored_blank found ((text_eq_iff p.etag []).0 same)
              (select_parts-IsSelection id stored ns [] rest later))
    ]
  ]
]
select_parts-IsSelection id stored (n ∷ ns) (etag ∷ etags) ps h =
    elim (Option-cases (find_part id n stored)) [
      | inl gone ↦ absurd (cc (rw (gone, select_parts) at h))
      | inr (p, found) ↦ elim (Bool-cases (text_eq p.etag etag)) [
        | inr bad ↦ absurd (cc (rw (found, bad, select_parts) at h))
        | inl same ↦ elim (Option-cases (select_parts id stored ns etags)) [
          | inl lost ↦ absurd (cc (rw (found, same, lost, select_parts) at h))
          | inr (rest, later) ↦
              subst (IsSelection id stored (n ∷ ns) (etag ∷ etags))
                (some_inj (rw (found, same, later, select_parts) at h))
                (stored_part found ((text_eq_iff p.etag etag).0 same)
                  (select_parts-IsSelection id stored ns etags rest later))
        ]
      ]
    ]

-- The bytes are the plaintexts of the parts' files, one after another.
pub data IsConcat (pf : Platform) (w : World) : List PartRow → Bytes → Type 0 where
  no_parts : IsConcat pf w [] []
  part_then :
      {p : PartRow} {ps : List PartRow} {plain rest : Bytes}
      → read_buffer pf p.storage_path w ≡ some plain
      → IsConcat pf w ps rest
      → IsConcat pf w (p ∷ ps) (plain ++ rest)

pub join_parts-IsConcat :
    (pf : Platform) (boot_quota : ℕ) (w : World) (ps : List PartRow) (bytes : Bytes)
    → join_parts pf boot_quota ps w ≡ some bytes
    → IsConcat pf w ps bytes
unfolding join_parts
join_parts-IsConcat pf boot_quota w [] bytes h = subst (IsConcat pf w []) (some_inj h) no_parts
join_parts-IsConcat pf boot_quota w (p ∷ ps) bytes h =
    elim (Option-cases (read_buffer pf p.storage_path w)) [
      | inl gone ↦ absurd (cc (rw (gone, join_parts) at h))
      | inr (plain, found) ↦ elim (Option-cases (join_parts pf boot_quota ps w)) [
        | inl lost ↦ absurd (cc (rw (found, lost, join_parts) at h))
        | inr (rest, later) ↦
            subst (IsConcat pf w (p ∷ ps)) (some_inj (rw (found, later, join_parts) at h))
              (part_then found (join_parts-IsConcat pf boot_quota w ps rest later))
      ]
    ]

pub find_upload-id :
    (id : Text) (us : List UploadRow) (u : UploadRow)
    → find_upload id us ≡ some u
    → u.upload_id ≡ id
unfolding find_upload
find_upload-id id [] u h = absurd (cc h)
find_upload-id id (v ∷ us) u h = elim (Bool-cases (text_eq v.upload_id id)) [
  | inl e ↦ subst (λ x. x.upload_id ≡ id) (some_inj (rw e at h)) ((text_eq_iff v.upload_id id).0 e)
  | inr e ↦ find_upload-id id us u (rw e at h)
]
