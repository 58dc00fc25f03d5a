-- ===== src/S3/Multipart/Complete.antt =====
-- CompleteMultipartUpload: the assembled object and the quota.
use r2storage.Prelude.{
  All, Bool-cases, List, Option, Option-cases, Text, [], ap, arith, drop, false, get_elem?,
  get_or_else, inl, inr, leb, length, length-append, none, refl, some, some_inj, subst, sym,
  text_eq, ℕ, ◌+◌, ◌∙◌, ◌∷◌, ◌≡◌,
}
use r2storage.Quota.{would_exceed_quota}
use r2storage.Quota.Invariant.{UnderQuota, upsert_object-UnderQuota}
use r2storage.Range.Preconditions.{check_write_preconditions, header}
use r2storage.S3.{Request}
use r2storage.S3.Multipart.{
  XmlRead, assemble_upload, complete_body, complete_parts, complete_row, complete_selected,
  complete_upload, drop_upload, finish_complete, insert_part, join_parts, part_list, select_parts,
  sort_parts, too_large, unreadable,
}
use r2storage.S3.Put.{precondition_error, version_of}
use r2storage.Storage.Engine.{Platform, file_path, read_buffer, save_object, saved_at}
use r2storage.Store.{
  Bytes, PartRow, UploadRow, World, find_object, find_part, find_upload, is_part, parts_size,
  size_of, upsert_object,
}

module _ (pf : Platform) where
  -- Each part row has the size of the plaintext that its file holds.
  abbrev pub PartsMatch : World → List PartRow → Type 0
  PartsMatch w =
      All (λ p. (b : Bytes) → read_buffer pf p.storage_path w ≡ some b → length b ≡ p.size)

parts_size-insert_part :
    (p : PartRow) (ps : List PartRow) → parts_size (insert_part p ps) ≡ p.size + parts_size ps
unfolding parts_size insert_part
parts_size-insert_part p [] = refl
parts_size-insert_part p (q ∷ qs) = elim (Bool-cases (leb p.part_number q.part_number)) [
  | inl e ↦ rw e refl
  | inr e ↦ rw e (omega (arith, parts_size-insert_part p qs))
]

parts_size-sort_parts : (ps : List PartRow) → parts_size (sort_parts ps) ≡ parts_size ps
unfolding parts_size sort_parts
parts_size-sort_parts [] = refl
parts_size-sort_parts (p ∷ ps) =
    parts_size-insert_part p (sort_parts ps) ∙ ap (λ n. p.size + n) (parts_size-sort_parts ps)

module _ {ℓ} (P : PartRow → Type ℓ) where
  All-insert_part : (p : PartRow) (ps : List PartRow) → P p → All P ps → All P (insert_part p ps)
  unfolding insert_part
  All-insert_part p [] h a = (h, tt)
  All-insert_part p (q ∷ qs) h a = elim (Bool-cases (leb p.part_number q.part_number)) [
    | inl e ↦ rw e (h, a)
    | inr e ↦ rw e (a.0, All-insert_part p qs h a.1)
  ]

  All-sort_parts : (ps : List PartRow) → All P ps → All P (sort_parts ps)
  unfolding sort_parts
  All-sort_parts [] a = tt
  All-sort_parts (p ∷ ps) a = All-insert_part p (sort_parts ps) a.0 (All-sort_parts ps a.1)

  All-find_part :
      (id : Text) (n : ℕ) (ps : List PartRow) (p : PartRow)
      → find_part id n ps ≡ some p
      → All P ps
      → P p
  unfolding find_part
  All-find_part id n [] p e a = absurd (cc)
  All-find_part id n (q ∷ qs) p e a = elim (Bool-cases (is_part id n q)) [
    | inl hit ↦ subst P (some_inj (rw (hit, find_part) at e)) a.0
    | inr miss ↦ All-find_part id n qs p (rw (miss, find_part) at e) a.1
  ]

  -- The selected parts are among the stored ones.
  All-select_parts :
      (id : Text) (stored : List PartRow) (ns : List ℕ) (etags : List Text) (ps : List PartRow)
      → select_parts id stored ns etags ≡ some ps
      → All P stored
      → All P ps
  unfolding select_parts
  All-select_parts id stored [] etags ps e a = subst (All P) (some_inj e) tt
  All-select_parts id stored (n ∷ ns) etags ps e a = elim (Option-cases (find_part id n stored)) [
    | inl gone ↦ absurd (cc (rw (gone, select_parts) at e))
    | inr (p, found) ↦ elim (Bool-cases (text_eq p.etag (get_or_else (get_elem? etags 0) []))) [
      | inr bad ↦ absurd (cc (rw (found, bad, select_parts) at e))
      | inl same ↦ elim (Option-cases (select_parts id stored ns (drop 1 etags))) [
        | inl none_left ↦ absurd (cc (rw (found, same, none_left, select_parts) at e))
        | inr (rest, later) ↦
            subst (All P) (some_inj (rw (found, same, later, select_parts) at e)) (
              All-find_part id n stored p found a,
              All-select_parts id stored ns (drop 1 etags) rest later a,
            )
      ]
    ]
  ]

module _ (pf : Platform) (boot_quota : ℕ) where
  length-join_parts :
      (ps : List PartRow) (w : World) (bytes : Bytes)
      → PartsMatch pf w ps
      → join_parts pf boot_quota ps w ≡ some bytes
      → length bytes ≡ parts_size ps
  unfolding join_parts parts_size
  length-join_parts [] w bytes m e = ap length (sym (some_inj e))
  length-join_parts (p ∷ ps) w bytes m e = elim (Option-cases (read_buffer pf p.storage_path w)) [
    | inl gone ↦ absurd (cc (rw (gone, join_parts) at e))
    | inr (b, found) ↦ elim (Option-cases (join_parts pf boot_quota ps w)) [
      | inl gone ↦ absurd (cc (rw (found, gone, join_parts) at e))
      | inr (bs, later) ↦
          ap length (sym (some_inj (rw (found, later, join_parts) at e)))
          ∙ length-append b bs
          ∙ omega (arith, m.0 b found, length-join_parts ps w bs m.1 later)
    ]
  ]

  module _ (now : ℕ) (iv : Bytes) (r : Request) (w : World) where
    finish_complete-UnderQuota :
        (upload : UploadRow) (parts : List PartRow)
        → PartsMatch pf w parts
        → would_exceed_quota boot_quota
            (parts_size parts)
            (size_of (find_object r.bucket_name r.key w.objects))
            w
          ≡ false
        → UnderQuota boot_quota w
        → UnderQuota boot_quota
            (finish_complete pf boot_quota now r upload
              (assemble_upload pf boot_quota r.bucket_name r.key iv parts w)
              w).0
    unfolding finish_complete assemble_upload drop_upload save_object saved_at complete_row
    finish_complete-UnderQuota upload parts m h u =
        elim (Option-cases (join_parts pf boot_quota (sort_parts parts) w)) [
          | inl gone ↦ rw (gone, assemble_upload) u
          | inr (bytes, e) ↦
              let row =
                complete_row pf boot_quota now r upload
                  (saved_at pf (file_path pf r.bucket_name r.key) bytes) in
              let size_eq : length bytes ≡ parts_size parts =
                length-join_parts (sort_parts parts) w bytes (All-sort_parts _ parts m) e
                ∙ parts_size-sort_parts parts in
              rw (e, assemble_upload)
                (upsert_object-UnderQuota boot_quota w
                  (record w { objects = upsert_object row w.objects }) row
                  (subst
                    (λ n.
                      would_exceed_quota boot_quota n
                        (size_of (find_object r.bucket_name r.key w.objects)) w
                      ≡ false)
                    (sym size_eq) h)
                  refl refl)
        ]

    complete_parts-UnderQuota :
        (upload : UploadRow) (parts : List PartRow)
        → PartsMatch pf w parts
        → UnderQuota boot_quota w
        → UnderQuota boot_quota (complete_parts pf boot_quota now iv r upload parts w).0
    unfolding complete_parts
    complete_parts-UnderQuota upload parts m u =
        elim (Option-cases (
          precondition_error (
            check_write_preconditions pf.date_parse r.headers
              (version_of (find_object r.bucket_name r.key w.objects))))) [
                | inr (e, bad) ↦ rw (bad, complete_parts) u
                | inl good ↦
                    elim (Bool-cases (
                      would_exceed_quota boot_quota (parts_size parts)
                        (size_of (find_object r.bucket_name r.key w.objects)) w)) [
                          | inl over ↦ rw (good, over, complete_parts) u
                          | inr fits ↦
                              rw (good, fits, complete_parts)
                                (finish_complete-UnderQuota upload parts m fits u)
                        ]
              ]

    complete_selected-UnderQuota :
        (upload : UploadRow) (parts : Option (List PartRow))
        → ((ps : List PartRow) → parts ≡ some ps → PartsMatch pf w ps)
        → UnderQuota boot_quota w
        → UnderQuota boot_quota (complete_selected pf boot_quota now iv r upload parts w).0
    unfolding complete_selected
    complete_selected-UnderQuota upload none m u = u
    complete_selected-UnderQuota upload (some []) m u = u
    complete_selected-UnderQuota upload (some (p ∷ ps)) m u =
        complete_parts-UnderQuota upload (p ∷ ps) (m (p ∷ ps) refl) u

    -- CompleteMultipartUpload keeps the stored bytes within the quota, if the part rows have the sizes
    -- of their files: it is charged for the sum of the rows' sizes before it reads the files.
    pub complete_upload-UnderQuota :
        (xml : XmlRead)
        → PartsMatch pf w w.parts
        → UnderQuota boot_quota w
        → UnderQuota boot_quota (complete_upload pf boot_quota now iv r xml w).0
    unfolding complete_upload complete_body
    complete_upload-UnderQuota xml m u = elim (Option-cases (header r.query "uploadId")) [
      | inl absent ↦ rw (absent, complete_upload) u
      | inr (id, given) ↦ elim (Option-cases (find_upload id w.uploads)) [
        | inl unknown ↦ rw (given, unknown, complete_upload) u
        | inr (upload, found) ↦ rw (given, found, complete_upload) (body-UnderQuota upload xml)
      ]
    ]
      where
        body-UnderQuota :
            (upload : UploadRow) (x : XmlRead)
            → UnderQuota boot_quota (complete_body pf boot_quota now iv r upload x w).0
        body-UnderQuota upload too_large = u
        body-UnderQuota upload unreadable = u
        body-UnderQuota upload (part_list ns etags) =
            complete_selected-UnderQuota upload (select_parts upload.upload_id w.parts ns etags)
              (λ ps e. All-select_parts _ upload.upload_id w.parts ns etags ps e m) u
