-- ===== src/Quota/Invariant.antt =====
-- What an accepted change does to the bytes in use.
use r2storage.Prelude.{
  Bool-cases, List, Text, [], arith, false, inl, inr, ℕ, ◌+◌, ◌∷◌, ◌≡◌, ◌≤◌, ◌⊎◌,
}
use r2storage.Quota.{storage_quota, used_bytes, would_exceed, would_exceed_quota}
use r2storage.Store.{ObjectRow, World, find_object, is_object, size_of, upsert_object}

pub used_bytes-upsert_object :
    (o : ObjectRow) (rs : List ObjectRow)
    → used_bytes (upsert_object o rs) + size_of (find_object o.bucket_name o.key rs)
      ≡ used_bytes rs + o.size
unfolding used_bytes upsert_object find_object
used_bytes-upsert_object o [] = omega arith
used_bytes-upsert_object o (r ∷ rs) = elim (Bool-cases (is_object o.bucket_name o.key r)) [
  | inl e ↦ rw e (omega arith)
  | inr e ↦ rw e (omega (arith, used_bytes-upsert_object o rs))
]

pub size_of-find_object :
    (bucket k : Text) (rs : List ObjectRow) → size_of (find_object bucket k rs) ≤ used_bytes rs
unfolding used_bytes find_object
size_of-find_object bucket k [] = omega arith
size_of-find_object bucket k (r ∷ rs) = elim (Bool-cases (is_object bucket k r)) [
  | inl e ↦ rw e (omega arith)
  | inr e ↦ rw e (omega (arith, size_of-find_object bucket k rs))
]

-- The objects fit the quota, or there is none.
abbrev pub UnderQuota : ℕ → World → Type 0
UnderQuota boot_quota w =
    (storage_quota boot_quota w.storage_limit ≡ 0)
    ⊎ (used_bytes w.objects ≤ storage_quota boot_quota w.storage_limit)

fits_quota :
    (quota used added removed : ℕ)
    → would_exceed quota used added removed ≡ false
    → (quota ≡ 0) ⊎ (used + added ≤ quota + removed)
unfolding would_exceed
fits_quota quota used added removed h = ground arith

-- Storing a row that passed the quota check against what it replaces.
pub upsert_object-UnderQuota :
    (boot_quota : ℕ) (w w' : World) (o : ObjectRow)
    → would_exceed_quota boot_quota o.size (size_of (find_object o.bucket_name o.key w.objects)) w
      ≡ false
    → w'.objects ≡ upsert_object o w.objects
    → w'.storage_limit ≡ w.storage_limit
    → UnderQuota boot_quota w'
unfolding would_exceed_quota
upsert_object-UnderQuota boot_quota w w' o h eo el =
    rw (eo, el)
      (elim (fits_quota (storage_quota boot_quota w.storage_limit) _ _ _ h) [
        | inl unlimited ↦ inl unlimited
        | inr fits ↦ inr (omega (arith, used_bytes-upsert_object o w.objects, fits))
      ])
