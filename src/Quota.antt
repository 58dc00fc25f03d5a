-- ===== src/Quota.antt =====
-- backend/src/quota.ts. `boot_quota` is CONFIG.STORAGE_QUOTA_BYTES; 0 means no limit.
pub mod Invariant
use r2storage.Prelude.{
  Bool, List, Option, Text, [], get_or_else, ltb, none, not, parse_nat, some, ℕ, ◌&&◌, ◌+◌, ◌==◌,
  ◌∷◌,
}
use r2storage.Store.{ObjectRow, World}

-- usedStorageBytes
unfoldable pub used_bytes : List ObjectRow → ℕ
used_bytes [] = 0
used_bytes (r ∷ rs) = r.size + used_bytes rs

-- A persisted setting wins; a text that is no number from 0 on counts as 0.
unfoldable pub storage_quota : ℕ → Option Text → ℕ
storage_quota boot_quota none = boot_quota
storage_quota boot_quota (some v) = get_or_else (parse_nat v) 0

-- `used - removed + added > quota`, where the source computes with signed numbers.
unfoldable pub would_exceed : ℕ → ℕ → ℕ → ℕ → Bool
would_exceed quota used added removed = not (quota == 0) && ltb (quota + removed) (used + added)

unfoldable pub would_exceed_quota : ℕ → ℕ → ℕ → World → Bool
unfolding would_exceed
would_exceed_quota boot_quota added removed w =
    would_exceed (storage_quota boot_quota w.storage_limit) (used_bytes w.objects) added removed
