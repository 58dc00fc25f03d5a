-- ===== src/Storage/Crc32.antt =====
-- backend/src/storage/crc32.ts. A byte is a number below 256, a checksum a number below 2^32.
use Prim.Native.Nat.{bit_and, bit_xor}
use r2storage.Prelude.{
  List, [], codes, if◌then◌else◌, refl, suc, zero, ℕ, ◌%◌, ◌/◌, ◌==◌, ◌^◌, ◌∷◌, ◌≡◌,
}

-- One round of the inner loop of `table`: `c & 1 ? 0xedb88320 ^ (c >>> 1) : c >>> 1`.
unfoldable pub table_round : ℕ → ℕ
table_round c = if c % 2 == 1 then bit_xor 0xedb88320 (c / 2) else c / 2

unfoldable pub table_rounds : ℕ → ℕ → ℕ
unfolding table_round
table_rounds zero c = c
table_rounds (suc k) c = table_rounds k (table_round c)

-- `table()[n]`
unfoldable pub table_entry : ℕ → ℕ
unfolding table_rounds
table_entry n = table_rounds 8 n

unfoldable pub update_byte : ℕ → ℕ → ℕ
unfolding table_entry
update_byte crc d = bit_xor (table_entry (bit_and (bit_xor crc d) 0xff)) (crc / 256)

-- `update`, over the bytes of a chunk, from the checksum so far.
unfoldable pub update_crc : ℕ → List ℕ → ℕ
unfolding update_byte
update_crc crc [] = crc
update_crc crc (d ∷ ds) = update_crc (update_byte crc d) ds

abbrev pub initial_crc : ℕ
initial_crc = 0xffffffff

-- The four bytes of `digest`, most significant first.
unfoldable pub crc_bytes : ℕ → List ℕ
crc_bytes crc =
    let c = bit_xor crc 0xffffffff in
    (c / 2 ^ 24) ∷ (c / 2 ^ 16 % 256) ∷ (c / 2 ^ 8 % 256) ∷ (c % 256) ∷ []

unfoldable pub crc32 : List ℕ → List ℕ
unfolding update_crc crc_bytes
crc32 bytes = crc_bytes (update_crc initial_crc bytes)

-- The check value of the standard: CRC-32 of "123456789" is 0xcbf43926.
crc32_check : crc32 (codes "123456789") ≡ 0xcb ∷ 0xf4 ∷ 0x39 ∷ 0x26 ∷ []
unfolding crc32
crc32_check = refl
