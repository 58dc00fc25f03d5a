-- ===== src/Storage/Blob.antt =====
-- backend/src/storage/crypto.ts: the layout of a blob on disk. AES-256-GCM is a parameter: `seal`
-- gives the ciphertext and the tag of 16 bytes, `open_sealed` the plaintext or a failure.
pub mod RoundTrip
use r2storage.Prelude.{
  Bool, Option, codes, drop, if◌then◌else◌, is_some, leb, length, ltb, none, some, take, text_eq, ℕ,
  ◌&&◌, ◌++◌, ◌+◌, ◌-◌, ◌≡◌,
}
use r2storage.Store.{Bytes}

abbrev pub enc_magic : Bytes
enc_magic = codes "r2enc1"

abbrev pub iv_len : ℕ
iv_len = 12

abbrev pub tag_len : ℕ
tag_len = 16

abbrev pub header_len : ℕ
header_len = 18

pub record Gcm : Type 0 where
  pub seal : Bytes → Bytes → Bytes → Bytes × Bytes
  pub open_sealed : Bytes → Bytes → Bytes → Bytes → Option Bytes

-- What the Node documentation says of AES-256-GCM: a tag has 16 bytes, and what was sealed opens.
pub record GcmLaws (g : Gcm) : Type 0 where
  pub tag_length : (k iv b : Bytes) → length (g.seal k iv b).1 ≡ tag_len
  pub opens : (k iv b : Bytes) → g.open_sealed k iv (g.seal k iv b).0 (g.seal k iv b).1 ≡ some b

-- isEncrypted
unfoldable pub is_encrypted : Bytes → Bool
is_encrypted buf =
    leb (header_len + tag_len) (length buf) && text_eq (take (length enc_magic) buf) enc_magic

-- The test of openEncryptedRead: the magic and the IV are there, and no room for a tag after them.
unfoldable pub is_truncated : Bytes → Bool
is_truncated buf =
    leb header_len (length buf)
    && text_eq (take (length enc_magic) buf) enc_magic
    && ltb (length buf) (header_len + tag_len)

-- Whether opening a blob as a stream throws; without a key every blob is streamed as it is.
unfoldable pub refuses_blob : Option Bytes → Bytes → Bool
unfolding is_truncated
refuses_blob enc_key buf = is_some enc_key && is_truncated buf

module _ (g : Gcm) (enc_key : Option Bytes) where
  -- maybeEncryptBuffer, and what EncryptedWrite leaves in a file, with the random IV given.
  unfoldable pub maybe_encrypt : Bytes → Bytes → Bytes
  maybe_encrypt iv buf = elim enc_key [
    | none ↦ buf
    | some k ↦ enc_magic ++ (iv ++ ((g.seal k iv buf).0 ++ (g.seal k iv buf).1))
  ]

  -- maybeDecryptBuffer; `none` is the exception of a failed authentication.
  unfoldable pub maybe_decrypt : Bytes → Option Bytes
  unfolding is_encrypted
  maybe_decrypt buf = elim enc_key [
    | none ↦ some buf
    | some k ↦
        if is_encrypted buf
        then g.open_sealed k (take iv_len (drop (length enc_magic) buf))
            (take (length buf - tag_len - header_len) (drop header_len buf))
            (drop (length buf - tag_len) buf)
        else some buf
  ]

  -- openEncryptedRead, with the plain stream of the blobs that it leaves to the caller: the whole
  -- plaintext; `none` is a truncated blob or a failed authentication.
  unfoldable pub stream_decrypt : Bytes → Option Bytes
  stream_decrypt buf = if refuses_blob enc_key buf then none else maybe_decrypt buf
