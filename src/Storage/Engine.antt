-- ===== src/Storage/Engine.antt =====
-- backend/src/storage/engine.ts: paths, and the operations that write and delete files. A stream is
-- what reading it gives, `stream_ok bytes` or an error before its end; temporary files have names of
-- their own, are renamed onto the target or unlinked, and so never outlive a call.
-- The platform functions that the engine and the routes call: digests, hexadecimal and base64 text,
-- URI decoding, the cipher, and CONFIG.STORAGE_ENCRYPTION_KEY as it was decoded.
use r2storage.Prelude.{
  Bool, Option, Text, [], if◌then◌else◌, is_digit, leb, length, map, none, some, ℕ, ℤ, ◌&&◌, ◌++◌,
  ◌==◌, ◌||◌, ◌∷◌,
}
use r2storage.Storage.Blob.{Gcm, maybe_decrypt, maybe_encrypt, stream_decrypt}
use r2storage.Storage.Crc32.{crc32}
use r2storage.Store.{
  Bytes, FilePath, World, object_file, part_file, read_file, remove_file, write_file,
}

pub record Platform : Type 0 where
  pub md5 : Bytes → Bytes
  pub sha256_hex : Text → Text
  pub to_hex : Bytes → Text
  pub from_hex : Text → Bytes
  pub to_base64 : Bytes → Text
  pub from_base64 : Text → Bytes
  pub decode_uri : Text → Option Text
  pub mime_type : Text → Option Text
  pub date_parse : Text → Option ℤ
  pub gcm : Gcm
  pub enc_key : Option Bytes

pub record Saved : Type 0 where
  pub size : ℕ
  pub etag : Text
  pub storage_path : FilePath
  pub crc32 : Text

is_safe_char : ℕ → Bool
is_safe_char c =
    (leb b'a' c && leb c b'z')
    || (leb b'A' c && leb c b'Z')
    || is_digit c
    || c == b'.'
    || c == b'_'
    || c == b'-'

-- `bucketName.replace(/[^a-zA-Z0-9._-]/g, '_')`
unfoldable pub safe_bucket : Text → Text
unfolding is_safe_char
safe_bucket name = map (λ c. if is_safe_char c then c else b'_') name

module _ (pf : Platform) where
  -- getFilePath
  unfoldable pub file_path : Text → Text → FilePath
  file_path bucket k = object_file (safe_bucket bucket) (pf.sha256_hex k)

  -- The ETag is the MD5 of the plaintext in hexadecimal, in quotes.
  unfoldable pub etag_of : Bytes → Text
  etag_of bytes = b'"' ∷ (pf.to_hex (pf.md5 bytes) ++ b'"' ∷ [])

  unfoldable pub saved_at : FilePath → Bytes → Saved
  saved_at p bytes = record {
    size = length bytes;
    etag = etag_of bytes;
    storage_path = p;
    crc32 = pf.to_base64 (crc32 bytes);
  }

  abbrev pub write_blob : FilePath → Bytes → Bytes → World → World
  write_blob p iv bytes w = record w {
    files = write_file p (maybe_encrypt pf.gcm pf.enc_key iv bytes) w.files;
  }

  -- saveObjectFromStream where the stream ends normally: the temporary file is renamed onto the
  -- path of the key. Where the stream fails, the temporary file is unlinked and nothing changes.
  unfoldable pub save_object : Text → Text → Bytes → Bytes → World → World × Saved
  unfolding saved_at file_path
  save_object bucket k iv bytes w =
      let p = file_path bucket k in (write_blob p iv bytes w, saved_at p bytes)

  -- savePartFromStream: the part's own path is written, and unlinked where the stream fails.
  unfoldable pub save_part : Text → ℕ → Bytes → Bytes → World → World × Saved
  unfolding saved_at
  save_part id n iv bytes w = let p = part_file id n in (write_blob p iv bytes w, saved_at p bytes)

  unfoldable pub abort_part : Text → ℕ → World → World
  abort_part id n w = record w { files = remove_file (part_file id n) w.files }

  -- deleteObjectFile
  unfoldable pub delete_object_file : FilePath → World → World
  delete_object_file p w = record w { files = remove_file p w.files }

  -- getObjectBuffer, and the read of one part in completeMultipart.
  unfoldable pub read_buffer : FilePath → World → Option Bytes
  read_buffer p w = elim (read_file p w.files) [
    | none ↦ none
    | some stored ↦ maybe_decrypt pf.gcm pf.enc_key stored
  ]

  -- What a full read through getObjectStream gives; `none` where the file is missing, its blob is
  -- refused or its tag is wrong.
  unfoldable pub read_object : FilePath → World → Option Bytes
  read_object p w = elim (read_file p w.files) [
    | none ↦ none
    | some stored ↦ stream_decrypt pf.gcm pf.enc_key stored
  ]

  -- copyObjectFile: the stored bytes are cloned as they are; a missing source is an exception.
  unfoldable pub copy_object_file : FilePath → Text → Text → World → Option (World × FilePath)
  unfolding file_path
  copy_object_file src bucket k w = elim (read_file src w.files) [
    | none ↦ none
    | some stored ↦
        some
          (record w { files = write_file (file_path bucket k) stored w.files }, file_path bucket k)
  ]
