-- ===== src/S3/Checks.antt =====
-- backend/src/api/s3.ts: Content-MD5 and CRC-32 checks; backend/src/api/ssec.ts: the SSE-C headers.
use r2storage.Prelude.{
  Bool, Option, Text, [], codes, drop, if◌then◌else◌, length, none, not, some, take, text_eq, trim,
  ◌&&◌, ◌++◌, ◌-◌, ◌==◌, ◌||◌,
}
use r2storage.Range.Preconditions.{Headers, lookup_text, trimmed_header}
use r2storage.S3.{S3Error}
use r2storage.Storage.Engine.{Platform, Saved}

module _ (pf : Platform) where
  -- `supplied.length === 0 || supplied.toString('base64') !== raw`
  unfoldable pub bad_base64 : Text → Bool
  bad_base64 raw =
      text_eq (pf.from_base64 raw) [] || not (text_eq (pf.to_base64 (pf.from_base64 raw)) raw)

  -- `etag.slice(1, -1)`
  unfoldable pub inner_etag : Text → Text
  inner_etag etag = take (length etag - 2) (drop 1 etag)

  unfoldable pub content_md5_mismatch : Headers → Text → Option S3Error
  unfolding bad_base64 trimmed_header inner_etag
  content_md5_mismatch h etag = elim (trimmed_header h "content-md5") [
    | none ↦ none
    | some raw ↦
        if bad_base64 raw
        then some (400, "InvalidDigest")
        else if text_eq (pf.from_hex (inner_etag etag)) (pf.from_base64 raw)
        then none
        else some (400, "BadDigest")
  ]

  -- checksumCrc32Mismatch and trailerCrc32Mismatch on a supplied value.
  unfoldable pub crc_value_mismatch : Text → Text → Option S3Error
  unfolding bad_base64
  crc_value_mismatch raw computed =
      if bad_base64 raw
      then some (400, "InvalidRequest")
      else if text_eq (pf.from_base64 computed) (pf.from_base64 raw)
      then none
      else some (400, "BadDigest")

  unfoldable pub checksum_crc32_mismatch : Headers → Text → Option S3Error
  unfolding crc_value_mismatch trimmed_header
  checksum_crc32_mismatch h computed = elim (trimmed_header h "x-amz-checksum-crc32") [
    | none ↦ none
    | some raw ↦ crc_value_mismatch raw computed
  ]

  unfoldable pub trailer_crc32_mismatch : Option Text → Text → Option S3Error
  unfolding crc_value_mismatch
  trailer_crc32_mismatch none computed = none
  trailer_crc32_mismatch (some raw) computed =
      if text_eq raw [] then none else crc_value_mismatch raw computed

  -- The three checks of PutObject and UploadPart, in their order.
  unfoldable pub integrity_error : Headers → Option Text → Saved → Option S3Error
  unfolding content_md5_mismatch checksum_crc32_mismatch trailer_crc32_mismatch
  integrity_error h trailer saved = elim (content_md5_mismatch h saved.etag) [
    | some e ↦ some e
    | none ↦ elim (checksum_crc32_mismatch h saved.crc32) [
      | some e ↦ some e
      | none ↦ trailer_crc32_mismatch trailer saved.crc32
    ]
  ]

  pub record KeyTrio : Type 0 where
    pub algorithm : Option Text
    pub customer_key : Option Text
    pub key_md5 : Option Text

  trim_option : Option Text → Option Text
  trim_option none = none
  trim_option (some v) = some (trim v)

  -- readTrio, with `source` for the headers of a copy source.
  read_trio : Headers → Bool → KeyTrio
  unfolding trim_option
  read_trio h source =
      let prefix = codes (
        if source
        then "x-amz-copy-source-server-side-encryption-customer"
        else "x-amz-server-side-encryption-customer") in
      record {
        algorithm = trim_option (lookup_text (prefix ++ codes "-algorithm") h);
        customer_key = trim_option (lookup_text (prefix ++ codes "-key") h);
        key_md5 = trim_option (lookup_text (prefix ++ codes "-key-md5") h);
      }

  pub data SseC : Type 0 where
    no_customer_key invalid_argument encryption_off : SseC
    customer_key_md5 : Text → SseC

  valid_key : Text → Bool
  valid_key k = length (pf.from_base64 k) == 32 && text_eq (pf.to_base64 (pf.from_base64 k)) k

  valid_md5 : Text → Text → Bool
  valid_md5 k md5_text =
      text_eq (pf.to_base64 (pf.from_base64 md5_text)) md5_text
      && text_eq (pf.from_base64 md5_text) (pf.md5 (pf.from_base64 k))

  unfoldable pub validate_trio : Option Text → Option Text → Option Text → SseC
  unfolding valid_key valid_md5
  validate_trio none none none = no_customer_key
  validate_trio (some a) (some k) (some m) =
      if not (text_eq a (codes "AES256"))
      then invalid_argument
      else if not (valid_key k)
      then invalid_argument
      else if not (valid_md5 k m)
      then invalid_argument
      else customer_key_md5 m
  validate_trio a k m = invalid_argument

  require_encryption : SseC → SseC
  require_encryption (customer_key_md5 m) = elim pf.enc_key [
    | none ↦ encryption_off
    | some _ ↦ customer_key_md5 m
  ]
  require_encryption other = other

  unfoldable pub validate_sse_c : Headers → Bool → SseC
  unfolding read_trio validate_trio require_encryption
  validate_sse_c h source =
      let trio = read_trio h source in
      require_encryption (validate_trio trio.algorithm trio.customer_key trio.key_md5)

  unfoldable pub sse_c_error : SseC → Option S3Error
  sse_c_error no_customer_key = none
  sse_c_error (customer_key_md5 m) = none
  sse_c_error invalid_argument = some (400, "InvalidArgument")
  sse_c_error encryption_off = some (400, "InvalidRequest")
