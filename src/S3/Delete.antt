-- ===== src/S3/Delete.antt =====
-- backend/src/api/s3.ts: DELETE of an object, of its tags and of an upload, the batch deletion, and
-- the PUT route as a whole with the tagging subresource. The body of a tagging request or a batch is
-- given as what the route's regular expressions read from it.
pub mod Batch
use r2storage.Prelude.{
  List, Option, Text, [], any, if◌then◌else◌, length, ltb, none, not, some, text_eq, ℕ, ◌∷◌,
}
use r2storage.Range.Preconditions.{header}
use r2storage.S3.{
  Reply, Request, denied_reply, failed, full_access, has_query, permission_denied, refuses,
  succeeded, write_access,
}
use r2storage.S3.Copy.{put_copy}
use r2storage.S3.Multipart.{abort_upload}
use r2storage.S3.Put.{put_payload}
use r2storage.S3.Tagging.{serialize_tags}
use r2storage.Storage.Engine.{Platform, delete_object_file}
use r2storage.Store.{
  Bytes, ObjectRow, Tags, World, delete_object, find_bucket, find_object, upsert_object,
}

-- `db.object.update` of the tags: `@updatedAt` moves as well.
unfoldable pub set_tags : ℕ → Option Tags → ObjectRow → World → World
set_tags now tags o w = record w {
  objects = upsert_object (record o { tags = tags; updated_at = now }) w.objects;
}

-- A tagging body: over 1 MB, contradicting its Content-MD5, not a valid tag set, or a tag set.
pub data TagBody : Type 0 where
  tags_too_large digest_mismatch invalid_tags : TagBody
  tag_set : Tags → TagBody

module _ (pf : Platform) (boot_quota : ℕ) where
  put_tagging_body : ℕ → ObjectRow → TagBody → World → World × Reply
  put_tagging_body now o tags_too_large w = (w, failed 413 "EntityTooLarge")
  put_tagging_body now o digest_mismatch w = (w, failed 400 "BadDigest")
  put_tagging_body now o invalid_tags w = (w, failed 400 "InvalidTag")
  put_tagging_body now o (tag_set tags) w =
      (set_tags now (serialize_tags tags) o w, succeeded 200 none)

  unfoldable pub put_tagging : ℕ → Request → TagBody → World → World × Reply
  unfolding put_tagging_body
  put_tagging now r body w = elim (find_object r.bucket_name r.key w.objects) [
    | none ↦ (w, failed 404 "NoSuchKey")
    | some o ↦ put_tagging_body now o body w
  ]

  -- PUT /s3/:bucket/*
  unfoldable pub put_object : ℕ → Bytes → Request → TagBody → World → World × Reply
  unfolding put_tagging
  put_object now iv r body w = elim (find_bucket r.bucket_name w.buckets) [
    | none ↦ (w, failed 404 "NoSuchBucket")
    | some _ ↦
        if refuses r write_access
        then (w, denied_reply)
        else if has_query r "tagging"
        then put_tagging now r body w
        else elim (header r.headers "x-amz-copy-source") [
          | some v ↦ put_copy pf boot_quota now iv r v w
          | none ↦ put_payload pf boot_quota now iv r w
        ]
  ]

  unfoldable pub delete_found : ObjectRow → World → World
  delete_found o w =
      let w' = delete_object_file pf o.storage_path w in
      record w' { objects = delete_object o.bucket_name o.key w'.objects }

  unfoldable pub delete_one : Text → Text → World → World
  unfolding delete_found
  delete_one bucket k w = elim (find_object bucket k w.objects) [
    | none ↦ w
    | some o ↦ delete_found o w
  ]

  delete_tagging : ℕ → Request → World → World × Reply
  delete_tagging now r w = elim (find_object r.bucket_name r.key w.objects) [
    | none ↦ (w, failed 404 "NoSuchKey")
    | some o ↦ (set_tags now none o w, succeeded 204 none)
  ]

  -- DELETE /s3/:bucket/*
  unfoldable pub delete_route : ℕ → Request → World → World × Reply
  unfolding delete_tagging delete_one
  delete_route now r w =
      if not r.auth.authenticated then (w, denied_reply) else elim (header r.query "uploadId") [
        | some id ↦ abort_upload pf boot_quota r id w
        | none ↦
            if permission_denied r.auth r.bucket_name full_access
            then (w, denied_reply)
            else if has_query r "tagging"
            then delete_tagging now r w
            else (delete_one r.bucket_name r.key w, succeeded 204 none)
      ]

  -- `[...new Set(keys)]`
  unfoldable pub unique_keys : List Text → List Text → List Text
  unique_keys seen [] = []
  unique_keys seen (k ∷ ks) =
      if any (text_eq k) seen then unique_keys seen ks else k ∷ unique_keys (k ∷ seen) ks

  unfoldable pub delete_each : Text → List Text → World → World
  unfolding delete_one
  delete_each bucket [] w = w
  delete_each bucket (k ∷ ks) w = delete_each bucket ks (delete_one bucket k w)

  -- The body of POST /s3/:bucket?delete: over 1 MB, or its keys.
  unfoldable pub delete_keys : Text → List Text → World → World × Reply
  unfolding delete_each
  delete_keys bucket [] w = (w, failed 400 "MalformedXML")
  delete_keys bucket (k ∷ ks) w =
      if ltb 1000 (length (k ∷ ks))
      then (w, failed 400 "MalformedXML")
      else (delete_each bucket (k ∷ ks) w, succeeded 200 none)

  -- POST /s3/:bucket
  unfoldable pub delete_objects : Request → Option (List Text) → World → World × Reply
  unfolding delete_keys unique_keys
  delete_objects r body w =
      if not (has_query r "delete")
      then (w, failed 400 "InvalidRequest")
      else elim (find_bucket r.bucket_name w.buckets) [
        | none ↦ (w, failed 404 "NoSuchBucket")
        | some _ ↦ if refuses r full_access then (w, denied_reply) else elim body [
          | none ↦ (w, failed 413 "EntityTooLarge")
          | some keys ↦ delete_keys r.bucket_name (unique_keys [] keys) w
        ]
      ]
