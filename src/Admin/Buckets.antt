-- ===== src/Admin/Buckets.antt =====
-- backend/src/api/admin.ts: buckets, and the upload and deletion of objects by the dashboard.
pub mod Leftovers
use r2storage.Admin.{AdminState}
use r2storage.Prelude.{
  Bool, List, Option, Text, [], all, codes, false, filter, get_or_else, if◌then◌else◌, is_digit,
  is_some, leb, length, none, not, some, text_eq, ℕ, ◌&&◌, ◌==◌, ◌||◌, ◌∷◌,
}
use r2storage.Quota.{would_exceed_quota}
use r2storage.S3.Delete.{delete_one}
use r2storage.Storage.Engine.{Platform, Saved, save_object}
use r2storage.Store.{
  Bucket, Bytes, FilePath, ObjectRow, World, find_bucket, find_object, remove_file, size_of,
  upsert_object,
}

-- `/^[a-z0-9.-]{3,63}$/`, without the `m` flag: a final line feed is no end of the text.
unfoldable pub is_bucket_name : Text → Bool
is_bucket_name name =
    all (λ c. is_digit c || (leb b'a' c && leb c b'z') || c == b'.' || c == b'-') name
    && leb 3 (length name)
    && leb (length name) 63

-- POST /api/admin/buckets
unfoldable pub create_bucket : Text → Option Bool → Option Text → AdminState → AdminState × ℕ
unfolding is_bucket_name
create_bucket name is_public cors_origins s =
    let given = get_or_else cors_origins [] in
    let new : Bucket = record {
      name = name;
      is_public = get_or_else is_public false;
      tags = none;
      cors_origins = if text_eq given [] then codes "*" else given;
      cors_rules = [];
      lifecycle_rules = [];
    } in
    if not (is_bucket_name name)
    then (s, 400)
    else if is_some (find_bucket name s.stored.buckets)
    then (s, 409)
    else (record s { stored = record s.stored { buckets = new ∷ s.stored.buckets } }, 201)

unfoldable pub update_bucket : Text → (Bucket → Bucket) → List Bucket → List Bucket
update_bucket name f [] = []
update_bucket name f (b ∷ bs) =
    if text_eq b.name name then f b ∷ bs else b ∷ update_bucket name f bs

-- PATCH /api/admin/buckets/:name; the update of a missing row throws.
unfoldable pub patch_bucket : Text → Option Bool → Option Text → AdminState → AdminState × ℕ
unfolding update_bucket
patch_bucket name is_public cors_origins s = elim (find_bucket name s.stored.buckets) [
  | none ↦ (s, 500)
  | some found ↦
      let change : Bucket → Bucket = λ b. record b {
        is_public = get_or_else is_public b.is_public;
        cors_origins = get_or_else cors_origins b.cors_origins;
      } in
      (
        record s {
          stored = record s.stored { buckets = update_bucket name change s.stored.buckets };
        },
        200,
      )
]

unfoldable pub delete_files : List ObjectRow → List (FilePath × Bytes) → List (FilePath × Bytes)
delete_files [] files = files
delete_files (o ∷ os) files = delete_files os (remove_file o.storage_path files)

-- DELETE /api/admin/buckets/:name: the files of its objects go first, then the bucket's row, which
-- takes the rows of its objects with it.
unfoldable pub delete_bucket : Text → AdminState → AdminState × ℕ
unfolding delete_files
delete_bucket name s =
    let w = s.stored in
    let owned = filter (λ o. text_eq o.bucket_name name) w.objects in
    let cleaned = record w { files = delete_files owned w.files } in
    elim (find_bucket name w.buckets) [
      | none ↦ (record s { stored = cleaned }, 500)
      | some found ↦ (
        record s {
          stored = record cleaned {
            buckets = filter (λ b. not (text_eq b.name name)) w.buckets;
            objects = filter (λ o. not (text_eq o.bucket_name name)) w.objects;
          };
        },
        200,
      )
    ]

module _ (pf : Platform) (boot_quota : ℕ) where
  -- The row of an upload: an update sets five columns of the existing row.
  unfoldable pub uploaded_row : ℕ → Text → Text → Text → Saved → Option ObjectRow → ObjectRow
  uploaded_row now name k content_type saved (some old) = record old {
    size = saved.size;
    content_type = content_type;
    etag = saved.etag;
    storage_path = saved.storage_path;
    updated_at = now;
  }
  uploaded_row now name k content_type saved none = record {
    bucket_name = name;
    key = k;
    size = saved.size;
    content_type = content_type;
    etag = saved.etag;
    storage_path = saved.storage_path;
    metadata = none;
    tags = none;
    checksum_crc32 = none;
    updated_at = now;
  }

  -- POST /api/admin/buckets/:name/upload; a file has its name, its media type and its bytes.
  unfoldable pub upload_object : ℕ → Bytes → Text → Option (Text × Text × Bytes) → World → World × ℕ
  unfolding uploaded_row
  upload_object now iv name none w =
      (w, elim (find_bucket name w.buckets) [ none ↦ 404 | some b ↦ 400 ])
  upload_object now iv name (some (k, mimetype, bytes)) w =
      let existing = find_object name k w.objects in
      let (written, saved) = save_object pf name k iv bytes w in
      let content_type =
        if text_eq mimetype []
        then get_or_else (pf.mime_type k) (codes "application/octet-stream")
        else mimetype in
      elim (find_bucket name w.buckets) [
        | none ↦ (w, 404)
        | some bucket ↦
            if would_exceed_quota boot_quota (length bytes) (size_of existing) w
            then (w, 507)
            else (
              record written {
                objects =
                    upsert_object (uploaded_row now name k content_type saved existing)
                      written.objects;
              },
              201,
            )
      ]

  -- DELETE /api/admin/buckets/:name/objects/*
  unfoldable pub remove_object : Text → Text → World → World × ℕ
  remove_object name k w =
      if text_eq k [] then (w, 400) else (delete_one pf boot_quota name k w, 200)
