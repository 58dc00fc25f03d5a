-- ===== src/Store.antt =====
-- The state that the S3 routes share: the tables of backend/prisma/schema.prisma that they use, and
-- the files under the storage directory. `@unique` columns identify rows; `onDelete: Cascade`
-- removes the parts with their upload; `@updatedAt` is set by every update of a row. JSON columns
-- hold the decoded value, and row ids are left out, since the routes use them as row identity.
pub mod Laws
use r2storage.Prelude.{
  Bool, List, Option, Text, [], false, if◌then◌else◌, none, some, text_eq, ℕ, ◌&&◌, ◌+◌, ◌==◌, ◌∷◌,
}

abbrev pub Bytes : Type 0
Bytes = List ℕ

abbrev pub Tags : Type 0
Tags = List (Text × Text)

pub record Metadata : Type 0 where
  pub user : List (Text × Text)
  pub content_disposition : Option Text
  pub content_encoding : Option Text
  pub cache_control : Option Text

-- `path.join(baseDir, safeBucket, h.slice(0, 2), h.slice(2, 4), h)` by bucket directory and hash
-- `h`, and `path.join(baseDir, 'multipart', uploadId, partNumber)`.
pub data FilePath : Type 0 where
  object_file : Text → Text → FilePath
  part_file : Text → ℕ → FilePath

pub record CorsRule : Type 0 where
  pub allowed_origins : List Text
  pub allowed_methods : List Text
  pub allowed_headers : List Text
  pub expose_headers : List Text
  pub max_age_seconds : ℕ

pub record LifecycleRule : Type 0 where
  pub id : Text
  pub prefix : Text
  pub status : Text
  pub days : Option ℕ
  pub date : Option Text

-- The rules are the decoded columns, empty for null.
pub record Bucket : Type 0 where
  pub name : Text
  pub is_public : Bool
  pub tags : Option Tags
  pub cors_origins : Text
  pub cors_rules : List CorsRule
  pub lifecycle_rules : List LifecycleRule

pub record ObjectRow : Type 0 where
  pub bucket_name : Text
  pub key : Text
  pub size : ℕ
  pub content_type : Text
  pub etag : Text
  pub storage_path : FilePath
  pub metadata : Option Metadata
  pub tags : Option Tags
  pub checksum_crc32 : Option Text
  pub updated_at : ℕ

pub record UploadRow : Type 0 where
  pub upload_id : Text
  pub bucket_name : Text
  pub key : Text
  pub content_type : Text
  pub metadata : Option Metadata
  pub tags : Option Tags
  pub created_at : ℕ

pub record PartRow : Type 0 where
  pub upload_id : Text
  pub part_number : ℕ
  pub etag : Text
  pub size : ℕ
  pub storage_path : FilePath
  pub created_at : ℕ

pub record World : Type 0 where
  pub buckets : List Bucket
  pub objects : List ObjectRow
  pub uploads : List UploadRow
  pub parts : List PartRow
  pub storage_limit : Option Text
  pub files : List (FilePath × Bytes)

unfoldable pub path_eq : FilePath → FilePath → Bool
path_eq (object_file b h) (object_file c k) = text_eq b c && text_eq h k
path_eq (part_file u n) (part_file v m) = text_eq u v && n == m
path_eq (object_file b h) (part_file v m) = false
path_eq (part_file u n) (object_file c k) = false

-- fs.readFile, fs.writeFile (also rename onto a path), fs.unlink and fs.rm of an upload's directory.
unfoldable pub read_file : FilePath → List (FilePath × Bytes) → Option Bytes
read_file p [] = none
read_file p ((q, b) ∷ fs) = if path_eq q p then some b else read_file p fs

unfoldable pub remove_file : FilePath → List (FilePath × Bytes) → List (FilePath × Bytes)
remove_file p [] = []
remove_file p ((q, b) ∷ fs) = if path_eq q p then remove_file p fs else (q, b) ∷ remove_file p fs

unfoldable pub write_file : FilePath → Bytes → List (FilePath × Bytes) → List (FilePath × Bytes)
unfolding remove_file
write_file p b fs = (p, b) ∷ remove_file p fs

unfoldable pub is_part_of : Text → FilePath → Bool
is_part_of id (object_file b h) = false
is_part_of id (part_file u n) = text_eq u id

unfoldable pub remove_upload_files : Text → List (FilePath × Bytes) → List (FilePath × Bytes)
unfolding is_part_of
remove_upload_files id [] = []
remove_upload_files id ((q, b) ∷ fs) =
    if is_part_of id q then remove_upload_files id fs else (q, b) ∷ remove_upload_files id fs

unfoldable pub find_bucket : Text → List Bucket → Option Bucket
find_bucket name [] = none
find_bucket name (r ∷ rs) = if text_eq r.name name then some r else find_bucket name rs

abbrev pub is_object : Text → Text → ObjectRow → Bool
is_object bucket k r = text_eq r.bucket_name bucket && text_eq r.key k

-- db.object.findUnique, upsert (the row replaces the one of its key, or is added) and delete.
unfoldable pub find_object : Text → Text → List ObjectRow → Option ObjectRow
find_object bucket k [] = none
find_object bucket k (r ∷ rs) = if is_object bucket k r then some r else find_object bucket k rs

unfoldable pub upsert_object : ObjectRow → List ObjectRow → List ObjectRow
upsert_object o [] = o ∷ []
upsert_object o (r ∷ rs) =
    if is_object o.bucket_name o.key r then o ∷ rs else r ∷ upsert_object o rs

unfoldable pub delete_object : Text → Text → List ObjectRow → List ObjectRow
delete_object bucket k [] = []
delete_object bucket k (r ∷ rs) =
    let rest = delete_object bucket k rs in if is_object bucket k r then rest else r ∷ rest

unfoldable pub find_upload : Text → List UploadRow → Option UploadRow
find_upload id [] = none
find_upload id (r ∷ rs) = if text_eq r.upload_id id then some r else find_upload id rs

unfoldable pub delete_upload : Text → List UploadRow → List UploadRow
delete_upload id [] = []
delete_upload id (r ∷ rs) =
    let rest = delete_upload id rs in if text_eq r.upload_id id then rest else r ∷ rest

abbrev pub is_part : Text → ℕ → PartRow → Bool
is_part id n r = text_eq r.upload_id id && r.part_number == n

unfoldable pub find_part : Text → ℕ → List PartRow → Option PartRow
find_part id n [] = none
find_part id n (r ∷ rs) = if is_part id n r then some r else find_part id n rs

unfoldable pub upsert_part : PartRow → List PartRow → List PartRow
upsert_part p [] = p ∷ []
upsert_part p (r ∷ rs) =
    if is_part p.upload_id p.part_number r then p ∷ rs else r ∷ upsert_part p rs

-- db.multipartPart.findMany({ where: { uploadId } }), and the cascade of an upload's deletion.
unfoldable pub parts_of : Text → List PartRow → List PartRow
parts_of id [] = []
parts_of id (r ∷ rs) = if text_eq r.upload_id id then r ∷ parts_of id rs else parts_of id rs

unfoldable pub delete_parts : Text → List PartRow → List PartRow
delete_parts id [] = []
delete_parts id (r ∷ rs) =
    if text_eq r.upload_id id then delete_parts id rs else r ∷ delete_parts id rs

-- `_sum: { size: true }` over the parts of an upload, 0 where there are none.
unfoldable pub parts_size : List PartRow → ℕ
parts_size [] = 0
parts_size (r ∷ rs) = r.size + parts_size rs

abbrev pub size_of : Option ObjectRow → ℕ
size_of none = 0
size_of (some r) = r.size

abbrev pub part_size_of : Option PartRow → ℕ
part_size_of none = 0
part_size_of (some r) = r.size
