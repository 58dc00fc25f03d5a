-- ===== src/Store/Laws.antt =====
-- Looking up what was written.
use r2storage.Prelude.{
  List, Text, [], arith, if◌then◌else◌, none, refl, some, text_eq, text_eq_iff, true, ◌&&◌, ◌↔◌,
  ◌∙◌, ◌∷◌, ◌≡◌,
}
use r2storage.Store.{
  Bytes, FilePath, ObjectRow, PartRow, UploadRow, delete_object, delete_parts, delete_upload,
  find_object, find_upload, is_object, is_part_of, object_file, part_file, parts_of, path_eq,
  read_file, remove_file, remove_upload_files, upsert_object, write_file,
}

pub find_object-upsert_object :
    (o : ObjectRow) (bucket k : Text) (rs : List ObjectRow)
    → find_object bucket k (upsert_object o rs)
      ≡ (if is_object bucket k o then some o else find_object bucket k rs)
unfolding find_object upsert_object
find_object-upsert_object o bucket k [] = refl
find_object-upsert_object o bucket k (r ∷ rs) = ground (
  arith,
  text_eq_iff r.bucket_name o.bucket_name,
  text_eq_iff r.key o.key,
  text_eq_iff o.bucket_name bucket,
  text_eq_iff o.key k,
  text_eq_iff r.bucket_name bucket,
  text_eq_iff r.key k,
  find_object-upsert_object o bucket k rs,
)

pub find_object-some :
    (bucket k : Text) (rs : List ObjectRow) (r : ObjectRow)
    → find_object bucket k rs ≡ some r
    → (r.bucket_name ≡ bucket) × (r.key ≡ k)
unfolding find_object
find_object-some bucket k [] r h = cc
find_object-some bucket k (x ∷ rs) r h =
    ground
      (arith, text_eq_iff x.bucket_name bucket, text_eq_iff x.key k, find_object-some bucket k rs r)

pub path_eq_iff : (p q : FilePath) → (path_eq p q ≡ true) ↔ (p ≡ q)
unfolding path_eq
path_eq_iff (object_file b h) (object_file c k) = ground (arith, text_eq_iff b c, text_eq_iff h k)
path_eq_iff (part_file u n) (part_file v m) = ground (arith, text_eq_iff u v)
path_eq_iff (object_file b h) (part_file v m) = ground arith
path_eq_iff (part_file u n) (object_file c k) = ground arith

pub read_file-remove_file :
    (p q : FilePath) (fs : List (FilePath × Bytes))
    → read_file q (remove_file p fs) ≡ (if path_eq p q then none else read_file q fs)
unfolding read_file remove_file
read_file-remove_file p q [] = ground arith
read_file-remove_file p q ((r, b) ∷ fs) =
    ground (arith, path_eq_iff r p, path_eq_iff p q, path_eq_iff r q, read_file-remove_file p q fs)

pub read_file-write_file :
    (p q : FilePath) (b : Bytes) (fs : List (FilePath × Bytes))
    → read_file q (write_file p b fs) ≡ (if path_eq p q then some b else read_file q fs)
unfolding read_file write_file
read_file-write_file p q b fs = ground (arith, read_file-remove_file p q fs)

pub path_eq_refl : (p : FilePath) → path_eq p p ≡ true
path_eq_refl p = (path_eq_iff p p).1 refl

pub read_file-remove_file_self :
    (p : FilePath) (fs : List (FilePath × Bytes)) → read_file p (remove_file p fs) ≡ none
read_file-remove_file_self p fs = read_file-remove_file p p fs ∙ rw (path_eq_refl p) refl

pub find_object-delete_object :
    (bucket k bucket' k' : Text) (rs : List ObjectRow)
    → find_object bucket k (delete_object bucket' k' rs)
      ≡ (if text_eq bucket' bucket && text_eq k' k then none else find_object bucket k rs)
unfolding find_object delete_object
find_object-delete_object bucket k bucket' k' [] = ground arith
find_object-delete_object bucket k bucket' k' (r ∷ rs) = ground (
  arith,
  text_eq_iff r.bucket_name bucket',
  text_eq_iff r.key k',
  text_eq_iff bucket' bucket,
  text_eq_iff k' k,
  text_eq_iff r.bucket_name bucket,
  text_eq_iff r.key k,
  find_object-delete_object bucket k bucket' k' rs,
)

pub find_upload-delete_upload :
    (id : Text) (us : List UploadRow) → find_upload id (delete_upload id us) ≡ none
unfolding find_upload delete_upload
find_upload-delete_upload id [] = refl
find_upload-delete_upload id (u ∷ us) = ground (arith, find_upload-delete_upload id us)

pub parts_of-delete_parts : (id : Text) (ps : List PartRow) → parts_of id (delete_parts id ps) ≡ []
unfolding parts_of delete_parts
parts_of-delete_parts id [] = refl
parts_of-delete_parts id (p ∷ ps) = ground (arith, parts_of-delete_parts id ps)

pub read_file-remove_upload_files :
    (id b h : Text) (fs : List (FilePath × Bytes))
    → read_file (object_file b h) (remove_upload_files id fs) ≡ read_file (object_file b h) fs
unfolding read_file remove_upload_files is_part_of path_eq
read_file-remove_upload_files id b h [] = refl
read_file-remove_upload_files id b h ((object_file c k, s) ∷ fs) =
    ground (arith, read_file-remove_upload_files id b h fs)
read_file-remove_upload_files id b h ((part_file u n, s) ∷ fs) =
    ground (arith, read_file-remove_upload_files id b h fs)
