-- ===== src/S3/Tests.antt =====
-- Runs of the S3 routes on a platform of simple functions.
use r2storage.Prelude.{
  Text, [], any, ap, arith, codes, decimal_from, false, get_or_else, if◌then◌else◌, inr, is_space,
  length, none, parse_nat, refl, some, some_inj, suc, sym, text_eq, trim, true, zero, ℕ, ◌&&◌, ◌∷◌,
  ◌≡◌, ◌⊎◌,
}
use r2storage.Quota.{storage_quota, used_bytes, would_exceed_quota}
use r2storage.Quota.Invariant.{UnderQuota}
use r2storage.Range.Preconditions.{Headers, check_write_preconditions, header, raw_header}
use r2storage.S3.{
  AuthResult, Reply, Request, declared_length, failed, lacks_permission, permission_denied,
  succeeded, whole,
}
use r2storage.S3.Checks.{integrity_error}
use r2storage.S3.Copy.{copy_object}
use r2storage.S3.Copy.Clone.{IsCopyResult, copy_object-IsCopyResult}
use r2storage.S3.Copy.Quota.{copy_object-UnderQuota}
use r2storage.S3.Delete.{delete_objects}
use r2storage.S3.Delete.Batch.{delete_objects-find_object}
use r2storage.S3.Multipart.{abort_upload, complete_upload, part_list}
use r2storage.S3.Multipart.Complete.{complete_upload-UnderQuota}
use r2storage.S3.Multipart.Joined.{IsAnswer, complete_upload-IsAnswer}
use r2storage.S3.Multipart.Scope.{abort_upload_ignores_owner}
use r2storage.S3.Put.{declared_too_long, header_tags, precondition_error, put_row, store_object}
use r2storage.S3.Put.Outcome.{PutOutcome, store_object-PutOutcome}
use r2storage.S3.Put.Overwrite.{IsStored, store_object-read_object, store_object_loses_blob}
use r2storage.S3.Put.Quota.{store_object-UnderQuota}
use r2storage.Storage.Blob.{Gcm, GcmLaws, maybe_decrypt, maybe_encrypt}
use r2storage.Storage.Engine.{
  Platform, etag_of, file_path, read_buffer, safe_bucket, save_object, saved_at,
}
use r2storage.Store.{
  Bytes, ObjectRow, PartRow, UploadRow, World, find_object, find_upload, object_file, part_file,
  parts_of, path_eq, read_file, upsert_object,
}

abbrev zeros : ℕ → Bytes
zeros zero = []
zeros (suc n) = 0 ∷ zeros n

abbrev plain_gcm : Gcm
plain_gcm = record { seal = λ k iv b. (b, zeros 16); open_sealed = λ k iv c t. some c }

pub plain_gcm_laws : GcmLaws plain_gcm
plain_gcm_laws = record { tag_length = λ k iv b. refl; opens = λ k iv b. refl }

abbrev pub platform : Platform
platform = record {
  md5 = λ b. b;
  sha256_hex = λ s. s;
  to_hex = λ b. b;
  from_hex = λ s. s;
  to_base64 = λ b. b;
  from_base64 = λ s. s;
  decode_uri = λ s. some s;
  mime_type = λ s. none;
  date_parse = λ s. none;
  gcm = plain_gcm;
  enc_key = some (1 ∷ 2 ∷ []);
}

abbrev pub b1 : Text
b1 = codes "b"

abbrev pub k1 : Text
k1 = codes "k"

abbrev pub test_iv : Bytes
test_iv = zeros 12

abbrev pub master_key : AuthResult
master_key = record { authenticated = true; permission = codes "FULL"; bucket_filter = none }

abbrev put_request : Headers → Bytes → Request
put_request h bytes = record {
  bucket_name = b1;
  key = k1;
  query = [];
  headers = h;
  auth = master_key;
  body = whole bytes none;
}

abbrev old_row : ObjectRow
old_row = record {
  bucket_name = b1;
  key = k1;
  size = 2;
  content_type = codes "text/plain";
  etag = codes "old";
  storage_path = object_file b1 k1;
  metadata = none;
  tags = none;
  checksum_crc32 = none;
  updated_at = 1;
}

abbrev pub one_object : World
one_object = record {
  buckets =
      record {
        name = b1;
        is_public = false;
        tags = none;
        cors_origins = codes "*";
        cors_rules = [];
        lifecycle_rules = [];
      }
      ∷ [];
  objects = old_row ∷ [];
  uploads = [];
  parts = [];
  storage_limit = none;
  files = (object_file b1 k1, 9 ∷ 9 ∷ []) ∷ [];
}

abbrev pub fresh_put : Request
fresh_put = put_request [] (4 ∷ 5 ∷ 6 ∷ [])

store_object-UnderQuota_example :
    UnderQuota 100 (store_object platform 100 7 test_iv fresh_put one_object).0
unfolding used_bytes storage_quota
store_object-UnderQuota_example =
    store_object-UnderQuota platform 100 7 test_iv fresh_put one_object (inr (omega arith))

store_object-PutOutcome_example :
    PutOutcome platform 100 7 test_iv fresh_put one_object
      (store_object platform 100 7 test_iv fresh_put one_object)
store_object-PutOutcome_example =
    store_object-PutOutcome platform 100 7 test_iv fresh_put one_object

abbrev pub after_put : World
after_put = (store_object platform 100 7 test_iv fresh_put one_object).0

pub after_put_stored :
    store_object platform 100 7 test_iv fresh_put one_object
    ≡ (after_put, succeeded 200 (some (etag_of platform (4 ∷ 5 ∷ 6 ∷ []))))
unfolding store_object precondition_error check_write_preconditions header declared_length parse_nat
    raw_header is_space decimal_from integrity_error header_tags would_exceed_quota storage_quota
    save_object find_object text_eq used_bytes
after_put_stored = refl

pub after_put_buckets : after_put.buckets ≡ one_object.buckets
unfolding store_object precondition_error check_write_preconditions header declared_length parse_nat
    raw_header is_space decimal_from integrity_error header_tags would_exceed_quota storage_quota
    save_object find_object text_eq used_bytes
after_put_buckets = refl

abbrev pub after_put_row : ObjectRow
after_put_row = get_or_else (find_object b1 k1 after_put.objects) old_row

pub after_put_found : find_object b1 k1 after_put.objects ≡ some after_put_row
unfolding store_object precondition_error check_write_preconditions header declared_length parse_nat
    raw_header is_space decimal_from integrity_error header_tags would_exceed_quota storage_quota
    save_object upsert_object put_row find_object text_eq used_bytes
after_put_found = refl

pub after_put_etag : after_put_row.etag ≡ etag_of platform (4 ∷ 5 ∷ 6 ∷ [])
unfolding store_object precondition_error check_write_preconditions header declared_length parse_nat
    raw_header is_space decimal_from integrity_error header_tags would_exceed_quota storage_quota
    save_object upsert_object put_row find_object text_eq used_bytes
after_put_etag = refl

store_object-read_object_example :
    IsStored platform 100 7 test_iv fresh_put one_object after_put
      (some (etag_of platform (4 ∷ 5 ∷ 6 ∷ [])))
store_object-read_object_example =
    store_object-read_object platform 100 7 test_iv fresh_put one_object after_put 200
      (some (etag_of platform (4 ∷ 5 ∷ 6 ∷ []))) plain_gcm_laws refl after_put_stored

abbrev corrupt_put : Request
corrupt_put = put_request ((codes "content-md5", codes "zz") ∷ []) (4 ∷ 5 ∷ 6 ∷ [])

abbrev after_corrupt_put : World × Reply
after_corrupt_put = store_object platform 100 7 test_iv corrupt_put one_object

store_object_loses_blob_example :
    (after_corrupt_put.1 ≡ failed 400 "BadDigest")
    × (find_object b1 k1 after_corrupt_put.0.objects ≡ some old_row)
    × (read_file (object_file b1 k1) after_corrupt_put.0.files ≡ none)
unfolding find_object text_eq file_path safe_bucket precondition_error check_write_preconditions
    header declared_too_long declared_length parse_nat raw_header is_space decimal_from
    integrity_error trim saved_at etag_of
store_object_loses_blob_example =
    store_object_loses_blob platform 100 7 test_iv corrupt_put one_object old_row (4 ∷ 5 ∷ 6 ∷ [])
      none (400, "BadDigest") refl refl refl refl refl refl

abbrev copy_request : Request
copy_request = record fresh_put { key = codes "copy" }

copy_object-UnderQuota_example :
    UnderQuota 100 (copy_object platform 100 7 copy_request (b1, k1) old_row one_object).0
unfolding used_bytes storage_quota
copy_object-UnderQuota_example =
    copy_object-UnderQuota platform 100 7 copy_request one_object (b1, k1) old_row
      (inr (omega arith))

abbrev foreign_upload : UploadRow
foreign_upload = record {
  upload_id = codes "u1";
  bucket_name = codes "private";
  key = codes "secret";
  content_type = [];
  metadata = none;
  tags = none;
  created_at = 1;
}

abbrev one_part : PartRow
one_part = record {
  upload_id = codes "u1";
  part_number = 1;
  etag = codes "e";
  size = 1;
  storage_path = part_file (codes "u1") 1;
  created_at = 1;
}

abbrev one_upload : World
one_upload = record one_object {
  uploads = foreign_upload ∷ [];
  parts = one_part ∷ [];
  files =
      (part_file (codes "u1") 1, maybe_encrypt plain_gcm (some (1 ∷ 2 ∷ [])) test_iv (8 ∷ [])) ∷ [];
}

abbrev complete_request : Request
complete_request = record fresh_put {
  query = (codes "uploadId", codes "u1") ∷ [];
  key = codes "joined";
}

part_unread :
    (bytes : Bytes)
    → read_buffer platform (part_file (codes "u1") 1) one_upload ≡ some bytes
    → length bytes ≡ 1
unfolding read_buffer read_file path_eq text_eq maybe_decrypt maybe_encrypt
part_unread bytes e = ap length (sym (some_inj e))

complete_upload-UnderQuota_example :
    UnderQuota 100
      (complete_upload platform 100 7 test_iv complete_request
        (part_list (1 ∷ []) (codes "e" ∷ []))
        one_upload).0
unfolding used_bytes storage_quota
complete_upload-UnderQuota_example =
    complete_upload-UnderQuota platform 100 7 test_iv complete_request one_upload
      (part_list (1 ∷ []) (codes "e" ∷ [])) (part_unread, tt) (inr (omega arith))

abbrev scoped_request : Request
scoped_request = record fresh_put {
  auth = record { authenticated = true; permission = codes "FULL"; bucket_filter = some b1 };
}

abort_upload_ignores_owner_example :
    let (after, reply) = abort_upload platform 100 scoped_request (codes "u1") one_upload in
    (reply ≡ succeeded 204 none)
    × (find_upload (codes "u1") after.uploads ≡ none)
    × (parts_of (codes "u1") after.parts ≡ [])
unfolding permission_denied text_eq lacks_permission find_upload
abort_upload_ignores_owner_example =
    abort_upload_ignores_owner platform 100 scoped_request one_upload foreign_upload refl refl refl

abbrev batch_request : Request
batch_request = record fresh_put { query = (codes "delete", []) ∷ [] }

delete_objects-find_object_example :
    let (after, reply) =
      delete_objects platform 100 batch_request (some (k1 ∷ k1 ∷ [])) one_object in
    (after ≡ one_object) × ¬ (reply ≡ succeeded 200 none)
    ⊎ (reply ≡ succeeded 200 none)
      × ((other j : Text)
          → find_object other j after.objects ≡ (
              if text_eq b1 other && any (λ k. text_eq k j) (k1 ∷ k1 ∷ [])
              then none
              else find_object other j one_object.objects))
delete_objects-find_object_example =
    delete_objects-find_object platform 100 batch_request (k1 ∷ k1 ∷ []) one_object

copy_object-IsCopyResult_example :
    IsCopyResult platform 100 7 copy_request old_row one_object
      (copy_object platform 100 7 copy_request (b1, k1) old_row one_object)
copy_object-IsCopyResult_example =
    copy_object-IsCopyResult platform 100 7 copy_request old_row one_object (b1, k1)

complete_upload-IsAnswer_example :
    IsAnswer platform 100 7 test_iv complete_request one_upload
      (part_list (1 ∷ []) (codes "e" ∷ []))
      (complete_upload platform 100 7 test_iv complete_request
        (part_list (1 ∷ []) (codes "e" ∷ []))
        one_upload)
complete_upload-IsAnswer_example =
    complete_upload-IsAnswer platform 100 7 test_iv complete_request one_upload plain_gcm_laws refl
      (part_list (1 ∷ []) (codes "e" ∷ []))
