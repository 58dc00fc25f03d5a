-- ===== src/S3.antt =====
-- backend/src/api/s3.ts and the modules that it calls: requests, replies, and who may do what.
-- A reply is its status with the S3 error code, or with the ETag that a success reports; the XML
-- texts and the remaining headers are left out. The result of S3Auth.authenticateRequest is a field
-- of the request, and so is what reading its body gives.
pub mod Checks
pub mod Tagging
pub mod Put
pub mod Copy
pub mod Multipart
pub mod Delete
pub mod Listing
pub mod Chunked
pub mod Cors
pub mod Config
pub mod Get
pub mod Tests
use r2storage.Prelude.{
  Bool, List, Option, String, Text, [], codes, false, get_or_else, if◌then◌else◌, is_some, none,
  not, parse_nat, some, text_eq, ℕ, ◌&&◌, ◌==◌, ◌||◌,
}
use r2storage.Range.Preconditions.{Headers, header, lookup_text, raw_header}
use r2storage.Store.{Bytes}

pub record AuthResult : Type 0 where
  pub authenticated : Bool
  pub permission : Text
  pub bucket_filter : Option Text

-- The codes of AwsChunkError.
pub data ChunkCode : Type 0 where
  signature_does_not_match invalid_request : ChunkCode

-- What `requestBodyStream` and the reading of its stream give: a refusal before any byte is read
-- (`decodeAwsChunked` throws), a stream that fails (with an AwsChunkError or any other error), or the
-- payload with the checksum of the trailer.
pub data BodyRead : Type 0 where
  refused : ChunkCode → BodyRead
  broken : Option ChunkCode → BodyRead
  whole : Bytes → Option Text → BodyRead

pub record Request : Type 0 where
  pub bucket_name : Text
  pub key : Text
  pub query : List (Text × Text)
  pub headers : Headers
  pub auth : AuthResult
  pub body : BodyRead

pub data Reply : Type 0 where
  failed : ℕ → String → Reply
  succeeded : ℕ → Option Text → Reply

-- The status and the code of an error that a check reports.
abbrev pub S3Error : Type 0
S3Error = ℕ × String

abbrev pub rejection : S3Error → Reply
rejection (status, code) = failed status code

-- `query[name] !== undefined`
unfoldable pub has_query : Request → String → Bool
has_query r name = is_some (lookup_text (codes name) r.query)

pub data Access : Type 0 where
  read_access write_access full_access : Access

-- `auth.bucketFilter && auth.bucketFilter !== bucketName`
out_of_scope : Option Text → Text → Bool
out_of_scope none bucket = false
out_of_scope (some f) bucket = not (text_eq f []) && not (text_eq f bucket)

-- The part of permissionDenied that reads the permission.
unfoldable pub lacks_permission : Text → Access → Bool
lacks_permission permission read_access = text_eq permission (codes "WRITE_ONLY")
lacks_permission permission write_access = text_eq permission (codes "READ_ONLY")
lacks_permission permission full_access = not (text_eq permission (codes "FULL"))

unfoldable pub permission_denied : AuthResult → Text → Access → Bool
unfolding out_of_scope
permission_denied auth bucket required =
    out_of_scope auth.bucket_filter bucket || lacks_permission auth.permission required

-- The two checks that every authorised route makes first: nothing, or the 403 reply.
unfoldable pub refuses : Request → Access → Bool
refuses r required = not r.auth.authenticated || permission_denied r.auth r.bucket_name required

abbrev pub denied_reply : Reply
denied_reply = failed 403 "AccessDenied"

-- awsChunkErrorReply, and the 500 of an error that the route throws on.
unfoldable pub chunk_error_reply : ChunkCode → Reply
chunk_error_reply signature_does_not_match = failed 403 "SignatureDoesNotMatch"
chunk_error_reply invalid_request = failed 400 "InvalidRequest"

unfoldable pub stream_error_reply : Option ChunkCode → Reply
unfolding chunk_error_reply
stream_error_reply none = failed 500 "InternalError"
stream_error_reply (some c) = chunk_error_reply c

-- `parseInt(query.partNumber)` where it is at least 1, with a non-empty uploadId.
unfoldable pub part_target : Request → Option (Text × ℕ)
part_target r = elim (header r.query "uploadId") [
  | none ↦ none
  | some id ↦ elim (raw_header r.query "partNumber") [
    | none ↦ none
    | some n ↦ elim (parse_nat n) [ none ↦ none | some k ↦ if k == 0 then none else some (id, k) ]
  ]
]

-- The declared size: x-amz-decoded-content-length, else Content-Length, which the HTTP parser only
-- lets through as a number, else 0.
unfoldable pub declared_length : Headers → ℕ
declared_length h =
    let content_length =
      get_or_else (parse_nat (get_or_else (header h "content-length") (codes "0"))) 0 in
    elim (parse_nat (get_or_else (raw_header h "x-amz-decoded-content-length") [])) [
      | none ↦ content_length
      | some n ↦ n
    ]
