-- ===== src/Lib.antt =====
-- r2storage: verification of the backend of r2storage, an S3-compatible object store with a dashboard.
--
-- The program. backend/src/api/s3.ts serves the S3 routes. A request is authenticated
-- (auth/s3auth.ts), checked against the permission of its key, and then reads or writes rows of an
-- SQLite database (backend/prisma/schema.prisma) and files of the storage engine (storage/engine.ts), which
-- encrypts them at rest (storage/crypto.ts) and computes their checksums (storage/crc32.ts). Bodies in
-- the aws-chunked framing go through a decoder (api/aws-chunked.ts) first. Conditional and range
-- headers are evaluated by api/range.ts, tags by api/tags.ts, metadata by api/metadata.ts, headers of
-- customer keys by api/ssec.ts, and every write asks quota.ts whether it fits. The dashboard logs in
-- through api/auth.ts, which uses auth/lockout.ts, auth/totp.ts and auth/session.ts. Public buckets are
-- also served by host name (api/public.ts), the dashboard manages buckets, keys and domains
-- (api/admin.ts), and a timer expires objects and old rows (maintenance.ts).
-- The control plane, platform/, sells such a backend per customer: it provisions a container for a
-- domain (platform/lib/provision.ts), routes the domain to its port (platform/lib/nginx.ts), and sets
-- the tenant's quota by the customer's plan, which Stripe's events change (platform/lib/stripe.ts).
--
-- The modules. Paths that do not begin with backend or platform are below backend/src.
--   Prelude      lists by native numbers, Boolean tests, JavaScript strings as lists of code units.
--   Range        api/range.ts: parse_range_header is parseRangeHeader; Range.Preconditions has
--                notModified, readPreconditionFailed and checkWritePreconditions.
--   Auth         Lockout is auth/lockout.ts with its module variables as one record; Session is
--                auth/session.ts over the list of its rows; Totp is auth/totp.ts; Login is api/auth.ts
--                and auth/secrets.ts over the lockout, the sessions and the failed logins; S3Auth is
--                auth/s3auth.ts: Canonical the canonical request, Verify the three ways of
--                authentication, Presign the generated URLs.
--   Store        the tables of backend/prisma/schema.prisma that the S3 routes use and the files on disk, as the
--                record World; its functions are the Prisma calls and the file operations.
--   Quota        quota.ts.
--   Storage      Crc32, Blob and Stream (crypto.ts) and Engine (engine.ts). A Platform is a record of
--                the functions of Node that are used: digests, base64, URI decoding, AES-GCM,
--                Date.parse.
--   S3           api/s3.ts: S3 itself has requests, replies and permissions; Checks the integrity checks
--                and api/ssec.ts; Tagging api/tags.ts and api/metadata.ts; Put the PutObject and
--                UploadPart branches; Copy CopyObject and UploadPartCopy; Multipart the creation,
--                completion and abortion of uploads; Delete the deletions and the PUT route as a whole;
--                Listing the pages of ListObjects and ListMultipartUploads; Chunked the decoder of
--                api/aws-chunked.ts, over any function that gives a chunk's signature, which
--                Chunked.Signature defines; Get the reads of objects and ListBuckets; Cors api/cors.ts;
--                Config the configuration of buckets with api/lifecycle.ts.
--   Public       api/public.ts.
--   Admin        api/admin.ts: Admin has the guard, keys, presigned URLs and the quota; Buckets the
--                buckets and the objects of the dashboard; Domains the custom domains.
--   Maintenance  maintenance.ts, sweep by sweep, over World and the lists of times of logged rows; the
--                prefix of a lifecycle rule is matched by like_prefix, as SQLite does for Prisma.
--   Platform     platform/lib and platform/app/api/instances: the tables as the record PlatformState;
--                Domains has domain names, ports and the map file, Provision provision.ts, Billing
--                stripe.ts and plans.ts, Sessions session.ts, Routes the routes of instances. The
--                record Answers holds what Docker, the tenant, Cloudflare and nginx answer.
-- The modules below these, such as S3.Put.Quota, hold the proofs; the modules Tests hold runs at
-- concrete inputs.
--
-- Conventions. A handler is a function from the clock, the random values, the request and the World to
-- the new World and a reply; one call runs without interleaving, so races between two requests are not
-- covered. A reply keeps the status and the S3 error code, or the ETag; a read also keeps its headers
-- and its bytes. XML texts and the other response headers are left out. Instants before 1970 are
-- negative integers where a date of a client can give one. Reading a body is a value of BodyRead: a
-- refusal, a stream that fails, or the payload. A blob is read as a stream by read_object, which refuses
-- a truncated one, and as a buffer by read_buffer, which passes it through.
-- Numbers are natural numbers: sizes and times are exact below 2^53, and a subtraction of the source
-- that can be negative is written as a comparison of sums. A file that is written by way of a temporary
-- name is written at once. The loop of the aws-chunked decoder runs on fuel: twice the length of the
-- buffer, one more in the data state, and one turn to stop, of which transform-Rests shows that it is
-- enough. The search for a port runs once for each port of the range, and the digits of a number are
-- written for numbers below 10^20.
--
-- Not modelled: XML rendering and the regular expressions that read XML bodies (in api/s3.ts,
-- api/cors.ts, api/lifecycle.ts and api/tags.ts), whose captures are inputs; the routes of api/admin.ts
-- that only list rows, auth/allowlist.ts, auth/audit.ts, the sweep of temporary files, logging,
-- configuration, the usage collection, signup and login of the platform, the calls of the Stripe client
-- and the web pages.
pub mod Prelude
pub mod Range
pub mod Auth
pub mod Store
pub mod Quota
pub mod Storage
pub mod S3
pub mod Platform
pub mod Maintenance
pub mod Public
pub mod Admin
