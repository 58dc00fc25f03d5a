-- ===== src/Public/Tests.antt =====
-- A run of the public hosts.
use mathlib.Core.List.{flatten}
use r2storage.Prelude.{
  List, Text, [], append-nil, codes, false, lower, none, refl, some, strip_prefix, text_eq,
  to_lower, true, ◌∷◌, ◌≡◌,
}
use r2storage.Public.{
  drop_slashes, host_bucket, public_key, remove_first, request_host, serve_key, serve_row,
  strip_suffix, try_serve_public_object,
}
use r2storage.Public.Scope.{IsOf, try_serve_public_object-public}
use r2storage.Range.{parse_range_header, resolve_match}
use r2storage.Range.Preconditions.{header, lookup_text, nonempty, not_modified}
use r2storage.S3.{Request}
use r2storage.S3.Chunked.{cut_at}
use r2storage.S3.Get.{GetReply, send_content}
use r2storage.S3.Tests.{b1, fresh_put, k1, one_object, platform}
use r2storage.Storage.Blob.{refuses_blob}
use r2storage.Store.{Bucket, Bytes, ObjectRow, World, find_bucket, find_object, path_eq, read_file}

abbrev open_world : World
open_world = record one_object {
  buckets =
      record {
        name = b1;
        is_public = true;
        tags = none;
        cors_origins = [];
        cors_rules = [];
        lifecycle_rules = [];
      }
      ∷ [];
}

abbrev visit : Request
visit = record fresh_put {
  headers = (codes "host", codes "b.io.io:80") ∷ [];
  auth = record { authenticated = false; permission = []; bucket_filter = none };
}

abbrev whole_pieces : Bytes → List Bytes
whole_pieces b = b ∷ []

abbrev page : GetReply
page = serve_key platform whole_pieces (codes "io.io") visit b1 k1 open_world

flatten-whole_pieces : (b : Bytes) → flatten (whole_pieces b) ≡ b
unfolding flatten
flatten-whole_pieces b = append-nil b

try_serve_public_object-public_example :
    (name : Text) × (k : Text) × (bucket : Bucket) × (o : ObjectRow) × (host_bucket platform
        whole_pieces
        (codes "io.io")
        []
        (request_host visit.headers)
      ≡ some name)
    × (public_key platform whole_pieces (codes "io.io") none (codes "/k") ≡ some k)
    × (find_bucket name open_world.buckets ≡ some bucket)
    × (bucket.is_public ≡ true)
    × (find_object name k open_world.objects ≡ some o)
    × IsOf platform whole_pieces flatten-whole_pieces visit o open_world page
unfolding try_serve_public_object lookup_text strip_suffix strip_prefix request_host to_lower lower
    cut_at header text_eq remove_first drop_slashes host_bucket public_key find_bucket find_object
    read_file path_eq not_modified serve_key serve_row send_content parse_range_header resolve_match
    nonempty refuses_blob
try_serve_public_object-public_example =
    try_serve_public_object-public platform whole_pieces flatten-whole_pieces (codes "io.io") []
      visit (codes "/k") none open_world page refl tt
