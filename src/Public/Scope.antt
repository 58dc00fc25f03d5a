-- ===== src/Public/Scope.antt =====
-- What a host may give away.
use mathlib.Core.List.{flatten}
use r2storage.Prelude.{
  Bool-cases, List, Option, Option-cases, Text, [], drop, false, inl, inr, is_some, none, refl,
  some, subst, sym, take, text_eq, true, ℕ, ◌&&◌, ◌+◌, ◌-◌, ◌||◌, ◌≡◌, ◌≤◌, ◌⊎◌,
}
use r2storage.Public.{
  handled, host_bucket, public_headers, public_key, request_host, serve_key, serve_row,
  try_serve_public_object,
}
use r2storage.Range.{RangeSpec, full, invalid, parse_range_header, partial}
use r2storage.Range.Bounds.{parse_range_header-bounds}
use r2storage.Range.Preconditions.{Headers, header, not_modified}
use r2storage.S3.{Request}
use r2storage.S3.Get.{GetReply, content_reply, read_range, send_content, unmodified}
use r2storage.S3.Get.Served.{maybe_decrypt-plain, read_range-slice, read_version}
use r2storage.Storage.Blob.{is_encrypted, maybe_decrypt, refuses_blob, stream_decrypt}
use r2storage.Storage.Engine.{Platform, read_object}
use r2storage.Store.{Bucket, Bytes, FilePath, ObjectRow, World, find_bucket, find_object, read_file}

-- A reply that carries an object's bytes or confirms its version.
abbrev pub Reveals : GetReply → Type 0
Reveals (content_reply status h n range bytes) = Unit
Reveals unmodified = Unit
Reveals other = ⊥

handled_inj : {a b : GetReply} → handled a ≡ handled b → a ≡ b
handled_inj h = cc

module _ (pf : Platform) (pieces : Bytes → List Bytes)
    (cuts : (b : Bytes) → flatten (pieces b) ≡ b) where
  -- The bytes of a content reply, if reading them does not fail, are the plaintext of the object's
  -- blob with status 200, or with 206 the positions of its Content-Range; 304 confirms the object's
  -- own version.
  abbrev pub IsOf : Request → ObjectRow → World → GetReply → Type 0
  IsOf r o w (content_reply status h n range body) =
      (body ≡ none)
      ⊎ ((plain : Bytes) × (read_object pf o.storage_path w ≡ some plain)
          × (((status ≡ 200) × (range ≡ none) × (body ≡ some plain))
              ⊎ ((start : ℕ) × (end : ℕ) × (status ≡ 206)
                  × (range ≡ some (start, end))
                  × (body ≡ some (take (end - start + 1) (drop start plain))))))
  IsOf r o w unmodified = not_modified pf.date_parse r.headers (read_version o) ≡ true
  IsOf r o w other = Unit

  read_range-unreadable :
      (stored : Bytes) (start end : ℕ)
      → maybe_decrypt pf.gcm pf.enc_key stored ≡ none
      → read_range pf pieces stored start end ≡ none
  unfolding read_range
  read_range-unreadable stored start end h =
      elim (Bool-cases (is_some pf.enc_key && is_encrypted stored)) [
        | inl e ↦ rw (e, h) refl
        | inr e ↦ absurd (cc (h, maybe_decrypt-plain pf pieces cuts stored e))
      ]

  streamed :
      (p : FilePath) (w : World) (stored plain : Bytes)
      → read_file p w.files ≡ some stored
      → refuses_blob pf.enc_key stored ≡ false
      → maybe_decrypt pf.gcm pf.enc_key stored ≡ some plain
      → read_object pf p w ≡ some plain
  unfolding read_object stream_decrypt
  streamed p w stored plain e kept h = rw (e, read_object, kept) h

  send_content-IsOf :
      (r : Request) (h : Headers) (o : ObjectRow) (w : World) (spec : RangeSpec)
      → ((s e n : ℕ) → spec ≡ partial s e n → s ≤ e)
      → IsOf r o w (send_content pf pieces h o spec w)
  unfolding send_content
  send_content-IsOf r h o w invalid bounds = tt
  send_content-IsOf r h o w full bounds = elim (Option-cases (read_file o.storage_path w.files)) [
    | inl e ↦ rw (e, send_content) tt
    | inr (stored, e) ↦ elim (Bool-cases (refuses_blob pf.enc_key stored)) [
      | inl refused_blob ↦ rw (e, send_content, refused_blob) tt
      | inr kept ↦ elim (Option-cases (maybe_decrypt pf.gcm pf.enc_key stored)) [
        | inl bad ↦ rw (e, send_content, kept) (inl bad)
        | inr (plain, good) ↦
            rw (e, send_content, kept)
              (inr
                (plain, streamed o.storage_path w stored plain e kept good, inl (refl, refl, good)))
      ]
    ]
  ]
  send_content-IsOf r h o w (partial start end size) bounds =
      elim (Option-cases (read_file o.storage_path w.files)) [
        | inl e ↦ rw (e, send_content) tt
        | inr (stored, e) ↦ elim (Bool-cases (refuses_blob pf.enc_key stored)) [
          | inl refused_blob ↦ rw (e, send_content, refused_blob) tt
          | inr kept ↦ elim (Option-cases (maybe_decrypt pf.gcm pf.enc_key stored)) [
            | inl bad ↦
                rw (e, send_content, kept) (inl (read_range-unreadable stored start end bad))
            | inr (plain, good) ↦
                rw (e, send_content, kept)
                  (inr (
                    plain,
                    streamed o.storage_path w stored plain e kept good,
                    inr (
                      start,
                      end,
                      refl,
                      refl,
                      read_range-slice pf pieces cuts stored plain start end good
                          (bounds start end size refl),
                    ),
                  ))
          ]
        ]
      ]

  serve_row-IsOf :
      (base_domain : Text) (r : Request) (bucket : Bucket) (o : ObjectRow) (w : World)
      → IsOf r o w (serve_row pf pieces base_domain r bucket o w)
  unfolding serve_row
  serve_row-IsOf base_domain r bucket o w = elim (Option-cases (read_file o.storage_path w.files)) [
    | inl e ↦ rw (e, serve_row) tt
    | inr (stored, e) ↦ elim (Bool-cases (refuses_blob pf.enc_key stored)) [
      | inl refused_blob ↦ rw (e, serve_row, refused_blob) tt
      | inr kept ↦ elim (Bool-cases (not_modified pf.date_parse r.headers (read_version o))) [
        | inl same ↦ rw (e, serve_row, kept, same) same
        | inr changed ↦
            rw (e, serve_row, kept, changed)
              (send_content-IsOf r (public_headers pf pieces base_domain r bucket o) o w
                (parse_range_header (header r.headers "range") o.size)
                (λ s t n h.
                  (parse_range_header-bounds (header r.headers "range") o.size s t n h).0))
      ]
    ]
  ]

module _ (pf : Platform) (pieces : Bytes → List Bytes) (cuts : (b : Bytes) → flatten (pieces b) ≡ b)
    (base_domain : Text) where
  serve_key-public :
      (r : Request) (bucket_name k : Text) (w : World)
      → Reveals (serve_key pf pieces base_domain r bucket_name k w)
      → (bucket : Bucket) × (o : ObjectRow) × (find_bucket bucket_name w.buckets ≡ some bucket)
        × (bucket.is_public ≡ true)
        × (find_object bucket_name k w.objects ≡ some o)
        × IsOf pf pieces cuts r o w (serve_key pf pieces base_domain r bucket_name k w)
  unfolding serve_key
  serve_key-public r bucket_name k w h = elim (Option-cases (find_bucket bucket_name w.buckets)) [
    | inl e ↦ absurd (rw (e, serve_key) at h)
    | inr (bucket, e) ↦ elim (Bool-cases bucket.is_public) [
      | inr closed ↦ absurd (rw (e, serve_key, closed) at h)
      | inl opened ↦ elim (Option-cases (find_object bucket_name k w.objects)) [
        | inl missing ↦ absurd (rw (e, serve_key, opened, missing) at h)
        | inr (o, found) ↦ (
          bucket,
          o,
          e,
          opened,
          found,
          rw (e, serve_key, opened, found) (serve_row-IsOf pf pieces cuts base_domain r bucket o w),
        )
      ]
    ]
  ]

  -- A request without credentials that is answered with an object's bytes, or with 304, names by its
  -- host a bucket of a custom domain or of the base domain, which exists and is public, and the object
  -- is that bucket's under the request's key: the bytes, if the blob can be read, are those of its
  -- plaintext that the reply's Content-Range names, or all of it, and 304 confirms its version.
  pub try_serve_public_object-public :
      (domains : List (Text × Text)) (r : Request) (url : Text) (explicit : Option Text) (w : World)
      (reply : GetReply)
      → try_serve_public_object pf pieces base_domain domains r url explicit w ≡ handled reply
      → Reveals reply
      → (name : Text) × (k : Text) × (bucket : Bucket) × (o : ObjectRow) × (host_bucket pf pieces
            base_domain domains
            (request_host r.headers)
          ≡ some name)
        × (public_key pf pieces base_domain explicit url ≡ some k)
        × (find_bucket name w.buckets ≡ some bucket)
        × (bucket.is_public ≡ true)
        × (find_object name k w.objects ≡ some o)
        × IsOf pf pieces cuts r o w reply
  unfolding try_serve_public_object
  try_serve_public_object-public domains r url explicit w reply h reveals =
      elim (Option-cases (public_key pf pieces base_domain explicit url)) [
        | inl e ↦ absurd (cc (rw (e, try_serve_public_object) at h))
        | inr (k, e) ↦
            elim (Option-cases
              (host_bucket pf pieces base_domain domains (request_host r.headers))) [
                | inl e' ↦ absurd (cc (rw (e, e', try_serve_public_object) at h))
                | inr (name, e') ↦ elim (Bool-cases (text_eq name [] || text_eq k [])) [
                  | inl blank ↦ absurd (cc (rw (e, e', blank, try_serve_public_object) at h))
                  | inr named ↦
                      let given : handled (serve_key pf pieces base_domain r name k w)
                          ≡ handled reply =
                        rw (e, e', named, try_serve_public_object) at h in
                      let (bucket, o, known, opened, found, shown) =
                        serve_key-public r name k w
                          (subst Reveals (sym (handled_inj given)) reveals) in
                      (
                        name,
                        k,
                        bucket,
                        o,
                        e',
                        e,
                        known,
                        opened,
                        found,
                        subst (IsOf pf pieces cuts r o w) (handled_inj given) shown,
                      )
                ]
              ]
      ]
