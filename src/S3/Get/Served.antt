-- ===== src/S3/Get/Served.antt =====
-- What a GET of an object answers, and that it gives back what a PUT stored.
use mathlib.Core.List.{flatten}
use r2storage.Prelude.{
  Bool-cases, List, Option, Option-cases, Text, ap, arith, drop, false, inl, inr, is_some, length,
  length-drop, length-take, none, refl, some, some_inj, subst, sym, take, true, ℕ, ◌&&◌, ◌+◌, ◌-◌,
  ◌<◌, ◌∙◌, ◌≡◌, ◌≤◌,
}
use r2storage.Range.{RangeSpec, full, invalid, parse_range_header, partial}
use r2storage.Range.Bounds.{parse_range_header-bounds}
use r2storage.Range.Preconditions.{
  Headers, Version, header, not_modified, raw_header, read_precondition_failed,
}
use r2storage.S3.{Request, has_query, succeeded, whole}
use r2storage.S3.Checks.{sse_c_error, validate_sse_c}
use r2storage.S3.Get.{
  GetReply, checksum_mode, content_reply, found_object, get_failed, get_object, get_resource,
  may_read, no_checksum, object_headers, read_range, send_content, send_object,
}
use r2storage.S3.Put.{store_object}
use r2storage.S3.Put.Overwrite.{store_object-read_object}
use r2storage.Storage.Blob.{GcmLaws, is_encrypted, iv_len, maybe_decrypt}
use r2storage.Storage.Blob.RoundTrip.{stream_decrypt-some}
use r2storage.Storage.Engine.{Platform, read_object}
use r2storage.Storage.Stream.Slices.{slice_stream-take}
use r2storage.Store.{Bucket, Bytes, ObjectRow, World, find_bucket, find_object, read_file}

-- The version that the conditions of a request are tested on.
abbrev pub read_version : ObjectRow → Version
read_version o = record { etag = o.etag; updated_at = o.updated_at }

-- The reply that a range specification asks for on an object of these bytes.
abbrev pub Served : Bytes → Headers → RangeSpec → GetReply → Type 0
Served b h full reply = reply ≡ content_reply 200 h (length b) none (some b)
Served b h invalid reply = reply ≡ get_failed 416 "InvalidRange"
Served b h (partial start end size) reply =
    (reply ≡ content_reply 206 h size (some (start, end)) (some (take size (drop start b))))
    × (length (take size (drop start b)) ≡ size)

module _ (pf : Platform) (pieces : Bytes → List Bytes)
    (cuts : (b : Bytes) → flatten (pieces b) ≡ b) where
  pub maybe_decrypt-plain :
      (stored : Bytes)
      → (is_some pf.enc_key && is_encrypted stored) ≡ false
      → maybe_decrypt pf.gcm pf.enc_key stored ≡ some stored
  unfolding maybe_decrypt
  maybe_decrypt-plain stored h = elim (Option-cases pf.enc_key) [
    | inl e ↦ rw (e, maybe_decrypt) refl
    | inr (k, e) ↦
        let plain : is_encrypted stored ≡ false = rw e at h in rw (e, maybe_decrypt, plain) refl
  ]

  pub read_range-slice :
      (stored plain : Bytes) (start end : ℕ)
      → maybe_decrypt pf.gcm pf.enc_key stored ≡ some plain
      → start ≤ end
      → read_range pf pieces stored start end ≡ some (take (end - start + 1) (drop start plain))
  unfolding read_range
  read_range-slice stored plain start end h le =
      elim (Bool-cases (is_some pf.enc_key && is_encrypted stored)) [
        | inl e ↦
            rw (e, h)
              (ap some (
                slice_stream-take start end (pieces plain) le
                ∙ ap (λ b. take (end - start + 1) (drop start b)) (cuts plain)))
        | inr e ↦
            let same : stored ≡ plain = some_inj (sym (maybe_decrypt-plain stored e) ∙ h) in
            rw e (ap (λ b. some (take (end - start + 1) (drop start b))) same)
      ]

  length-slice :
      (b : Bytes) (start end : ℕ)
      → start ≤ end
      → end < length b
      → length (take (end - start + 1) (drop start b)) ≡ end - start + 1
  length-slice b start end h h' =
      omega (arith, h, h', length-take (end - start + 1) (drop start b), length-drop start b)

  spec-Served :
      (h : Headers) (o : ObjectRow) (w : World) (plain : Bytes) (spec : RangeSpec)
      → read_object pf o.storage_path w ≡ some plain
      → o.size ≡ length plain
      → ((s e n : ℕ) → spec ≡ partial s e n → (s ≤ e) × (e < length plain) × (n ≡ e - s + 1))
      → Served plain h spec (send_content pf pieces h o spec w)
  unfolding send_content read_object
  spec-Served h o w plain invalid readable sized bounds = refl
  spec-Served h o w plain full readable sized bounds =
      elim (Option-cases (read_file o.storage_path w.files)) [
        | inl e ↦ absurd (cc (rw (e, read_object) at readable))
        | inr (stored, e) ↦
            let (kept, plaintext) =
              stream_decrypt-some pf.gcm pf.enc_key stored plain
                (rw (e, read_object) at readable) in
            rw (e, send_content, kept, plaintext, sized) refl
      ]
  spec-Served h o w plain (partial start end size) readable sized bounds =
      let (le, inside, counted) = bounds start end size refl in
      elim (Option-cases (read_file o.storage_path w.files)) [
        | inl e ↦ absurd (cc (rw (e, read_object) at readable))
        | inr (stored, e) ↦
            let (kept, plaintext) =
              stream_decrypt-some pf.gcm pf.enc_key stored plain
                (rw (e, read_object) at readable) in
            rw (e, send_content, kept, counted)
              (
                ap (content_reply 206 h (end - start + 1) (some (start, end)))
                    (read_range-slice stored plain start end plaintext le),
                length-slice plain start end le inside,
              )
      ]

  send_content-Served :
      (h : Headers) (o : ObjectRow) (w : World) (plain : Bytes) (range : Option Text)
      → read_object pf o.storage_path w ≡ some plain
      → o.size ≡ length plain
      → Served plain h
          (parse_range_header range (length plain))
          (send_content pf pieces h o (parse_range_header range o.size) w)
  send_content-Served h o w plain range readable sized =
      subst
        (λ n.
          Served plain h (parse_range_header range (length plain))
            (send_content pf pieces h o (parse_range_header range n) w))
        (sym sized)
        (spec-Served h o w plain (parse_range_header range (length plain)) readable sized
          (λ s e n. parse_range_header-bounds range (length plain) s e n))

  get_object-resource :
      (g : Request) (w : World) (bucket : Bucket)
      → find_bucket g.bucket_name w.buckets ≡ some bucket
      → may_read pf pieces g bucket ≡ true
      → get_object pf pieces g w ≡ get_resource pf pieces g bucket w
  unfolding get_object
  get_object-resource g w bucket hb hr = rw (hb, get_object, hr) refl

  get_resource-object :
      (g : Request) (w : World) (bucket : Bucket) (o : ObjectRow)
      → checksum_mode g.headers ≡ no_checksum
      → has_query g "tagging" ≡ false
      → has_query g "attributes" ≡ false
      → raw_header g.query "uploadId" ≡ none
      → find_object g.bucket_name g.key w.objects ≡ some o
      → get_resource pf pieces g bucket w ≡ send_object pf pieces g bucket no_checksum o w
  unfolding get_resource found_object
  get_resource-object g w bucket o hm ht ha hu ho =
      rw (hm, get_resource, ht, ha, hu, ho, found_object, hm) refl

  send_object-content :
      (g : Request) (w : World) (bucket : Bucket) (o : ObjectRow)
      → sse_c_error pf (validate_sse_c pf g.headers false) ≡ none
      → read_precondition_failed pf.date_parse g.headers (read_version o) ≡ false
      → not_modified pf.date_parse g.headers (read_version o) ≡ false
      → send_object pf pieces g bucket no_checksum o w
        ≡ send_content pf pieces
            (object_headers g bucket o (validate_sse_c pf g.headers false) no_checksum)
            o
            (parse_range_header (header g.headers "range") o.size)
            w
  unfolding send_object
  send_object-content g w bucket o hs hp hn = rw (hs, send_object, hp, hn) refl

  get_object-Served :
      (g : Request) (w : World) (bucket : Bucket) (o : ObjectRow) (plain : Bytes)
      → find_bucket g.bucket_name w.buckets ≡ some bucket
      → may_read pf pieces g bucket ≡ true
      → checksum_mode g.headers ≡ no_checksum
      → has_query g "tagging" ≡ false
      → has_query g "attributes" ≡ false
      → raw_header g.query "uploadId" ≡ none
      → find_object g.bucket_name g.key w.objects ≡ some o
      → sse_c_error pf (validate_sse_c pf g.headers false) ≡ none
      → read_precondition_failed pf.date_parse g.headers (read_version o) ≡ false
      → not_modified pf.date_parse g.headers (read_version o) ≡ false
      → read_object pf o.storage_path w ≡ some plain
      → o.size ≡ length plain
      → Served plain
          (object_headers g bucket o (validate_sse_c pf g.headers false) no_checksum)
          (parse_range_header (header g.headers "range") (length plain))
          (get_object pf pieces g w)
  get_object-Served g w bucket o plain hb hr hm ht ha hu ho hs hp hn readable sized =
      let h = object_headers g bucket o (validate_sse_c pf g.headers false) no_checksum in
      let range = header g.headers "range" in
      subst (Served plain h (parse_range_header range (length plain)))
        (sym (
          get_object-resource g w bucket hb hr
          ∙ get_resource-object g w bucket o hm ht ha hu ho
          ∙ send_object-content g w bucket o hs hp hn))
        (send_content-Served h o w plain range readable sized)

module _ (pf : Platform) (pieces : Bytes → List Bytes) (cuts : (b : Bytes) → flatten (pieces b) ≡ b)
    (boot_quota now : ℕ) (iv : Bytes) (r : Request) (w : World) where
  -- For a cipher with the documented laws and an IV of 12 bytes: after a PutObject that succeeded, a
  -- GET of its key by anyone who may read the bucket, that names no subresource and no checksum mode,
  -- whose customer-key headers are not refused, and whose conditions the stored version passes, gives
  -- the payload back: whole with status 200; or with status 206, exactly the positions that the Range
  -- header's specification selects, Content-Length being their number; or 416 where that is invalid.
  -- This holds whatever the pieces in which the blob comes through the decipher.
  pub get_object-store_object :
      (w' : World) (status : ℕ) (etag : Option Text) (g : Request) (bucket : Bucket)
      (row : ObjectRow)
      → GcmLaws pf.gcm
      → length iv ≡ iv_len
      → store_object pf boot_quota now iv r w ≡ (w', succeeded status etag)
      → g.bucket_name ≡ r.bucket_name
      → g.key ≡ r.key
      → find_bucket g.bucket_name w'.buckets ≡ some bucket
      → find_object r.bucket_name r.key w'.objects ≡ some row
      → may_read pf pieces g bucket ≡ true
      → checksum_mode g.headers ≡ no_checksum
      → has_query g "tagging" ≡ false
      → has_query g "attributes" ≡ false
      → raw_header g.query "uploadId" ≡ none
      → sse_c_error pf (validate_sse_c pf g.headers false) ≡ none
      → read_precondition_failed pf.date_parse g.headers (read_version row) ≡ false
      → not_modified pf.date_parse g.headers (read_version row) ≡ false
      → (bytes : Bytes) × (trailer : Option Text) × (r.body ≡ whole bytes trailer)
        × (etag ≡ some row.etag)
        × Served bytes
            (object_headers g bucket row (validate_sse_c pf g.headers false) no_checksum)
            (parse_range_header (header g.headers "range") (length bytes))
            (get_object pf pieces g w')
  get_object-store_object w' status etag g bucket row laws hi e same_bucket same_key hb there hr hm
        ht ha hu hs hp hn =
      let stored = store_object-read_object pf boot_quota now iv r w w' status etag laws hi e in
      let same : stored.row ≡ row = some_inj (sym stored.listed ∙ there) in
      let listed : find_object g.bucket_name g.key w'.objects ≡ some row =
        rw (same_bucket, same_key) there in
      (
        stored.bytes,
        stored.trailer,
        stored.received,
        stored.reported ∙ ap (λ o. some o.etag) same,
        get_object-Served pf pieces cuts g w' bucket row stored.bytes hb hr hm ht ha hu listed hs hp
            hn
            (subst (λ o. read_object pf o.storage_path w' ≡ some stored.bytes) same stored.readable)
            (subst (λ o. o.size ≡ length stored.bytes) same stored.sized),
      )
