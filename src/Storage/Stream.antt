-- ===== src/Storage/Stream.antt =====
-- backend/src/storage/crypto.ts: `sliceStream`, on the pieces in which the source's bytes come.
pub mod Slices
use r2storage.Prelude.{
  List, [], drop, if◌then◌else◌, leb, length, ltb, min, take, ℕ, ◌++◌, ◌+◌, ◌-◌, ◌∷◌,
}
use r2storage.Store.{Bytes}

-- The piece's bytes that are written out, at the place where the piece starts.
unfoldable pub slice_piece : ℕ → ℕ → ℕ → Bytes → Bytes
slice_piece start end chunk_start c =
    let from = start - chunk_start in
    let to = min (length c) (end + 1 - chunk_start) in
    if ltb from to then drop from (take to c) else []

unfoldable pub slice_stream : ℕ → ℕ → ℕ → List Bytes → Bytes
unfolding slice_piece
slice_stream start end place [] = []
slice_stream start end place (c ∷ cs) =
    let rest = slice_stream start end (place + length c) cs in
    if leb (place + length c) start
    then rest
    else if ltb end place
    then []
    else if leb (end + 1) (place + min (length c) (end + 1 - place))
    then slice_piece start end place c
    else slice_piece start end place c ++ rest
