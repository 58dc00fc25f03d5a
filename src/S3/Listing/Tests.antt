-- ===== src/S3/Listing/Tests.antt =====
-- Runs of the listing code.
use r2storage.Prelude.{All, List, Text, [], codes, false, length, some, ◌∷◌, ◌≡◌, ◌≤◌}
use r2storage.S3.Listing.{content, keys_after, list_objects, next_marker}
use r2storage.S3.Listing.Coverage.{IsListed, list_objects-IsListed}
use r2storage.S3.Listing.Resume.{list_objects_skips_marker}

abbrev three_keys : List Text
three_keys = codes "a/1" ∷ codes "a/2" ∷ codes "b" ∷ []

list_objects-IsListed_example :
    let page = list_objects [] (codes "/") 2 [] three_keys in
    (length page.items ≤ 2)
    × (page.truncated ≡ false
        → All (λ k. IsListed [] (codes "/") 2 k page.items) (keys_after [] three_keys))
list_objects-IsListed_example = list_objects-IsListed [] (codes "/") 2 [] three_keys

list_objects_skips_marker_example :
    let first = list_objects [] [] 2 [] three_keys in
    (first.items ≡ content (codes "a/1") ∷ content (codes "a/2") ∷ [])
    × (next_marker first ≡ some (codes "b"))
    × All (λ i. ¬ (i ≡ content (codes "b"))) (list_objects [] [] 1000 (codes "b") three_keys).items
list_objects_skips_marker_example =
    list_objects_skips_marker [] 98 [] (codes "a/1" ∷ codes "a/2" ∷ []) [] 1000
