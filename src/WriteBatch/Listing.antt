-- ===== src/WriteBatch/Listing.antt =====
-- The rows of `BatchToList`.
use erlang_rocksdb.Prelude.{◌≡◌, refl, List, [], ◌∷◌}
use erlang_rocksdb.WriteBatch.{
  Record, put, merge, delete, single_delete, delete_range, Row, handle, iterate, reverse_onto,
}
use erlang_rocksdb.WriteBatch.Spec.{listed}

pub iterate-listed :
    (rs : List Record) (acc : List Row)
    → reverse_onto (iterate rs acc) [] ≡ reverse_onto acc (listed rs)
unfolding iterate handle
iterate-listed [] acc = refl
iterate-listed (put cf k v ∷ rs) acc = iterate-listed rs _
iterate-listed (merge cf k v ∷ rs) acc = iterate-listed rs _
iterate-listed (delete cf k ∷ rs) acc = iterate-listed rs _
iterate-listed (single_delete cf k ∷ rs) acc = iterate-listed rs _
iterate-listed (delete_range cf a b ∷ rs) acc = refl
