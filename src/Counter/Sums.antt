-- ===== src/Counter/Sums.antt =====
-- The counter adds up.
use erlang_rocksdb.Prelude.{
  ◌≡◌, refl, Bool, true, ◌&&◌, Option, some, List, [], ◌∷◌, arith, map, foldl,
}
use erlang_rocksdb.Prelude.Int.{ℤ, ◌+ℤ◌}
use erlang_rocksdb.Bytes.{Bytes}
use erlang_rocksdb.Merged.{merged}
use erlang_rocksdb.Stoi.{is_int32, to_string}
use erlang_rocksdb.Stoi.RoundTrip.{stoi-to_string}
use erlang_rocksdb.Counter.{counter_of, add_int, merge, merge_all}

-- The number that a stored counter stands for.
abbrev pub Holds : Option Bytes → ℤ → Type 0
Holds existing n = counter_of existing ≡ merged n

-- Every value and every partial sum is an `int`.
abbrev pub sums_fit : ℤ → List ℤ → Bool
sums_fit n [] = true
sums_fit n (v ∷ vs) = is_int32 v && (is_int32 (n +ℤ v) && sums_fit (n +ℤ v) vs)

Holds-to_string : (n : ℤ) → is_int32 n ≡ true → Holds (some (to_string n)) n
unfolding counter_of
Holds-to_string n h = rw (stoi-to_string n h)

merge-to_string :
    (existing : Option Bytes) (n v : ℤ)
    → Holds existing n
    → is_int32 v ≡ true
    → is_int32 (n +ℤ v) ≡ true
    → merge existing (to_string v) ≡ merged (to_string (n +ℤ v))
unfolding merge add_int
merge-to_string existing n v h fv fs = rw h (rw (stoi-to_string v fv) (rw fs))

-- Operands that are printed numbers, merged one after the other into a counter that holds a number,
-- leave a counter that holds the sum, if every operand and every partial sum is an `int`.
pub merge_all-total :
    (existing : Option Bytes) (n : ℤ) (vs : List ℤ)
    → Holds existing n
    → sums_fit n vs ≡ true
    → (final : Option Bytes) × (merge_all existing (map to_string vs) ≡ merged final)
      × Holds final (foldl ◌+ℤ◌ n vs)
unfolding merge_all
merge_all-total existing n [] h fits = (existing, refl, h)
merge_all-total existing n (v ∷ vs) h fits =
    let fv : is_int32 v ≡ true = ground arith in
    let fs : is_int32 (n +ℤ v) ≡ true = ground arith in
    let (final, e, held) =
      merge_all-total (some (to_string (n +ℤ v))) (n +ℤ v) vs (Holds-to_string (n +ℤ v) fs)
        (ground arith) in
    (final, rw (merge-to_string existing n v h fv fs) e, held)
