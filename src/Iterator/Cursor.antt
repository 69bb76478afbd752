-- ===== src/Iterator/Cursor.antt =====
-- An iterator as a place in the entries of the source, in the order of their keys.
use erlang_rocksdb.Prelude.{Ordering, ◌≡◌, Bool, true, false, List, [], ◌∷◌, if◌then◌else◌}
use erlang_rocksdb.Bytes.{Bytes}
use erlang_rocksdb.Bytes.Order.{compare_bytes}
use erlang_rocksdb.Iterator.{Library}

abbrev pub Entry : Type 0
Entry = Bytes × Bytes

-- The entries before the place, the nearest first, and those from it on; none of the latter is an
-- iterator that is not valid.
abbrev pub View : Type 0
View = List Entry × List Entry

-- The key comes before `k`, or is not after it.
unfoldable pub comes_before : Bytes → Bytes → Bool
comes_before k key = elim (compare_bytes key k) [
  | Ordering.lt ↦ true
  | Ordering.eq ↦ false
  | Ordering.gt ↦ false
]

unfoldable pub comes_upto : Bytes → Bytes → Bool
comes_upto k key = elim (compare_bytes key k) [
  | Ordering.lt ↦ true
  | Ordering.eq ↦ true
  | Ordering.gt ↦ false
]

-- Forward while the key passes the test, and one back, if there is one.
abbrev pub pass : (Bytes → Bool) → List Entry → List Entry → View
pass test before [] = (before, [])
pass test before (e ∷ rest) = if test e.0 then pass test (e ∷ before) rest else (before, e ∷ rest)

abbrev pub step_back : View → View
step_back ([], rest) = ([], [])
step_back (e ∷ before, rest) = (before, e ∷ rest)

-- What the library documents of an iterator over `entries` that meets no error.
pub record IsCursor {I : Type 0} (lib : Library I) (view : I → View) (entries : List Entry)
    : Type 0 where
  pub first : (i : I) → view (lib.seek_to_first i) ≡ ([], entries)
  pub last : (i : I) → view (lib.seek_to_last i) ≡ step_back (pass (λ key. true) [] entries)
  pub next :
      (i : I) (e : Entry) (before rest : List Entry)
      → view i ≡ (before, e ∷ rest)
      → view (lib.next i) ≡ (e ∷ before, rest)
  pub prev :
      (i : I) (e : Entry) (before rest : List Entry)
      → view i ≡ (before, e ∷ rest)
      → view (lib.prev i) ≡ step_back (before, e ∷ rest)
  pub seek : (k : Bytes) (i : I) → view (lib.seek k i) ≡ pass (comes_before k) [] entries
  pub seek_for_prev :
      (k : Bytes) (i : I)
      → view (lib.seek_for_prev k i) ≡ step_back (pass (comes_upto k) [] entries)
  pub not_valid : (i : I) (before : List Entry) → view i ≡ (before, []) → lib.valid i ≡ false
  pub is_valid :
      (i : I) (e : Entry) (before rest : List Entry)
      → view i ≡ (before, e ∷ rest)
      → (lib.valid i ≡ true) × (lib.status i ≡ true) × (lib.key i ≡ e.0) × (lib.value i ≡ e.1)
