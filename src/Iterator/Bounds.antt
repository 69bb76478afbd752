-- ===== src/Iterator/Bounds.antt =====
-- The bounds of an iterator, of a database in c_src/erocksdb_iter.cc or of a transaction in
-- c_src/transaction.cc and c_src/pessimistic_transaction.cc: who holds and who deletes the slices.
pub mod Kept
use erlang_rocksdb.Prelude.{
  ℕ, Bool, true, false, Option, none, some, List, [], ◌∷◌, ◌++◌, length, get_elem?, zero, suc,
  if◌then◌else◌,
}
use erlang_rocksdb.Bytes.{Bytes}
use erlang_rocksdb.Term.{
  Term, tuple, element, end, atom, atom_iterate_upper_bound, atom_iterate_lower_bound,
  atom_snapshot, inspect_binary, is_list, list_items,
}

-- `rocksdb::Slice`s made with `new`, named by their number, and those that were deleted.
pub record Slices : Type 0 where
  pub made : List Bytes
  pub deleted : List ℕ

abbrev pub make : Bytes → Slices → Slices
make b s = record s { made = s.made ++ b ∷ [] }

-- `delete` of a pointer; a null pointer is no slice.
abbrev pub delete_slice : Option ℕ → Slices → Slices
delete_slice none s = s
delete_slice (some n) s = record s { deleted = n ∷ s.deleted }

-- `ItrBounds` and the bounds of `ReadOptions`.
pub record Parsed : Type 0 where
  pub upper_bound_slice : Option ℕ
  pub lower_bound_slice : Option ℕ
  pub iterate_upper_bound : Option ℕ
  pub iterate_lower_bound : Option ℕ
  pub slices : Slices

-- An `ItrObject`: the slices that it deletes in the end, and those that its RocksDB iterator reads.
pub record Itr : Type 0 where
  pub upper_bound_slice : Option ℕ
  pub lower_bound_slice : Option ℕ
  pub iterate_upper_bound : Option ℕ
  pub iterate_lower_bound : Option ℕ

abbrev pub no_bounds : Parsed
no_bounds = record {
  upper_bound_slice = none;
  lower_bound_slice = none;
  iterate_upper_bound = none;
  iterate_lower_bound = none;
  slices = record { made = []; deleted = [] };
}

abbrev pub delete_bounds : Parsed → Slices
delete_bounds p = delete_slice p.lower_bound_slice (delete_slice p.upper_bound_slice p.slices)

abbrev pub itr_of : Parsed → Itr
itr_of p = record {
  upper_bound_slice = p.upper_bound_slice;
  lower_bound_slice = p.lower_bound_slice;
  iterate_upper_bound = p.iterate_upper_bound;
  iterate_lower_bound = p.iterate_lower_bound;
}

-- `RetrieveSnapshotObject` finds an open snapshot.
module _ (is_snapshot : Term → Bool) where
  abbrev pub upper_option : Option Bytes → Parsed → Bool × Parsed
  upper_option none p = (false, p)
  upper_option (some b) p = (
    true,
    record p {
      upper_bound_slice = some (length p.slices.made);
      iterate_upper_bound = some (length p.slices.made);
      slices = make b p.slices;
    },
  )

  abbrev pub lower_option : Option Bytes → Parsed → Bool × Parsed
  lower_option none p = (
    false,
    record p { upper_bound_slice = none; slices = delete_slice p.upper_bound_slice p.slices },
  )
  lower_option (some b) p = (
    true,
    record p {
      lower_bound_slice = some (length p.slices.made);
      iterate_lower_bound = some (length p.slices.made);
      slices = make b p.slices;
    },
  )

  abbrev pub snapshot_option : Bool → Parsed → Bool × Parsed
  snapshot_option true p = (true, p)
  snapshot_option false p = (
    false,
    record p { upper_bound_slice = none; lower_bound_slice = none; slices = delete_bounds p },
  )

  -- One cell of the list; `false` is `return 0`. The other options set flags and sizes.
  unfoldable pub parse_option : Term → Parsed → Bool × Parsed
  parse_option (tuple (element (atom atom_iterate_upper_bound) (element v end))) p =
      upper_option (inspect_binary v) p
  parse_option (tuple (element (atom atom_iterate_lower_bound) (element v end))) p =
      lower_option (inspect_binary v) p
  parse_option (tuple (element (atom atom_snapshot) (element v end))) p =
      snapshot_option (is_snapshot v) p
  parse_option _ p = (true, p)

  unfoldable pub parse_iterator_options : List Term → Parsed → Bool × Parsed
  unfolding parse_option
  parse_iterator_options [] p = (true, p)
  parse_iterator_options (t ∷ ts) p =
      let rest = parse_iterator_options ts (parse_option t p).1 in
      if (parse_option t p).0 then rest else (false, (parse_option t p).1)

  -- `Iterator`; `has_cf` is whether the column family, where one is given, is open. `none` is badarg.
  unfoldable pub new_iterator : Bool → List Term → Option Itr × Slices
  unfolding parse_iterator_options
  new_iterator has_cf options =
      let r = parse_iterator_options options no_bounds in
      if r.0
      then if has_cf then (some (itr_of r.1), r.1.slices) else (none, delete_bounds r.1)
      else (none, r.1.slices)

  -- `CoalescingIterator`; `available` is whether RocksDB has one.
  unfoldable pub coalescing_iterator : Bool → Bool → List Term → Option Itr × Slices
  unfolding parse_iterator_options
  coalescing_iterator has_cfs available options =
      let r = parse_iterator_options options no_bounds in
      if r.0
      then if has_cfs
        then if available then (some (itr_of r.1), r.1.slices) else (none, delete_bounds r.1)
        else (none, delete_bounds r.1)
      else (none, delete_bounds r.1)

  -- The options of a transaction's iterator, read and used; `has_cf` is as for `Iterator`.
  abbrev pub transaction_bounds : Bool → List Term → Option Itr × Slices
  unfolding parse_iterator_options
  transaction_bounds has_cf options =
      let r = parse_iterator_options options no_bounds in
      if r.0
      then if has_cf then (some (itr_of r.1), r.1.slices) else (none, delete_bounds r.1)
      else (none, delete_bounds r.1)

  -- `IteratorTransaction`; `has_tx` is whether the first argument is an open transaction.
  unfoldable pub iterator_transaction : Bool → Bool → Term → Option Itr × Slices
  unfolding parse_iterator_options
  iterator_transaction has_tx has_cf options =
      if has_tx
      then if is_list options
        then transaction_bounds has_cf (list_items options)
        else (none, no_bounds.slices)
      else (none, no_bounds.slices)

  -- `PessimisticTransactionIterator`, likewise.
  unfoldable pub pessimistic_transaction_iterator : Bool → Bool → Term → Option Itr × Slices
  unfolding parse_iterator_options
  pessimistic_transaction_iterator has_tx has_cf options =
      if has_tx
      then if is_list options
        then transaction_bounds has_cf (list_items options)
        else (none, no_bounds.slices)
      else (none, no_bounds.slices)

  -- A clone of a slice, if there is one.
  abbrev pub clone : Option ℕ → Slices → Option ℕ × Slices
  clone none s = (none, s)
  clone (some n) s =
      (some (length s.made), make (elim (get_elem? s.made n) [ none ↦ [] | some b ↦ b ]) s)

  -- One round of the loop of `Iterators`: the object owns clones of the bounds.
  abbrev pub with_clones : Parsed → Slices → Itr × Slices
  with_clones p s =
      let u = clone p.upper_bound_slice s in
      let l = clone p.lower_bound_slice u.1 in
      (
        record {
          upper_bound_slice = u.0;
          lower_bound_slice = l.0;
          iterate_upper_bound = p.iterate_upper_bound;
          iterate_lower_bound = p.iterate_lower_bound;
        },
        l.1,
      )

  unfoldable pub clones : ℕ → Parsed → Slices → List Itr × Slices
  clones zero p s = ([], s)
  clones (suc n) p s =
      let one = with_clones p s in let rest = clones n p one.1 in (one.0 ∷ rest.0, rest.1)

  -- `Iterators` over `count` column families, which are all open or not.
  unfoldable pub new_iterators : Bool → ℕ → List Term → Option (List Itr) × Slices
  unfolding parse_iterator_options clones
  new_iterators has_cfs count options =
      let r = parse_iterator_options options no_bounds in
      let made = clones count r.1 r.1.slices in
      if r.0
      then if has_cfs
        then (
          some made.0,
          delete_slice r.1.lower_bound_slice (delete_slice r.1.upper_bound_slice made.1),
        )
        else (none, delete_bounds r.1)
      else (none, r.1.slices)
