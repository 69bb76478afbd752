-- ===== src/SstFile.antt =====
-- Writing a file and reading it back: c_src/sst_file_writer.cc and c_src/sst_file_reader.cc.
pub mod Scan
pub mod RoundTrip
use erlang_rocksdb.Prelude.{
  ℕ, ◌-◌, ◌+◌, Bool, true, false, Option, none, some, List, [], ◌∷◌, if◌then◌else◌, ◌>>=◌,
}
use erlang_rocksdb.Prelude.Int.{pos}
use erlang_rocksdb.Bytes.{Bytes}
use erlang_rocksdb.Term.{
  Term, Elements, atom, int, tuple, element, end, Atom, named, atom_ok, atom_error, atom_first,
  atom_last, atom_next, atom_prev, atom_seek, atom_seek_for_prev, inspect_binary, list_items,
}
use erlang_rocksdb.Iterator
use erlang_rocksdb.Iterator.{entry, invalid_iterator, error_status}
use erlang_rocksdb.Calls.{Status, Reply, badarg, returned, done_term}
use erlang_rocksdb.Calls.Database.{columns}

-- `rocksdb::SstFileWriter`; `F` is the file that a `Finish` leaves.
pub record Library (W F : Type 0) : Type 0 where
  pub put : Bytes → Bytes → W → Status × W
  pub put_entity : Bytes → List (Bytes × Bytes) → W → Status × W
  pub merge : Bytes → Bytes → W → Status × W
  pub delete_ : Bytes → W → Status × W
  pub delete_range : Bytes → Bytes → W → Status × W
  pub finish : W → Status × F
  pub file_size : W → ℕ

abbrev pub two_binaries : Term → Term → Option (Bytes × Bytes)
two_binaries a b = inspect_binary a >>= λ x. inspect_binary b >>= λ y. some (x, y)

module _ {W F : Type 0} (lib : Library W F) where
  abbrev pub Call : Type 0
  Call = W → Reply × W

  abbrev pub done : Status × W → Reply × W
  done r = (returned (done_term atom_error r.0), r.1)

  abbrev pub with_two : (Bytes → Bytes → W → Status × W) → Option (Bytes × Bytes) → Call
  with_two f none w = (badarg, w)
  with_two f (some (a, b)) w = done (f a b w)

  abbrev pub with_one : (Bytes → W → Status × W) → Option Bytes → Call
  with_one f none w = (badarg, w)
  with_one f (some a) w = done (f a w)

  unfoldable pub sst_file_writer_put : Term → Term → Call
  sst_file_writer_put key value = with_two lib.put (two_binaries key value)

  unfoldable pub sst_file_writer_merge : Term → Term → Call
  sst_file_writer_merge key value = with_two lib.merge (two_binaries key value)

  unfoldable pub sst_file_writer_delete : Term → Call
  sst_file_writer_delete key = with_one lib.delete_ (inspect_binary key)

  unfoldable pub sst_file_writer_delete_range : Term → Term → Call
  sst_file_writer_delete_range begin end_ = with_two lib.delete_range (two_binaries begin end_)

  abbrev pub with_columns : Option Bytes → Option (List (Bytes × Bytes)) → Call
  with_columns (some key) (some cols) w = done (lib.put_entity key cols w)
  with_columns _ _ w = (badarg, w)

  unfoldable pub sst_file_writer_put_entity : Term → Term → Call
  unfolding columns
  sst_file_writer_put_entity key columns_list =
      with_columns (inspect_binary key) (columns (list_items columns_list))

  -- Without `with_file_info`.
  unfoldable pub sst_file_writer_finish : W → Reply × F
  sst_file_writer_finish w = (returned (done_term atom_error (lib.finish w).0), (lib.finish w).1)

  unfoldable pub sst_file_writer_file_size : W → Reply
  sst_file_writer_file_size w = returned (int (pos (lib.file_size w)))

-- An iterator object: its iterator until it is closed, and whether it keeps the reader's resource.
pub record Itr (I : Type 0) : Type 0 where
  pub iterator : Option I
  pub reader_ref : Bool

-- An object whose number of references is given, less the one that is released.
abbrev pub release_if : Bool → ℕ → ℕ
release_if true refs = refs - 1
release_if false refs = refs

module _ {I : Type 0} (lib : Iterator.Library I) where
  -- The end of `SstFileReaderIteratorMove`: the status comes first.
  abbrev pub here : I → Iterator.Reply × I
  here itr =
      if lib.status itr
      then (if lib.valid itr then entry (lib.key itr) (lib.value itr) else invalid_iterator, itr)
      else (error_status, itr)

  abbrev pub step : (I → I) → I → Iterator.Reply × I
  step to itr = if lib.valid itr then here (to itr) else (invalid_iterator, itr)

  abbrev pub move_atom : Atom → I → Iterator.Reply × I
  move_atom atom_first itr = here (lib.seek_to_first itr)
  move_atom atom_last itr = here (lib.seek_to_last itr)
  move_atom atom_next itr = step lib.next itr
  move_atom atom_prev itr = step lib.prev itr
  move_atom _ itr = (Iterator.Reply.badarg, itr)

  -- The second element is inspected before the first.
  abbrev pub seek_key : Term → Option Bytes → I → Iterator.Reply × I
  seek_key (atom atom_seek) (some key) itr = here (lib.seek key itr)
  seek_key (atom atom_seek_for_prev) (some key) itr = here (lib.seek_for_prev key itr)
  seek_key _ _ itr = (Iterator.Reply.badarg, itr)

  abbrev pub move_tuple : Elements → I → Iterator.Reply × I
  move_tuple (element action (element target end)) itr = seek_key action (inspect_binary target) itr
  move_tuple _ itr = (Iterator.Reply.badarg, itr)

  unfoldable pub move : Term → I → Iterator.Reply × I
  move (atom a) itr = move_atom a itr
  move (tuple ts) itr = move_tuple ts itr
  move _ itr = (Iterator.Reply.badarg, itr)

  -- A closed iterator is `badarg`.
  unfoldable pub sst_file_reader_iterator_move : Term → Itr I → Iterator.Reply × Itr I
  unfolding move
  sst_file_reader_iterator_move action itr = elim itr.iterator [
    | none ↦ (Iterator.Reply.badarg, itr)
    | some i ↦ ((move action i).0, record itr { iterator = some (move action i).1 })
  ]

  -- `SstFileReaderIterator`: the references to the reader, one more for the iterator.
  unfoldable pub sst_file_reader_iterator : Option I → ℕ → Option (Itr I) × ℕ
  sst_file_reader_iterator none refs = (none, refs)
  sst_file_reader_iterator (some i) refs =
      (some (record { iterator = some i; reader_ref = true }), refs + 1)

  unfoldable pub sst_file_reader_iterator_close : Itr I → ℕ → Itr I × ℕ
  sst_file_reader_iterator_close itr refs =
      (record { iterator = none; reader_ref = false }, release_if itr.reader_ref refs)
