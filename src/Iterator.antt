-- ===== src/Iterator.antt =====
-- The functions of c_src/erocksdb_iter.cc that move an iterator and read where it is.
pub mod Cursor
pub mod Scan
pub mod Errors
pub mod Bounds
use erlang_rocksdb.Prelude.{ℕ, Bool, true, false, Option, none, some, List, [], ◌∷◌, if◌then◌else◌}
use erlang_rocksdb.Bytes.{Bytes}
use erlang_rocksdb.Term.{
  Term, atom, tuple, Elements, end, element, Atom, atom_first, atom_last, atom_next, atom_prev,
  atom_seek, atom_seek_for_prev, inspect_binary,
}

-- `rocksdb::Iterator`, and whether its `status`, that of `Refresh` and the answer of `PrepareValue`
-- are good.
pub record Library (I : Type 0) : Type 0 where
  pub seek_to_first : I → I
  pub seek_to_last : I → I
  pub next : I → I
  pub prev : I → I
  pub seek : Bytes → I → I
  pub seek_for_prev : Bytes → I → I
  pub valid : I → Bool
  pub status : I → Bool
  pub key : I → Bytes
  pub value : I → Bytes
  pub columns : I → List (Bytes × Bytes)
  pub refresh : I → Bool × I
  pub prepare_value : I → Bool × I

pub data Reply : Type 0 where
  entry : Bytes → Bytes → Reply
  wide : List (Bytes × Bytes) → Reply
  atom_ok invalid_iterator error_status einval badarg : Reply

module _ {I : Type 0} (lib : Library I) where
  -- The end of `IteratorMove`.
  abbrev pub here : I → Reply × I
  here itr =
      if lib.valid itr
      then (if lib.status itr then entry (lib.key itr) (lib.value itr) else error_status, itr)
      else (invalid_iterator, itr)

  abbrev pub to_end : Atom → I → I
  to_end atom_first itr = lib.seek_to_first itr
  to_end atom_last itr = lib.seek_to_last itr
  to_end _ itr = itr

  abbrev pub one_on : Atom → I → I
  one_on atom_next itr = lib.next itr
  one_on atom_prev itr = lib.prev itr
  one_on _ itr = itr

  -- An atom that is none of the four moves nothing.
  unfoldable pub move_atom : Atom → I → Reply × I
  move_atom a itr =
      if lib.valid (to_end a itr)
      then here (one_on a (to_end a itr))
      else (invalid_iterator, to_end a itr)

  abbrev pub seek_to : (Bytes → I → I) → Term → I → Reply × I
  seek_to to target itr = elim (inspect_binary target) [
    | none ↦ (einval, itr)
    | some k ↦ here (to k itr)
  ]

  unfoldable pub move_tuple : Elements → I → Reply × I
  move_tuple (element (atom atom_seek_for_prev) (element target end)) itr =
      seek_to lib.seek_for_prev target itr
  move_tuple (element (atom atom_seek) (element target end)) itr = seek_to lib.seek target itr
  move_tuple _ itr = (badarg, itr)

  -- The handle has been retrieved; the term is the action or the target.
  unfoldable pub iterator_move : Term → I → Reply × I
  unfolding move_atom move_tuple
  iterator_move (atom a) itr = move_atom a itr
  iterator_move (tuple ts) itr = move_tuple ts itr
  iterator_move target itr = seek_to lib.seek target itr

  unfoldable pub iterator_refresh : I → Reply × I
  iterator_refresh itr =
      (if (lib.refresh itr).0 then atom_ok else error_status, (lib.refresh itr).1)

  unfoldable pub iterator_prepare_value : I → Reply × I
  iterator_prepare_value itr =
      if lib.valid itr
      then (if (lib.prepare_value itr).0 then atom_ok else error_status, (lib.prepare_value itr).1)
      else (invalid_iterator, itr)

  unfoldable pub iterator_columns : I → Reply × I
  iterator_columns itr =
      if lib.valid itr
      then (if lib.status itr then wide (lib.columns itr) else error_status, itr)
      else (invalid_iterator, itr)

  -- The answers to moves in turn.
  unfoldable pub answers : List Term → I → List Reply
  unfolding iterator_move
  answers [] itr = []
  answers (t ∷ ts) itr = (iterator_move t itr).0 ∷ answers ts (iterator_move t itr).1
