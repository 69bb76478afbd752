-- ===== src/Iterator/Errors.antt =====
-- What a move answers where the library meets an error.
use erlang_rocksdb.Prelude.{◌≡◌, ◌≢◌, true, inl, inr, Bool-cases, Option-cases, arith}
use erlang_rocksdb.Bytes.{Bytes}
use erlang_rocksdb.Term.{
  Term, Elements, Atom, atom, int, float, binary, nil, cons, tuple, opaque, element, end,
  inspect_binary,
}
use erlang_rocksdb.Iterator.{
  Library, error_status, here, to_end, one_on, seek_to, move_atom, move_tuple, iterator_move,
}

module _ {I : Type 0} (lib : Library I)
    (documented : (i : I) → lib.valid i ≡ true → lib.status i ≡ true) where
  here_status : (i : I) → (here lib i).0 ≢ error_status
  here_status i e = ground (arith, documented i)

  seek_status : (to : Bytes → I → I) (t : Term) (i : I) → (seek_to lib to t i).0 ≢ error_status
  seek_status to t i e = elim (Option-cases (inspect_binary t)) [
    | inl n ↦ ground (arith, n)
    | inr p ↦ here_status (to p.0 i) (ground (arith, p.1))
  ]

  atom_status : (a : Atom) (i : I) → (move_atom lib a i).0 ≢ error_status
  unfolding move_atom
  atom_status a i e = elim (Bool-cases (lib.valid (to_end lib a i))) [
    | inl v ↦ here_status (one_on lib a (to_end lib a i)) (by_valid v)
    | inr v ↦ ground (arith, v)
  ]
    where
      by_valid :
          lib.valid (to_end lib a i) ≡ true
          → (here lib (one_on lib a (to_end lib a i))).0 ≡ error_status
      by_valid v = ground (arith, v)

  tuple_status : (ts : Elements) (i : I) → (move_tuple lib ts i).0 ≢ error_status
  unfolding move_tuple
  tuple_status end i e = cc
  tuple_status (element h end) i e = ground arith
  tuple_status (element h (element t (element u ts))) i e = ground arith
  tuple_status (element h (element t end)) i e =
      ground (arith, seek_status lib.seek t i, seek_status lib.seek_for_prev t i)

  -- Where an iterator whose status is not ok is not valid, no move answers with the status.
  pub iterator_move_status : (t : Term) (i : I) → (iterator_move lib t i).0 ≢ error_status
  unfolding iterator_move
  iterator_move_status (atom a) i = atom_status a i
  iterator_move_status (tuple ts) i = tuple_status ts i
  iterator_move_status (int n) i = seek_status lib.seek (int n) i
  iterator_move_status (float x) i = seek_status lib.seek (float x) i
  iterator_move_status (binary b) i = seek_status lib.seek (binary b) i
  iterator_move_status nil i = seek_status lib.seek nil i
  iterator_move_status (cons h t) i = seek_status lib.seek (cons h t) i
  iterator_move_status (opaque n) i = seek_status lib.seek (opaque n) i
