-- ===== src/SstFile/Scan.antt =====
-- The iterator of a file against that of a database.
use erlang_rocksdb.Prelude.{
  ◌≡◌, refl, ap, inl, inr, Bool, true, some, List, [], ◌∷◌, map, Bool-cases, if◌then◌else◌,
}
use erlang_rocksdb.Bytes.{Bytes}
use erlang_rocksdb.Term.{
  Term, atom, tuple, element, end, binary, atom_first, atom_last, atom_next, atom_prev, atom_seek,
  atom_seek_for_prev,
}
use erlang_rocksdb.Iterator
use erlang_rocksdb.Iterator.{invalid_iterator, iterator_move, answers}
use erlang_rocksdb.SstFile.{Itr, here, move, sst_file_reader_iterator_move}

-- The documented actions.
pub data Action : Type 0 where
  first last next prev : Action
  seek seek_for_prev : Bytes → Action

abbrev pub action_term : Action → Term
action_term first = atom atom_first
action_term last = atom atom_last
action_term next = atom atom_next
action_term prev = atom atom_prev
action_term (seek k) = tuple (element (atom atom_seek) (element (binary k) end))
action_term (seek_for_prev k) = tuple (element (atom atom_seek_for_prev) (element (binary k) end))

module _ {I : Type 0} (lib : Iterator.Library I) where
  -- The answers of the file's iterator to actions in turn.
  abbrev pub file_answers : List Action → Itr I → List Iterator.Reply
  file_answers [] itr = []
  file_answers (a ∷ acts) itr =
      (sst_file_reader_iterator_move lib (action_term a) itr).0
      ∷ file_answers acts (sst_file_reader_iterator_move lib (action_term a) itr).1

  module _ (no_error : (i : I) → lib.status i ≡ true) where
    here_same : (i : I) → here lib i ≡ Iterator.here lib i
    here_same i = elim (Bool-cases (lib.valid i)) [
      | inl v ↦ rw (no_error i, v) refl
      | inr v ↦ rw (no_error i, v) refl
    ]

    end_same :
        (i : I) → here lib i ≡ (if lib.valid i then Iterator.here lib i else (invalid_iterator, i))
    end_same i = elim (Bool-cases (lib.valid i)) [
      | inl v ↦ rw (no_error i, v) refl
      | inr v ↦ rw (no_error i, v) refl
    ]

    -- A documented action moves and answers as `iterator_move` does.
    move_same :
        (a : Action) (i : I) → move lib (action_term a) i ≡ iterator_move lib (action_term a) i
    unfolding move iterator_move Iterator.move_atom Iterator.move_tuple
    move_same first i = end_same (lib.seek_to_first i)
    move_same last i = end_same (lib.seek_to_last i)
    move_same next i =
        ap (λ r. if lib.valid i then r else (invalid_iterator, i)) (here_same (lib.next i))
    move_same prev i =
        ap (λ r. if lib.valid i then r else (invalid_iterator, i)) (here_same (lib.prev i))
    move_same (seek k) i = here_same (lib.seek k i)
    move_same (seek_for_prev k) i = here_same (lib.seek_for_prev k i)

    -- Over a library that meets no error, an open iterator of a file answers documented actions in
    -- turn as the iterator of a database does.
    pub file_answers-answers :
        (acts : List Action) (i : I) (r : Bool)
        → file_answers acts (record { iterator = some i; reader_ref = r })
          ≡ answers lib (map action_term acts) i
    unfolding answers sst_file_reader_iterator_move
    file_answers-answers [] i r = refl
    file_answers-answers (a ∷ acts) i r = rw (move_same a i) (
        ap (◌∷◌ (iterator_move lib (action_term a) i).0)
          (file_answers-answers acts (iterator_move lib (action_term a) i).1 r))
