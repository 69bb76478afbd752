-- ===== src/Examples/Iterators.antt =====
-- Iterators at concrete inputs, over a library that keeps a place in a list.
use erlang_rocksdb.Prelude.{
  ◌≡◌, refl, Bool, true, false, none, some, List, [], ◌∷◌, inl, length, replicate,
}
use erlang_rocksdb.Bytes.{Bytes}
use erlang_rocksdb.Prelude.Int.{pos}
use erlang_rocksdb.Bytes.Order.{compare_bytes}
use erlang_rocksdb.Term.{
  Term, atom, binary, cons, nil, tuple, element, end, int, atom_first, atom_next, atom_prev,
  atom_seek_for_prev, atom_iterate_upper_bound,
}
use erlang_rocksdb.Examples.{key_a, key_b}
use erlang_rocksdb.DbObject.Shutdown.{mem}
use erlang_rocksdb.Iterator.{
  Library, entry, invalid_iterator, einval, move_atom, move_tuple, iterator_move, answers,
}
use erlang_rocksdb.Iterator.Cursor.{
  Entry, View, comes_before, comes_upto, pass, step_back, IsCursor,
}
use erlang_rocksdb.Iterator.Scan.{scanned, at_or_past, answers-seek}
use erlang_rocksdb.Iterator.Bounds.{
  Itr, parse_option, parse_iterator_options, new_iterator, iterator_transaction,
  pessimistic_transaction_iterator, clones, new_iterators,
}
use erlang_rocksdb.Iterator.Bounds.Kept.{IsOwner, new_iterator-IsOwner, new_iterators_deleted}

abbrev key_c : Bytes
key_c = 99 ∷ []

abbrev pub two_entries : List Entry
two_entries = (key_a, key_a) ∷ (key_c, key_b) ∷ []

abbrev pub forth : View → View
forth (before, []) = (before, [])
forth (before, e ∷ rest) = (e ∷ before, rest)

abbrev pub is_valid : View → Bool
is_valid (before, []) = false
is_valid (before, e ∷ rest) = true

abbrev pub current : View → Entry
current (before, []) = ([], [])
current (before, e ∷ rest) = e

abbrev in_list : Library View
in_list = record {
  seek_to_first = λ v. ([], two_entries);
  seek_to_last = λ v. step_back (pass (λ key. true) [] two_entries);
  next = forth;
  prev = step_back;
  seek = λ k v. pass (comes_before k) [] two_entries;
  seek_for_prev = λ k v. step_back (pass (comes_upto k) [] two_entries);
  valid = is_valid;
  status = is_valid;
  key = λ v. (current v).0;
  value = λ v. (current v).1;
  columns = λ v. [];
  refresh = λ v. (true, v);
  prepare_value = λ v. (true, v);
}

in_list-IsCursor : IsCursor in_list (λ v. v) two_entries
in_list-IsCursor = record {
  first = λ i. refl;
  last = λ i. refl;
  next = λ i e before rest h. rw h refl;
  prev = λ i e before rest h. rw h refl;
  seek = λ k i. refl;
  seek_for_prev = λ k i. refl;
  not_valid = λ i before h. rw h refl;
  is_valid = λ i e before rest h. rw h (refl, refl, refl, refl);
}

answers-seek_example :
    answers in_list
      (binary key_b ∷ replicate (length (at_or_past key_b two_entries)) (atom atom_next))
      ([], [])
    ≡ scanned (at_or_past key_b two_entries)
unfolding compare_bytes
answers-seek_example =
    answers-seek in_list (λ v. v) two_entries in_list-IsCursor key_b ([], []) ((refl, tt), (tt, tt))

-- An unknown action, a search backwards, and a step before the first entry.
moves :
    answers in_list
      (atom atom_first
        ∷ int (pos 3)
        ∷ tuple (element (atom atom_seek_for_prev) (element (binary key_b) end))
        ∷ atom atom_prev
        ∷ atom atom_next
        ∷ [])
      ([], [])
    ≡ entry key_a key_a ∷ einval ∷ entry key_a key_a ∷ invalid_iterator ∷ invalid_iterator ∷ []
unfolding answers iterator_move move_atom move_tuple comes_upto compare_bytes
moves = refl

abbrev up_to_c : List Term
up_to_c = tuple (element (atom atom_iterate_upper_bound) (element (binary key_c) end)) ∷ []

abbrev bounded : Itr
bounded = record {
  upper_bound_slice = some 0;
  lower_bound_slice = none;
  iterate_upper_bound = some 0;
  iterate_lower_bound = none;
}

abbrev no_snapshot : Term → Bool
no_snapshot t = false

one_bounded :
    new_iterator no_snapshot true up_to_c
    ≡ (some bounded, record { made = key_c ∷ []; deleted = [] })
unfolding new_iterator parse_iterator_options parse_option
one_bounded = refl

-- A transaction that was released; a column family that is gone; options that are no list.
abbrev up_to_c_list : Term
up_to_c_list =
    cons (tuple (element (atom atom_iterate_upper_bound) (element (binary key_c) end))) nil

released_transaction :
    iterator_transaction no_snapshot false true up_to_c_list
    ≡ (none, record { made = []; deleted = [] })
unfolding iterator_transaction parse_iterator_options parse_option
released_transaction = refl

dropped_column_family :
    pessimistic_transaction_iterator no_snapshot true false up_to_c_list
    ≡ (none, record { made = key_c ∷ []; deleted = 0 ∷ [] })
unfolding pessimistic_transaction_iterator parse_iterator_options parse_option
dropped_column_family = refl

not_a_list :
    iterator_transaction no_snapshot true true (binary key_c)
    ≡ (none, record { made = []; deleted = [] })
unfolding iterator_transaction parse_iterator_options parse_option
not_a_list = refl

transaction_bounded :
    iterator_transaction no_snapshot true true up_to_c_list
    ≡ (some bounded, record { made = key_c ∷ []; deleted = [] })
unfolding iterator_transaction parse_iterator_options parse_option
transaction_bounded = refl

new_iterator-IsOwner_example :
    IsOwner no_snapshot bounded (record { made = key_c ∷ []; deleted = [] })
new_iterator-IsOwner_example =
    new_iterator-IsOwner no_snapshot true up_to_c bounded _ (inl one_bounded)

-- The object owns slice 1, and RocksDB reads slice 0, which has been deleted.
abbrev dangling : Itr
dangling = record bounded { upper_bound_slice = some 1 }

one_dangling :
    new_iterators no_snapshot true 1 up_to_c
    ≡ (some (dangling ∷ []), record { made = key_c ∷ key_c ∷ []; deleted = 0 ∷ [] })
unfolding new_iterators parse_iterator_options parse_option clones
one_dangling = refl

new_iterators_deleted_example : mem 0 (0 ∷ []) ≡ true
new_iterators_deleted_example =
    new_iterators_deleted no_snapshot true 1 up_to_c (dangling ∷ []) _ one_dangling 0 dangling 0
      refl refl
