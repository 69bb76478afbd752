-- ===== src/Examples/WriteBatches.antt =====
-- Batches at concrete inputs, over a library that keeps the records and the save points in lists.
use erlang_rocksdb.Prelude.{
  ℕ, ◌≡◌, refl, false, map, Option, none, some, List, [], ◌∷◌, ◌++◌, length,
}
use erlang_rocksdb.Prelude.Int.{pos}
use erlang_rocksdb.Term.{Term, nil, binary, opaque}
use erlang_rocksdb.Examples.{key_a, key_b}
use erlang_rocksdb.Examples.DatabaseCalls.{write_defaults}
use erlang_rocksdb.WriteBatch.{
  Record, put, delete, delete_range, Library, Handles, atom_put, Row, atom_ok, badarg, error_status,
  crash, number, rows, handle, to_int, add, put_batch, delete_range_batch, batch_set_save_point,
  batch_rollback_to_save_point, batch_count, batch_data_size, batch_to_list, write_batch,
  clear_batch, iterate, new_batch, release_batch, cleanup_batch,
}
use erlang_rocksdb.WriteBatch.Spec.{
  IsWriteBatch, Request, puts, delete_ranges, sets_save_point, rolls_back, counts, lists, sizes,
  writes, BatchCall, releases, asks, serve_call, Log, listed, answer_call, replies,
}
use erlang_rocksdb.WriteBatch.Refines.{replies-answer}
use erlang_rocksdb.WriteBatch.Released.{batch_to_list-delete_range, release_batch-replies}

abbrev rollback_in : Log → List (List Record) → Option Log
rollback_in log [] = none
rollback_in log (rs ∷ rest) = some (record { written = rs; saves = rest })

abbrev in_lists : Library Log
in_lists = record {
  empty = record { written = []; saves = [] };
  write = λ r w. record w { written = w.written ++ r ∷ [] };
  clear = λ w. record { written = []; saves = [] };
  set_save_point = λ w. record w { saves = w.written ∷ w.saves };
  rollback_to_save_point = λ w. rollback_in w w.saves;
  count = λ w. length w.written;
  get_data_size = λ w. 12;
  records = λ w. w.written;
  write_options = write_defaults;
}

in_lists-IsWriteBatch : IsWriteBatch in_lists (λ w. w.saves) (λ rs. 12)
in_lists-IsWriteBatch = record {
  empty_records = refl;
  empty_saved = refl;
  write_records = λ r w. refl;
  write_saved = λ r w. refl;
  clear_records = λ w. refl;
  clear_saved = λ w. refl;
  save_records = λ w. refl;
  save_saved = λ w. refl;
  rollback_none = λ w e. rw e refl;
  rollback_some = λ w rs rest e. (record { written = rs; saves = rest }, rw e refl, refl, refl);
  count_records = λ w. refl;
  size_records = λ w. refl;
}

-- The term 7 is the handle of column family 3.
abbrev one_handle : Handles
one_handle = record { get_cf = family }
  where
    family : Term → Option ℕ
    family (opaque n) = some 3
    family _ = none

abbrev requests : List Request
requests =
    puts (binary key_a ∷ binary key_b ∷ [])
    ∷ sets_save_point
    ∷ delete_ranges (binary key_a ∷ binary key_b ∷ [])
    ∷ puts (binary key_b ∷ [])
    ∷ counts
    ∷ sizes
    ∷ lists
    ∷ rolls_back
    ∷ rolls_back
    ∷ counts
    ∷ writes (some (λ o rs. false)) nil
    ∷ counts
    ∷ []

-- A call on the released batch ends the program.
abbrev calls : List BatchCall
calls = map asks requests ++ releases ∷ releases ∷ asks counts ∷ asks counts ∷ []

replies-answer_example :
    replies (serve_call in_lists one_handle) calls (new_batch in_lists)
    ≡ replies
        (answer_call one_handle write_defaults (λ rs. 12))
        calls
        (some (record { written = []; saves = [] }))
replies-answer_example =
    replies-answer in_lists (λ w. w.saves) (λ rs. 12) in_lists-IsWriteBatch one_handle calls

abbrev one_row : Row
one_row = record { tag = atom_put; column_family = none; binaries = key_a ∷ key_b ∷ [] }

-- The count is 2 before the rollback, where the list has one row, and 1 after it.
answers :
    replies (serve_call in_lists one_handle) calls (new_batch in_lists)
    ≡ atom_ok
      ∷ atom_ok
      ∷ atom_ok
      ∷ badarg
      ∷ number (pos 2)
      ∷ number (pos 12)
      ∷ rows (one_row ∷ [])
      ∷ atom_ok
      ∷ error_status
      ∷ number (pos 1)
      ∷ error_status
      ∷ number (pos 0)
      ∷ atom_ok
      ∷ atom_ok
      ∷ crash
      ∷ []
unfolding put_batch add delete_range_batch batch_set_save_point batch_rollback_to_save_point
    batch_count batch_data_size batch_to_list write_batch clear_batch release_batch cleanup_batch
    iterate handle new_batch to_int
answers = refl

abbrev hidden : Log
hidden = record {
  written = put 0 key_a key_b ∷ delete_range 0 key_a key_b ∷ delete 3 key_b ∷ [];
  saves = [];
}

batch_to_list-delete_range_example :
    (batch_to_list in_lists (record { wb = some hidden; env = some [] })).0
    ≡ rows (listed (put 0 key_a key_b ∷ []))
batch_to_list-delete_range_example =
    batch_to_list-delete_range in_lists hidden (some []) (put 0 key_a key_b ∷ [])
      (delete 3 key_b ∷ []) 0 key_a key_b refl

release_batch-replies_example :
    replies
      (serve_call in_lists one_handle)
      (asks (puts []) ∷ releases ∷ asks sizes ∷ asks counts ∷ [])
      (release_batch in_lists (new_batch in_lists)).1
    ≡ badarg ∷ atom_ok ∷ crash ∷ []
release_batch-replies_example =
    release_batch-replies in_lists one_handle (new_batch in_lists)
      (asks (puts []) ∷ releases ∷ asks sizes ∷ asks counts ∷ [])
