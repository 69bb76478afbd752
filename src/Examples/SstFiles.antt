-- ===== src/Examples/SstFiles.antt =====
-- A file at concrete inputs, over a writer that keeps a list and a reader that keeps a place in it.
use erlang_rocksdb.Prelude.{◌≡◌, refl, true, some, List, [], ◌∷◌, ◌++◌, length, map, replicate}
use erlang_rocksdb.Bytes.Order.{compare_bytes}
use erlang_rocksdb.Iterator
use erlang_rocksdb.Iterator.{invalid_iterator, entry}
use erlang_rocksdb.Iterator.Cursor.{
  Entry, View, comes_before, comes_upto, pass, step_back, IsCursor,
}
use erlang_rocksdb.Iterator.Scan.{scanned}
use erlang_rocksdb.Examples.{key_a, key_b}
use erlang_rocksdb.Examples.Iterators.{two_entries, forth, is_valid, current}
use erlang_rocksdb.Examples.DatabaseCalls.{ok_status, not_found_status}
use erlang_rocksdb.Calls.{Status}
use erlang_rocksdb.SstFile.{Library, sst_file_writer_put, sst_file_writer_finish}
use erlang_rocksdb.SstFile.Scan.{first, next, file_answers}
use erlang_rocksdb.SstFile.RoundTrip.{IsWriter, ok_reply, put_all, put_all-file_answers}

abbrev finish_list : List Entry → Status × List Entry
finish_list [] = (not_found_status, [])
finish_list (e ∷ es) = (ok_status, e ∷ es)

abbrev writer : Library (List Entry) (List Entry)
writer = record {
  put = λ k v w. (ok_status, w ++ (k, v) ∷ []);
  put_entity = λ k columns w. (ok_status, w);
  merge = λ k v w. (ok_status, w);
  delete_ = λ k w. (ok_status, w);
  delete_range = λ a b w. (ok_status, w);
  finish = finish_list;
  file_size = length;
}

writer-IsWriter : IsWriter writer (λ w. w) (λ f. f)
writer-IsWriter = record {
  put_status = λ k v w h. refl;
  put_view = λ k v w h. refl;
  finish_status = λ w e es h. rw h refl;
  finish_contents = λ w e es h. rw h refl;
}

abbrev reader : Iterator.Library View
reader = record {
  seek_to_first = λ v. ([], two_entries);
  seek_to_last = λ v. step_back (pass (λ key. true) [] two_entries);
  next = forth;
  prev = step_back;
  seek = λ k v. pass (comes_before k) [] two_entries;
  seek_for_prev = λ k v. step_back (pass (comes_upto k) [] two_entries);
  valid = is_valid;
  status = λ v. true;
  key = λ v. (current v).0;
  value = λ v. (current v).1;
  columns = λ v. [];
  refresh = λ v. (true, v);
  prepare_value = λ v. (true, v);
}

reader-IsCursor : IsCursor reader (λ v. v) two_entries
reader-IsCursor = record {
  first = λ i. refl;
  last = λ i. refl;
  next = λ i e before rest h. rw h refl;
  prev = λ i e before rest h. rw h refl;
  seek = λ k i. refl;
  seek_for_prev = λ k i. refl;
  not_valid = λ i before h. rw h refl;
  is_valid = λ i e before rest h. rw h (refl, refl, refl, refl);
}

put_all-file_answers_example :
    ((put_all writer two_entries []).0 ≡ map (λ x. ok_reply) two_entries)
    × ((sst_file_writer_finish writer (put_all writer two_entries []).1).0 ≡ ok_reply)
    × (file_answers reader
          (first ∷ replicate (length two_entries) next)
          (record { iterator = some ([], []); reader_ref = true })
        ≡ scanned two_entries)
unfolding compare_bytes sst_file_writer_put sst_file_writer_finish
put_all-file_answers_example =
    put_all-file_answers writer (λ w. w) (λ f. f) writer-IsWriter reader (λ v. v) (λ i. refl)
      (key_a, key_a) ((99 ∷ [], key_b) ∷ []) [] refl ((refl, tt), (tt, tt)) reader-IsCursor ([], [])
      true
