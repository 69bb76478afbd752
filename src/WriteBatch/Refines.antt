-- ===== src/WriteBatch/Refines.antt =====
-- A batch answers as the list of what has been written to it.
use erlang_rocksdb.Prelude.{
  ℕ, ◌≡◌, refl, ◌∙◌, ap, ap₂, Bool, Option, none, some, List, [], ◌∷◌, length, if◌then◌else◌,
}
use erlang_rocksdb.Term.{Term}
use erlang_rocksdb.Calls.{fold}
use erlang_rocksdb.Calls.Options.{WriteOptions, parse_write_option}
use erlang_rocksdb.WriteBatch.{
  Record, Library, Handles, Batch, Reply, atom_ok, error_status, number, rows, to_int,
  write_options_of, write_batch, clear_batch, batch_set_save_point, batch_rollback_to_save_point,
  batch_count, batch_data_size, batch_to_list, release_batch, cleanup_batch, new_batch,
}
use erlang_rocksdb.WriteBatch.Spec.{
  IsWriteBatch, Request, puts, merges, deletes, single_deletes, delete_ranges, writes, clears,
  sets_save_point, rolls_back, counts, sizes, lists, BatchCall, releases, asks, serve_call, Log,
  listed, rollback_answer, answer_call, unless_crash, replies,
}
use erlang_rocksdb.WriteBatch.Listing.{iterate-listed}
use erlang_rocksdb.WriteBatch.Released.{released, serve-released}
use erlang_rocksdb.WriteBatch.Writes.{
  Matches, Agrees, refused, Same, put-Agrees, merge-Agrees, delete_range-Agrees, delete-Agrees,
  single_delete-Agrees,
}

module _ {W : Type 0} (lib : Library W) (saved : W → List (List Record)) (size : List Record → ℕ)
    (law : IsWriteBatch lib saved size) where
  module _ (handles : Handles) where
    cleared :
        (w : W)
        → Matches lib saved size law
            (record { wb = some (lib.clear w); env = some [] })
            (record { written = []; saves = [] })
    cleared w = record {
      w = lib.clear w;
      copies = [];
      is_w = refl;
      is_env = refl;
      written = law.clear_records w;
      saves = law.clear_saved w;
    }

    write-Agrees :
        (db : Option (WriteOptions → Option (List Record) → Bool)) (options : Term)
        → Same lib saved size law handles (writes db options)
    unfolding write_batch write_options_of
    write-Agrees none options b log m = refused lib saved size law handles b log m
    write-Agrees (some accepts) options b log m =
        rw (m.is_env, m.is_w)
          (record {
            reply =
                ap
                  (λ rs.
                    if accepts (fold parse_write_option options lib.write_options).1 (some rs)
                    then atom_ok
                    else error_status)
                  m.written;
            after = cleared m.w;
          })

    clear-Agrees : Same lib saved size law handles clears
    unfolding clear_batch
    clear-Agrees b log m = rw (m.is_w, m.is_env) (record { reply = refl; after = cleared m.w })

    save-Agrees : Same lib saved size law handles sets_save_point
    unfolding batch_set_save_point
    save-Agrees b log m = rw m.is_w (record {
      reply = refl;
      after = record {
        w = lib.set_save_point m.w;
        copies = m.copies;
        is_w = refl;
        is_env = m.is_env;
        written = law.save_records m.w ∙ m.written;
        saves = law.save_saved m.w ∙ ap₂ ◌∷◌ m.written m.saves;
      };
    })

    -- A function that only reads.
    reads :
        (b : Batch W) (log : Log) (m : Matches lib saved size law b log) (r s : Reply)
        → r ≡ s
        → Agrees lib saved size law (r, record b { wb = some m.w }) (s, log)
    reads b log m r s e = record {
      reply = e;
      after = record {
        w = m.w;
        copies = m.copies;
        is_w = refl;
        is_env = m.is_env;
        written = m.written;
        saves = m.saves;
      };
    }

    count-Agrees : Same lib saved size law handles counts
    unfolding batch_count
    count-Agrees b log m = rw m.is_w (
        reads b log m _ _
          (ap (λ n. number (to_int n)) (law.count_records m.w ∙ ap length m.written)))

    size-Agrees : Same lib saved size law handles sizes
    unfolding batch_data_size
    size-Agrees b log m =
        rw m.is_w (
          reads b log m _ _
            (ap (λ n. number (to_int n)) (law.size_records m.w ∙ ap size m.written)))

    list-Agrees : Same lib saved size law handles lists
    unfolding batch_to_list
    list-Agrees b log m =
        rw m.is_w
          (reads b log m _ _ (ap rows (iterate-listed (lib.records m.w) [] ∙ ap listed m.written)))

    rollback-Agrees : Same lib saved size law handles rolls_back
    unfolding batch_rollback_to_save_point
    rollback-Agrees b log m = rw m.is_w (by_saves log.saves m.saves)
      where
        by_saves :
            (l : List (List Record))
            → saved m.w ≡ l
            → Agrees lib saved size law
                (let r = elim (lib.rollback_to_save_point m.w) as (λ x. Reply × W) [
                  | none ↦ (error_status, m.w)
                  | some w' ↦ (atom_ok, w')
                ] in
                  (r.0, record b { wb = some r.1 }))
                (rollback_answer handles log l)
        by_saves [] e = rw (law.rollback_none m.w e) (reads b log m _ _ refl)
        by_saves (rs ∷ rest) e =
            let (w', done, recs, left) = law.rollback_some m.w rs rest e in
            rw done (record {
              reply = refl;
              after = record {
                w = w';
                copies = m.copies;
                is_w = refl;
                is_env = m.is_env;
                written = recs;
                saves = left;
              };
            })

    serve-Agrees : (q : Request) → Same lib saved size law handles q
    serve-Agrees (puts args) = put-Agrees lib saved size law handles args
    serve-Agrees (merges args) = merge-Agrees lib saved size law handles args
    serve-Agrees (deletes args) = delete-Agrees lib saved size law handles args
    serve-Agrees (single_deletes args) = single_delete-Agrees lib saved size law handles args
    serve-Agrees (delete_ranges args) = delete_range-Agrees lib saved size law handles args
    serve-Agrees (writes db options) = write-Agrees db options
    serve-Agrees clears = clear-Agrees
    serve-Agrees sets_save_point = save-Agrees
    serve-Agrees rolls_back = rollback-Agrees
    serve-Agrees counts = count-Agrees
    serve-Agrees sizes = size-Agrees
    serve-Agrees lists = list-Agrees

    -- A released batch, or one that matches the log.
    abbrev MatchesAny : Batch W → Option Log → Type 0
    MatchesAny b none = b ≡ released lib
    MatchesAny b (some log) = Matches lib saved size law b log

    -- A call answers as the log does, and leaves what matches the log's.
    call-Agrees :
        (q : BatchCall) (b : Batch W) (s : Option Log)
        → MatchesAny b s
        → ((serve_call lib handles q b).0 ≡ (answer_call handles lib.write_options size q s).0)
          × MatchesAny
              (serve_call lib handles q b).1
              (answer_call handles lib.write_options size q s).1
    unfolding release_batch cleanup_batch
    call-Agrees releases b s m = (refl, refl)
    call-Agrees (asks q) b none m = rw (m, serve-released lib handles q) (refl, refl)
    call-Agrees (asks q) b (some log) m = let a = serve-Agrees q b log m in (a.reply, a.after)

    replies_from :
        (qs : List BatchCall) (b : Batch W) (s : Option Log)
        → MatchesAny b s
        → replies (serve_call lib handles) qs b
          ≡ replies (answer_call handles lib.write_options size) qs s
    replies_from [] b s m = refl
    replies_from (q ∷ qs) b s m =
        let (same, after) = call-Agrees q b s m in
        ap₂ (λ r rest. r ∷ unless_crash r rest) same (replies_from qs _ _ after)

    -- A new batch answers every sequence of calls, up to one that goes through a null pointer, as
    -- an empty list of records without save points does, where the library keeps its documented
    -- behaviour and the database answers each write, of the records with the options that were
    -- asked for, as it likes. After `ReleaseBatch` there is no
    -- list: another release returns ok, and other calls refuse their arguments or crash. The rows
    -- of `BatchToList` end at the first deletion of a range, against the documentation.
    pub replies-answer :
        (qs : List BatchCall)
        → replies (serve_call lib handles) qs (new_batch lib)
          ≡ replies
              (answer_call handles lib.write_options size)
              qs
              (some (record { written = []; saves = [] }))
    unfolding new_batch
    replies-answer qs = replies_from qs _ (some _) (record {
      w = lib.empty;
      copies = [];
      is_w = refl;
      is_env = refl;
      written = law.empty_records;
      saves = law.empty_saved;
    })
