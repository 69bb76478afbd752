-- ===== src/WriteBatch/Released.antt =====
-- A batch after `ReleaseBatch`, and the rows that a deletion of a range hides.
use erlang_rocksdb.Prelude.{ℕ, ◌≡◌, refl, ◌∙◌, ap, Option, none, some, List, [], ◌∷◌, ◌++◌}
use erlang_rocksdb.Bytes.{Bytes}
use erlang_rocksdb.Term.{Term}
use erlang_rocksdb.WriteBatch.{
  Record, put, merge, delete, single_delete, delete_range, Library, Handles, Batch, Reply, atom_ok,
  rows, add, add_or_badarg, put_batch, merge_batch, delete_batch, single_delete_batch,
  delete_range_batch, write_batch, clear_batch, batch_set_save_point, batch_rollback_to_save_point,
  batch_count, batch_data_size, batch_to_list, cleanup_batch, release_batch,
}
use erlang_rocksdb.WriteBatch.Spec.{
  Request, puts, merges, deletes, single_deletes, delete_ranges, writes, clears, sets_save_point,
  rolls_back, counts, sizes, lists, BatchCall, releases, asks, serve, serve_call, listed,
  crash_unless_refused, released_answer, unless_crash, replies,
}
use erlang_rocksdb.WriteBatch.Listing.{iterate-listed}

listed_before :
    (before after : List Record) (cf : ℕ) (first last : Bytes)
    → listed (before ++ delete_range cf first last ∷ after) ≡ listed before
listed_before [] after cf first last = refl
listed_before (put c k v ∷ rs) after cf first last = rw (listed_before rs after cf first last) refl
listed_before (merge c k v ∷ rs) after cf first last =
    rw (listed_before rs after cf first last) refl
listed_before (delete c k ∷ rs) after cf first last = rw (listed_before rs after cf first last) refl
listed_before (single_delete c k ∷ rs) after cf first last =
    rw (listed_before rs after cf first last) refl
listed_before (delete_range c a b ∷ rs) after cf first last = refl

module _ {W : Type 0} (lib : Library W) where
  -- On a batch that has not been released, `BatchToList` reports neither a deletion of a range nor what was written after it.
  pub batch_to_list-delete_range :
      (w : W) (env : Option (List Term)) (before after : List Record) (cf : ℕ) (first last : Bytes)
      → lib.records w ≡ before ++ delete_range cf first last ∷ after
      → (batch_to_list lib (record { wb = some w; env = env })).0 ≡ rows (listed before)
  unfolding batch_to_list
  batch_to_list-delete_range w env before after cf first last h =
      ap rows (
        iterate-listed (lib.records w) []
        ∙ (ap listed h ∙ listed_before before after cf first last))

  abbrev pub released : Batch W
  released = record { wb = none; env = none }

  asked-released :
      (handles : Handles) (copies : List Term) (o : Option Record)
      → add_or_badarg lib copies o released ≡ (crash_unless_refused handles o, released)
  unfolding add
  asked-released handles copies none = refl
  asked-released handles copies (some r) = refl

  module _ (handles : Handles) where
    pub serve-released :
        (q : Request) → serve lib handles q released ≡ (released_answer handles q, released)
    unfolding put_batch merge_batch delete_batch single_delete_batch delete_range_batch write_batch
        clear_batch batch_set_save_point batch_rollback_to_save_point batch_count batch_data_size
        batch_to_list
    serve-released (puts []) = refl
    serve-released (puts (a ∷ [])) = refl
    serve-released (puts (a ∷ b ∷ [])) = asked-released handles _ _
    serve-released (puts (a ∷ b ∷ c ∷ rest)) = asked-released handles _ _
    serve-released (merges []) = refl
    serve-released (merges (a ∷ [])) = refl
    serve-released (merges (a ∷ b ∷ [])) = asked-released handles _ _
    serve-released (merges (a ∷ b ∷ c ∷ rest)) = asked-released handles _ _
    serve-released (delete_ranges []) = refl
    serve-released (delete_ranges (a ∷ [])) = refl
    serve-released (delete_ranges (a ∷ b ∷ [])) = asked-released handles _ _
    serve-released (delete_ranges (a ∷ b ∷ c ∷ rest)) = asked-released handles _ _
    serve-released (deletes []) = refl
    serve-released (deletes (a ∷ [])) = asked-released handles _ _
    serve-released (deletes (a ∷ b ∷ rest)) = asked-released handles _ _
    serve-released (single_deletes []) = refl
    serve-released (single_deletes (a ∷ [])) = asked-released handles _ _
    serve-released (single_deletes (a ∷ b ∷ rest)) = asked-released handles _ _
    serve-released (writes none options) = refl
    serve-released (writes (some accepts) options) = refl
    serve-released clears = refl
    serve-released sets_save_point = refl
    serve-released rolls_back = refl
    serve-released counts = refl
    serve-released sizes = refl
    serve-released lists = refl

    -- Releases return ok and refused arguments badarg, until a call of another kind crashes.
    abbrev pub released_replies : List BatchCall → List Reply
    released_replies [] = []
    released_replies (releases ∷ qs) = atom_ok ∷ released_replies qs
    released_replies (asks q ∷ qs) =
        released_answer handles q ∷ unless_crash (released_answer handles q) (released_replies qs)

    replies_of :
        (qs : List BatchCall) → replies (serve_call lib handles) qs released ≡ released_replies qs
    unfolding release_batch cleanup_batch
    replies_of [] = refl
    replies_of (releases ∷ qs) = ap (◌∷◌ atom_ok) (replies_of qs)
    replies_of (asks q ∷ qs) = rw (serve-released q, replies_of qs) refl

    -- After `ReleaseBatch`, calls in any order return ok for another release and badarg where they
    -- refuse their arguments, up to the first other call, which goes through a null pointer.
    pub release_batch-replies :
        (b : Batch W) (qs : List BatchCall)
        → replies (serve_call lib handles) qs (release_batch lib b).1 ≡ released_replies qs
    unfolding release_batch cleanup_batch
    release_batch-replies b qs = replies_of qs
