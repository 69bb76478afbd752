-- ===== src/SstFile/RoundTrip.antt =====
-- What is put into a file is read from it.
use erlang_rocksdb.Prelude.{
  ℕ, zero, suc, Bool, some, ◌≡◌, refl, sym, ap, ap₂, ◌∙◌, subst, true, List, [], ◌∷◌, ◌++◌, map,
  replicate, length, All, All-map, append_assoc, append-nil,
}
use erlang_rocksdb.Bytes.{Bytes}
use erlang_rocksdb.Bytes.Order.{Lt}
use erlang_rocksdb.Ordered.Set.{Ascending}
use erlang_rocksdb.Term.{atom, binary, named, atom_ok, atom_error, atom_first, atom_next}
use erlang_rocksdb.Iterator
use erlang_rocksdb.Iterator.{answers}
use erlang_rocksdb.Iterator.Cursor.{Entry, View, IsCursor}
use erlang_rocksdb.Iterator.Scan.{scanned, answers-forward}
use erlang_rocksdb.Calls.{k_ok, Status, Reply, returned, done_term}
use erlang_rocksdb.SstFile.{Library, sst_file_writer_put, sst_file_writer_finish}
use erlang_rocksdb.SstFile.Scan.{first, next, action_term, file_answers, file_answers-answers}

-- What the storage library documents of a writer: a key that is after all keys before is taken, and
-- a file of some keys can be finished.
pub record IsWriter {W F : Type 0} (lib : Library W F) (view : W → List Entry)
    (contents : F → List Entry) : Type 0 where
  pub put_status :
      (k v : Bytes) (w : W) → All (λ e. Lt e.0 k) (view w) → Status.code (lib.put k v w).0 ≡ k_ok
  pub put_view :
      (k v : Bytes) (w : W)
      → All (λ e. Lt e.0 k) (view w)
      → view (lib.put k v w).1 ≡ view w ++ (k, v) ∷ []
  pub finish_status :
      (w : W) (e : Entry) (es : List Entry) → view w ≡ e ∷ es → Status.code (lib.finish w).0 ≡ k_ok
  pub finish_contents :
      (w : W) (e : Entry) (es : List Entry) → view w ≡ e ∷ es → contents (lib.finish w).1 ≡ view w

abbrev pub keys : List Entry → List Bytes
keys = map (λ e. e.0)

abbrev pub ok_reply : Reply
ok_reply = returned (atom (named atom_ok))

done_ok : (s : Status) → Status.code s ≡ k_ok → done_term atom_error s ≡ atom (named atom_ok)
done_ok s h = rw h refl

-- All keys before come before those that are to be put.
abbrev Before : List Entry → List Entry → Type 0
Before xs es = All (λ x. All (Lt x.0) (keys es)) xs

All-append_one :
    (P : Entry → Type 0) (xs : List Entry) (y : Entry) → All P xs → P y → All P (xs ++ y ∷ [])
All-append_one P [] y h p = (p, tt)
All-append_one P (x ∷ xs) y h p = (h.0, All-append_one P xs y h.1 p)

module _ {W F : Type 0} (lib : Library W F) where
  -- The replies to puts in turn, and the writer after them.
  abbrev pub put_all : List Entry → W → List Reply × W
  put_all [] w = ([], w)
  put_all (e ∷ es) w =
      let r : Reply × W = sst_file_writer_put lib (binary e.0) (binary e.1) w in
      let rest : List Reply × W = put_all es r.1 in (r.0 ∷ rest.0, rest.1)

  module _ (view : W → List Entry) (contents : F → List Entry)
      (law : IsWriter lib view contents) where
    put_one :
        (e : Entry) (w : W)
        → All (λ x. Lt x.0 e.0) (view w)
        → (sst_file_writer_put lib (binary e.0) (binary e.1) w).0 ≡ ok_reply
    unfolding sst_file_writer_put
    put_one e w h = ap returned (done_ok (lib.put e.0 e.1 w).0 (law.put_status e.0 e.1 w h))

    put_one_view :
        (e : Entry) (w : W)
        → All (λ x. Lt x.0 e.0) (view w)
        → view (sst_file_writer_put lib (binary e.0) (binary e.1) w).1 ≡ view w ++ e ∷ []
    unfolding sst_file_writer_put
    put_one_view e w h = law.put_view e.0 e.1 w h

    put_all_taken :
        (es : List Entry) (w : W)
        → Ascending (keys es)
        → Before (view w) es
        → ((put_all es w).0 ≡ map (λ e. ok_reply) es) × (view (put_all es w).1 ≡ view w ++ es)
    put_all_taken [] w asc h = (refl, sym (append-nil (view w)))
    put_all_taken (e ∷ es) w asc h =
        let heads : All (λ x. Lt x.0 e.0) (view w) = All-map (λ x p. p.0) (view w) h in
        let tails : Before (view w) es = All-map (λ x p. p.1) (view w) h in
        let after : Before (view w ++ e ∷ []) es =
          All-append_one (λ x. All (Lt x.0) (keys es)) (view w) e tails asc.0 in
        let w' : W = (sst_file_writer_put lib (binary e.0) (binary e.1) w).1 in
        let now : Before (view w') es =
          subst (λ v. Before v es) (sym (put_one_view e w heads)) after in
        let (r, v) = put_all_taken es w' asc.1 now in
        (
          ap₂ ◌∷◌ (put_one e w heads) r,
          v ∙ ap (λ x. x ++ es) (put_one_view e w heads) ∙ append_assoc (view w) (e ∷ []) es,
        )

    finished :
        (w : W) (e : Entry) (es : List Entry)
        → view w ≡ e ∷ es
        → (sst_file_writer_finish lib w).0 ≡ ok_reply
    unfolding sst_file_writer_finish
    finished w e es h = ap returned (done_ok (lib.finish w).0 (law.finish_status w e es h))

    finished_contents :
        (w : W) (e : Entry) (es : List Entry)
        → view w ≡ e ∷ es
        → contents (sst_file_writer_finish lib w).1 ≡ e ∷ es
    unfolding sst_file_writer_finish
    finished_contents w e es h = law.finish_contents w e es h ∙ h

    module _ {I : Type 0} (reader : Iterator.Library I) (cursor : I → View)
        (no_error : (i : I) → reader.status i ≡ true) where
      terms_of : (n : ℕ) → map action_term (replicate n next) ≡ replicate n (atom atom_next)
      terms_of zero = refl
      terms_of (suc n) = ap (◌∷◌ (atom atom_next)) (terms_of n)

      scan_file :
          (es : List Entry) (i : I) (r : Bool)
          → IsCursor reader cursor es
          → file_answers reader
              (first ∷ replicate (length es) next)
              (record { iterator = some i; reader_ref = r })
            ≡ scanned es
      scan_file es i r reads =
          file_answers-answers reader no_error (first ∷ replicate (length es) next) i r
          ∙ ap (λ ts. answers reader (atom atom_first ∷ ts) i) (terms_of (length es))
          ∙ answers-forward reader cursor es reads i

      -- One entry or more with ascending keys, put in turn into an empty writer, are all taken, the
      -- file is finished, and `first` and then `next` over an iterator of it answer the entries in
      -- order and then that the iterator is not valid. The writer and the iterator are as documented
      -- and meet no error.
      pub put_all-file_answers :
          (e : Entry) (es : List Entry) (w : W)
          → view w ≡ []
          → Ascending (keys (e ∷ es))
          → IsCursor reader cursor (contents (sst_file_writer_finish lib (put_all (e ∷ es) w).1).1)
          → (i : I) (r : Bool)
          → ((put_all (e ∷ es) w).0 ≡ map (λ x. ok_reply) (e ∷ es))
            × ((sst_file_writer_finish lib (put_all (e ∷ es) w).1).0 ≡ ok_reply)
            × (file_answers reader
                  (first ∷ replicate (length (e ∷ es)) next)
                  (record { iterator = some i; reader_ref = r })
                ≡ scanned (e ∷ es))
      put_all-file_answers e es w empty asc reads i r =
          let (replies, v) =
            put_all_taken (e ∷ es) w asc (subst (λ x. Before x (e ∷ es)) (sym empty) tt) in
          let all : view (put_all (e ∷ es) w).1 ≡ e ∷ es = v ∙ ap (λ x. x ++ e ∷ es) empty in
          (
            replies,
            finished (put_all (e ∷ es) w).1 e es all,
            scan_file (e ∷ es) i r (
                subst (IsCursor reader cursor) (finished_contents (put_all (e ∷ es) w).1 e es all)
                  reads),
          )
