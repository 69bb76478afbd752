-- ===== src/Calls/Answered.antt =====
-- What each call of c_src/erocksdb_db.cc on one key, range or column family answers, by whether its
-- arguments are accepted and by the status of the library's call.
use erlang_rocksdb.Prelude.{
  ℕ, refl, sym, subst, inl, inr, Option, none, some, List, [], ◌∷◌, Bool-cases, Option-cases, ◌>>=◌,
}
use erlang_rocksdb.Bytes.{Bytes}
use erlang_rocksdb.Term.{
  Term, atom_error, atom_corruption, atom_unknown_status_error, inspect_binary, list_items, is_list,
}
use erlang_rocksdb.WriteBatch.{Record, Handles}
use erlang_rocksdb.Calls.{
  Code, k_ok, k_not_found, k_corruption, Status, Reply, fold, done_term, value_term, columns_term,
}
use erlang_rocksdb.Calls.Options.{
  WriteOptions, ReadOptions, parse_flush_option, parse_compact_range_option,
}
use erlang_rocksdb.Calls.Database.{
  Library, written, columns, write_options_of, entity_with, db_put_entity, flush_in, flush_cf,
  db_flush, compact_in, db_compact_range, range_slice,
}
use erlang_rocksdb.Calls.Reads.{read_options_of, read_with, db_get, db_get_entity}
use erlang_rocksdb.Calls.Asked.{asked, performed, serve-asked}
use erlang_rocksdb.Calls.Types.{
  ErlangType, a_binary, columns_type, error_tuple-HasType, columns-All,
}
use erlang_rocksdb.Calls.Outcome.{
  Request, gets, gets_entity, puts_entity, compacts, writes, flushes, value, done, Answers,
  Answered, answer_of, call, entity_of, range_of, status_of,
}

value_of :
    (c : Code) (s v : Bytes)
    → Answers (value a_binary) c (value_term (record { code = c; to_string = s }, v))
unfolding value_term
value_of k_ok s v = (_, _, refl, refl, (v, refl))
value_of k_not_found s v = refl
value_of k_corruption s v =
    error_tuple-HasType atom_corruption (record { code = k_corruption; to_string = s })
value_of c s v = error_tuple-HasType atom_unknown_status_error (record { code = c; to_string = s })

columns_of :
    (c : Code) (s : Bytes) (cols : List (Bytes × Bytes))
    → Answers (value columns_type) c (columns_term (record { code = c; to_string = s }, cols))
unfolding columns_term
columns_of k_ok s cols = (_, _, refl, refl, (_, refl, columns-All cols))
columns_of k_not_found s cols = refl
columns_of k_corruption s cols =
    error_tuple-HasType atom_corruption (record { code = k_corruption; to_string = s })
columns_of c s cols =
    error_tuple-HasType atom_unknown_status_error (record { code = c; to_string = s })

value-Answers : (r : Status × Bytes) → Answers (value a_binary) r.0.code (value_term r)
value-Answers (status, v) = value_of status.code status.to_string v

columns-Answers :
    (r : Status × List (Bytes × Bytes)) → Answers (value columns_type) r.0.code (columns_term r)
columns-Answers (status, cols) = columns_of status.code status.to_string cols

done-Answers :
    (c : Code) (s : Bytes)
    → Answers done c (done_term atom_error (record { code = c; to_string = s }))
done-Answers k_ok s = refl
done-Answers c s = error_tuple-HasType atom_error (record { code = c; to_string = s })

module _ {D : Type 0} (lib : Library D) (handles : Handles) (get_snapshot : Term → Option ℕ) where
  written-Answered : (r : Status × D) → Answered done (some r.0.code) (written r).0
  written-Answered (status, d) = (_, refl, done-Answers status.code status.to_string)

  abbrev Right : Request → Type 0
  Right q =
      (d : D)
      → Answered (answer_of q) (status_of lib handles get_snapshot q d)
          (call lib handles get_snapshot q d).0

  -- A read by its options, and by what its key and its column family are.
  module _ {V : Type 0} (ty : ErlangType) (get : ReadOptions → ℕ → Bytes → D → Status × V)
      (term : Status × V → Term) (law : (r : Status × V) → Answers (value ty) r.0.code (term r))
      (opts : Term) (d : D) where
    abbrev code_read : Option (Term × (ℕ × Bytes)) → Option Code
    code_read o =
        o >>= λ x. some (get (read_options_of lib handles get_snapshot x.0) x.1.0 x.1.1 d).0.code

    abbrev reply_read : Option (ℕ × Bytes) → Reply
    reply_read key = read_with lib handles get_snapshot (λ o c k d. term (get o c k d)) opts key d

    default-Answered :
        (o : Option Bytes)
        → Answered
            (value ty)
            (code_read (o >>= λ k. some (opts, (0, k))))
            (reply_read (o >>= λ k. some (0, k)))
    default-Answered none = refl
    default-Answered (some k) = (_, refl, law _)

    family-Answered :
        (o : Option Bytes) (f : Option ℕ)
        → Answered
            (value ty)
            (code_read (o >>= λ k. f >>= λ c. some (opts, (c, k))))
            (reply_read (o >>= λ k. f >>= λ c. some (c, k)))
    family-Answered none f = refl
    family-Answered (some k) none = refl
    family-Answered (some k) (some c) = (_, refl, law _)

  get-Right : (args : List Term) → Right (gets args)
  unfolding db_get
  get-Right [] d = refl
  get-Right (a ∷ []) d = refl
  get-Right (a ∷ b ∷ []) d =
      default-Answered a_binary lib.get value_term value-Answers b d (inspect_binary a)
  get-Right (a ∷ b ∷ c ∷ []) d =
      family-Answered a_binary lib.get value_term value-Answers c d (inspect_binary b)
        (handles.get_cf a)
  get-Right (a ∷ b ∷ c ∷ e ∷ rest) d =
      default-Answered a_binary lib.get value_term value-Answers b d (inspect_binary a)

  get_entity-Right : (args : List Term) → Right (gets_entity args)
  unfolding db_get_entity
  get_entity-Right [] d = refl
  get_entity-Right (a ∷ []) d = refl
  get_entity-Right (a ∷ b ∷ []) d =
      default-Answered columns_type lib.get_entity columns_term columns-Answers b d
        (inspect_binary a)
  get_entity-Right (a ∷ b ∷ c ∷ []) d =
      family-Answered columns_type lib.get_entity columns_term columns-Answers c d
        (inspect_binary b) (handles.get_cf a)
  get_entity-Right (a ∷ b ∷ c ∷ e ∷ rest) d =
      default-Answered columns_type lib.get_entity columns_term columns-Answers b d
        (inspect_binary a)

  -- `PutEntity` by its column family, its key, whether the columns are a list, and the columns.
  entity-Answered :
      (opts cols : Term) (f : Option ℕ) (o : Option Bytes) (d : D)
      → Answered done
          (entity_of lib handles get_snapshot opts f o cols >>= λ x.
            some (lib.put_entity (write_options_of lib handles x.0) x.1.0.0 x.1.0.1 x.1.1 d).0.code)
          (entity_with lib handles opts (f >>= λ c. o >>= λ k. some (c, k)) cols d).0
  entity-Answered opts cols none o d = refl
  entity-Answered opts cols (some c) none d = refl
  entity-Answered opts cols (some c) (some k) d = elim (Bool-cases (is_list cols)) [
    | inl e ↦ elim (Option-cases (columns (list_items cols))) [
      | inl n ↦ rw (e, n) refl
      | inr (cs, s) ↦ rw (e, s) (written-Answered (lib.put_entity _ c k cs d))
    ]
    | inr e ↦ rw e refl
  ]

  put_entity-Right : (args : List Term) → Right (puts_entity args)
  unfolding db_put_entity
  put_entity-Right [] d = refl
  put_entity-Right (a ∷ []) d = refl
  put_entity-Right (a ∷ b ∷ []) d = refl
  put_entity-Right (a ∷ b ∷ c ∷ []) d = entity-Answered c b (some 0) (inspect_binary a) d
  put_entity-Right (a ∷ b ∷ c ∷ e ∷ rest) d =
      entity-Answered e c (handles.get_cf a) (inspect_binary b) d

  -- `CompactRange` by its column family and its bounds.
  range-Answered :
      (opts : Term) (f : Option ℕ) (begin end_ : Option Bytes) (d : D)
      → Answered done
          (range_of lib handles get_snapshot opts f begin end_ >>= λ x.
            some
              (lib.compact_range
                (fold parse_compact_range_option x.0 lib.compact_range_options).1
                x.1.0
                (some x.1.1.0)
                (some x.1.1.1)
                d).0.code)
          (compact_in lib handles opts f begin end_ d).0
  range-Answered opts none begin end_ d = refl
  range-Answered opts (some c) none end_ d = refl
  range-Answered opts (some c) (some b) none d = refl
  range-Answered opts (some c) (some b) (some e) d =
      written-Answered (lib.compact_range _ c (some b) (some e) d)

  compact_range-Right : (args : List Term) → Right (compacts args)
  unfolding db_compact_range
  compact_range-Right [] d = refl
  compact_range-Right (a ∷ []) d = refl
  compact_range-Right (a ∷ b ∷ []) d = refl
  compact_range-Right (a ∷ b ∷ c ∷ []) d =
      range-Answered c (some 0) (range_slice a) (range_slice b) d
  compact_range-Right (a ∷ b ∷ c ∷ e ∷ []) d =
      range-Answered e (handles.get_cf a) (range_slice b) (range_slice c) d
  compact_range-Right (a ∷ b ∷ c ∷ e ∷ f ∷ rest) d = refl

  performed-Answered :
      (opts : WriteOptions) (r : Option Record) (d : D)
      → Answered done
          (r >>= λ x. some (lib.write opts x d).0.code)
          (performed lib handles opts r d).0
  performed-Answered opts none d = refl
  performed-Answered opts (some r) d = written-Answered (lib.write opts r d)

  flush-Answered :
      (opts : Term) (cf : Option ℕ) (d : D)
      → Answered done
          (cf >>= λ c.
            some (lib.flush (fold parse_flush_option opts lib.flush_options).1 c d).0.code)
          (flush_in lib handles opts cf d).0
  flush-Answered opts none d = refl
  flush-Answered opts (some c) d = written-Answered (lib.flush _ c d)

  pub call-Answered :
      (q : Request) (d : D)
      → Answered
          (answer_of q)
          (status_of lib handles get_snapshot q d)
          (call lib handles get_snapshot q d).0
  unfolding db_flush
  call-Answered (gets args) d = get-Right args d
  call-Answered (gets_entity args) d = get_entity-Right args d
  call-Answered (puts_entity args) d = put_entity-Right args d
  call-Answered (compacts args) d = compact_range-Right args d
  call-Answered (writes op args) d =
      subst (λ r. Answered done (status_of lib handles get_snapshot (writes op args) d) r.0)
        (sym (serve-asked lib handles op args d)) (performed-Answered _ (asked handles op args).0 d)
  call-Answered (flushes cf opts) d = flush-Answered opts (flush_cf lib handles cf) d
