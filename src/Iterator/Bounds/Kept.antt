-- ===== src/Iterator/Bounds/Kept.antt =====
-- Which slices are still there when a function has returned its iterators.
use erlang_rocksdb.Prelude.{
  ℕ, zero, suc, ◌≡◌, refl, sym, ◌∙◌, ap, subst, Bool, true, false, Option, none, some, List, [],
  ◌∷◌, get_elem?, if◌then◌else◌, Bool-cases, inl, inr, ◌⊎◌, some_inj, arith,
}
use erlang_rocksdb.Term.{Term, is_list, list_items}
use erlang_rocksdb.DbObject.Shutdown.{mem}
use erlang_rocksdb.Iterator.Bounds.{
  Slices, delete_slice, Parsed, Itr, no_bounds, parse_option, parse_iterator_options, itr_of,
  new_iterator, coalescing_iterator, transaction_bounds, iterator_transaction,
  pessimistic_transaction_iterator, clones, with_clones, new_iterators,
}

module _ (is_snapshot : Term → Bool) where
  -- The bounds of the read options are the slices in hand, and none has been deleted.
  pub record IsInHand (p : Parsed) : Type 0 where
    pub upper : p.iterate_upper_bound ≡ p.upper_bound_slice
    pub lower : p.iterate_lower_bound ≡ p.lower_bound_slice
    pub kept : p.slices.deleted ≡ []

  option-IsInHand :
      (t : Term) (p : Parsed)
      → (parse_option is_snapshot t p).0 ≡ true
      → IsInHand p
      → IsInHand (parse_option is_snapshot t p).1
  unfolding parse_option
  option-IsInHand t p e h = ground arith

  parse-IsInHand :
      (ts : List Term) (p : Parsed)
      → (parse_iterator_options is_snapshot ts p).0 ≡ true
      → IsInHand p
      → IsInHand (parse_iterator_options is_snapshot ts p).1
  unfolding parse_iterator_options
  parse-IsInHand [] p e h = h
  parse-IsInHand (t ∷ ts) p e h = elim (Bool-cases (parse_option is_snapshot t p).0) [
    | inl q ↦ rw q (parse-IsInHand ts _ (goes_on q e) (option-IsInHand t p q h))
    | inr q ↦ cc (goes_not q e)
  ]
    where
      rest : Bool × Parsed
      rest = parse_iterator_options is_snapshot ts (parse_option is_snapshot t p).1

      stop : Bool × Parsed
      stop = (false, (parse_option is_snapshot t p).1)

      goes_on :
          (parse_option is_snapshot t p).0 ≡ true
          → (if (parse_option is_snapshot t p).0 then rest else stop).0 ≡ true
          → rest.0 ≡ true
      goes_on q e = sym (ap (λ b. (if b then rest else stop).0) q) ∙ e

      goes_not :
          (parse_option is_snapshot t p).0 ≡ false
          → (if (parse_option is_snapshot t p).0 then rest else stop).0 ≡ true
          → false ≡ true
      goes_not q e = sym (ap (λ b. (if b then rest else stop).0) q) ∙ e

  no_bounds-IsInHand : IsInHand no_bounds
  no_bounds-IsInHand = record { upper = refl; lower = refl; kept = refl }

  -- What an object holds: the bounds that RocksDB reads are its own slices, and none was deleted.
  pub record IsOwner (o : Itr) (s : Slices) : Type 0 where
    pub upper : o.iterate_upper_bound ≡ o.upper_bound_slice
    pub lower : o.iterate_lower_bound ≡ o.lower_bound_slice
    pub kept : s.deleted ≡ []

  owner : (q : Parsed) → IsInHand q → IsOwner (itr_of q) q.slices
  owner q h = record { upper = h.upper; lower = h.lower; kept = h.kept }

  result-IsOwner :
      (r : Bool × Parsed) (o : Itr) (s : Slices)
      → (r.0 ≡ true → IsInHand r.1)
      → (r.0 ≡ true) × ((itr_of r.1) ≡ o) × (r.1.slices ≡ s)
      → IsOwner o s
  result-IsOwner r o s h e =
      subst (λ x. IsOwner x s) e.1 (subst (IsOwner (itr_of r.1)) e.2 (owner r.1 (h e.0)))

  transaction_bounds-IsOwner :
      (has_cf : Bool) (options : List Term) (o : Itr) (s : Slices)
      → transaction_bounds is_snapshot has_cf options ≡ (some o, s)
      → IsOwner o s
  unfolding transaction_bounds
  transaction_bounds-IsOwner has_cf options o s e =
      result-IsOwner (parse_iterator_options is_snapshot options no_bounds) o s
        (λ t. parse-IsInHand options no_bounds t no_bounds-IsInHand) (ground (arith, e))

  listed-IsOwner :
      (has_tx has_cf : Bool) (options : Term) (o : Itr) (s : Slices)
      → (if has_tx
          then if is_list options
            then transaction_bounds is_snapshot has_cf (list_items options)
            else (none, no_bounds.slices)
          else (none, no_bounds.slices))
        ≡ (some o, s)
      → IsOwner o s
  listed-IsOwner true has_cf options o s e = elim (Bool-cases (is_list options)) [
    | inl q ↦ transaction_bounds-IsOwner has_cf (list_items options) o s (ground (arith, q, e))
    | inr q ↦ ground (arith, q, e)
  ]
  listed-IsOwner false has_cf options o s e = ground (arith, e)

  -- An iterator that `Iterator`, `CoalescingIterator`, `IteratorTransaction` or
  -- `PessimisticTransactionIterator` returns owns the bounds that RocksDB reads through it, and no
  -- slice has been deleted.
  pub new_iterator-IsOwner :
      (has_cf : Bool) (options : List Term) (o : Itr) (s : Slices)
      → (new_iterator is_snapshot has_cf options ≡ (some o, s))
        ⊎ ((available : Bool) × (coalescing_iterator is_snapshot has_cf available options
              ≡ (some o, s)))
        ⊎ ((has_tx : Bool) × (t : Term) × ((iterator_transaction is_snapshot has_tx has_cf t
                ≡ (some o, s))
              ⊎ (pessimistic_transaction_iterator is_snapshot has_tx has_cf t ≡ (some o, s))))
      → IsOwner o s
  unfolding new_iterator coalescing_iterator iterator_transaction pessimistic_transaction_iterator
  new_iterator-IsOwner has_cf options o s (inl e) =
      result-IsOwner (parse_iterator_options is_snapshot options no_bounds) o s
        (λ t. parse-IsInHand options no_bounds t no_bounds-IsInHand) (ground (arith, e))
  new_iterator-IsOwner has_cf options o s (inr (inl p)) =
      result-IsOwner (parse_iterator_options is_snapshot options no_bounds) o s
        (λ t. parse-IsInHand options no_bounds t no_bounds-IsInHand) (ground (arith, p.1))
  new_iterator-IsOwner has_cf options o s (inr (inr (has_tx, t, inl e))) =
      listed-IsOwner has_tx has_cf t o s e
  new_iterator-IsOwner has_cf options o s (inr (inr (has_tx, t, inr e))) =
      listed-IsOwner has_tx has_cf t o s e

  clones_read :
      (n : ℕ) (p : Parsed) (s : Slices) (i : ℕ) (o : Itr)
      → get_elem? (clones is_snapshot n p s).0 i ≡ some o
      → (o.iterate_upper_bound ≡ p.iterate_upper_bound)
        × (o.iterate_lower_bound ≡ p.iterate_lower_bound)
  unfolding clones
  clones_read zero p s i o h = cc
  clones_read (suc n) p s zero o h =
      (ap Itr.iterate_upper_bound (sym (some_inj h)), ap Itr.iterate_lower_bound (sym (some_inj h)))
  clones_read (suc n) p s (suc i) o h = clones_read n p (with_clones is_snapshot p s).1 i o h

  deleted_upper :
      (u l : Option ℕ) (s : Slices) (b : ℕ)
      → u ≡ some b
      → mem b (delete_slice l (delete_slice u s)).deleted ≡ true
  deleted_upper u l s b e = ground arith

  -- An iterator that `Iterators` returns with an upper bound reads a slice that has been deleted.
  pub new_iterators_deleted :
      (has_cfs : Bool) (count : ℕ) (options : List Term) (os : List Itr) (s : Slices)
      → new_iterators is_snapshot has_cfs count options ≡ (some os, s)
      → (i : ℕ) (o : Itr) (b : ℕ) → get_elem? os i ≡ some o
      → o.iterate_upper_bound ≡ some b
      → mem b s.deleted ≡ true
  unfolding new_iterators
  new_iterators_deleted has_cfs count options os s e i o b g u =
      by_result (parse_iterator_options is_snapshot options no_bounds)
        (λ t. parse-IsInHand options no_bounds t no_bounds-IsInHand) (ground (arith, e))
    where
      by_result :
          (r : Bool × Parsed)
          → (r.0 ≡ true → IsInHand r.1)
          → (r.0 ≡ true)
            × ((clones is_snapshot count r.1 r.1.slices).0 ≡ os)
            × (delete_slice r.1.lower_bound_slice
                  (delete_slice r.1.upper_bound_slice (clones is_snapshot count r.1 r.1.slices).1)
                ≡ s)
          → mem b s.deleted ≡ true
      by_result r h (t, same, final) =
          subst (λ x. mem b x.deleted ≡ true) final
            (deleted_upper r.1.upper_bound_slice r.1.lower_bound_slice
              (clones is_snapshot count r.1 r.1.slices).1 b
              (sym (h t).upper
                ∙ (sym (clones_read count r.1 r.1.slices i o (ap (λ l. get_elem? l i) same ∙ g)).0
                    ∙ u)))
