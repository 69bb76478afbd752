-- ===== src/ErlangMerge/Append.antt =====
-- RocksDB may merge a run of operands in several rounds: the rounds give what one merge gives.
use erlang_rocksdb.Prelude.{
  ◌≡◌, refl, sym, ap, subst, ◌∙◌, inl, inr, true, Option, none, some, List, [], ◌∷◌, ◌++◌,
  Bool-cases,
}
use erlang_rocksdb.Prelude.Int.{ℤ, ◌+ℤ◌}
use erlang_rocksdb.Bytes.{Bytes}
use erlang_rocksdb.Term.{
  Term, Runtime, atom, int, float, binary, nil, cons, tuple, opaque, is_int64, list_items,
  make_list,
}
use erlang_rocksdb.ErlangMerge.Operations.{
  Merged, merged, rejected, undefined, exception, ◌>>=◌, or_reject, int_operand, add_int,
  list_operation, binary_operation,
}
use erlang_rocksdb.ErlangMerge.Operator.{
  operand_terms, int_loop, list_loop, binary_loop, merge_erlang_int, merge_erlang_list,
  merge_erlang_binary, merge_existing, full_merge_v2,
}

-- What is documented of the runtime: an encoded term decodes to itself.
pub record IsFaithful (runtime : Runtime) : Type 0 where
  pub decode-encode :
      (t : Term) (b : Bytes) → runtime.term_to_binary t ≡ some b → runtime.binary_to_term b ≡ some t

>>=-merged {ℓ κ} :
    {A : Type ℓ} {B : Type κ} (m : Merged A) (f : A → Merged B) {b : B}
    → (m >>= f) ≡ merged b
    → (a : A) × (m ≡ merged a) × (f a ≡ merged b)
>>=-merged (merged a) f h = (a, refl, h)
>>=-merged rejected f h = cc
>>=-merged undefined f h = cc
>>=-merged exception f h = cc

>>=_assoc {ℓ κ μ} :
    {A : Type ℓ} {B : Type κ} {C : Type μ} (m : Merged A) (f : A → Merged B) (g : B → Merged C)
    → ((m >>= f) >>= g) ≡ (m >>= λ a. f a >>= g)
>>=_assoc (merged a) f g = refl
>>=_assoc rejected f g = refl
>>=_assoc undefined f g = refl
>>=_assoc exception f g = refl

or_reject-merged {ℓ} : {A : Type ℓ} (o : Option A) {a : A} → or_reject o ≡ merged a → o ≡ some a
or_reject-merged none h = cc
or_reject-merged (some a) h = cc

>>=_cong {ℓ κ} :
    {A : Type ℓ} {B : Type κ} (m : Merged A) {f g : A → Merged B}
    → ((a : A) → f a ≡ g a)
    → (m >>= f) ≡ (m >>= g)
>>=_cong (merged a) h = h a
>>=_cong rejected h = refl
>>=_cong undefined h = refl
>>=_cong exception h = refl

list_items-make_list : (l : List Term) → list_items (make_list l) ≡ l
list_items-make_list [] = refl
list_items-make_list (t ∷ l) = ap (◌∷◌ t) (list_items-make_list l)

merged_inj {ℓ} : {A : Type ℓ} {a b : A} → merged a ≡ merged b → a ≡ b
merged_inj e = cc

add_int-is_int64 : (a b m : ℤ) → add_int a b ≡ merged m → is_int64 m ≡ true
unfolding add_int
add_int-is_int64 a b m h = elim (Bool-cases (is_int64 (a +ℤ b))) [
  | inl e ↦ subst (λ x. is_int64 x ≡ true) (merged_inj (rw (e, add_int) at h)) e
  | inr e ↦ cc (rw (e, add_int) at h)
]

module _ (runtime : Runtime) where
  open runtime use {binary_to_term, term_to_binary, compares_equal}

  int_loop-append :
      (n : ℤ) (os os' : List Bytes)
      → int_loop runtime n (os ++ os') ≡ (int_loop runtime n os >>= λ m. int_loop runtime m os')
  unfolding int_loop
  int_loop-append n [] os' = refl
  int_loop-append n (o ∷ os) os' =
      >>=_cong (operand_terms runtime o) (λ op.
        >>=_cong (int_operand op) (λ v.
          >>=_cong (add_int n v) (λ sum. int_loop-append sum os os')
          ∙ sym (>>=_assoc (add_int n v) (λ sum. int_loop runtime sum os) _))
        ∙ sym (>>=_assoc (int_operand op) _ _))
      ∙ sym (>>=_assoc (operand_terms runtime o) _ _)

  int_loop-is_int64 :
      (n : ℤ) (os : List Bytes) (m : ℤ)
      → is_int64 n ≡ true
      → int_loop runtime n os ≡ merged m
      → is_int64 m ≡ true
  unfolding int_loop
  int_loop-is_int64 n [] m fits h = subst (λ x. is_int64 x ≡ true) (merged_inj h) fits
  int_loop-is_int64 n (o ∷ os) m fits h =
      let (op, e₁, h₁) = >>=-merged (operand_terms runtime o) _ h in
      let (v, e₂, h₂) = >>=-merged (int_operand op) _ h₁ in
      let (sum, e₃, h₃) = >>=-merged (add_int n v) _ h₂ in
      int_loop-is_int64 sum os m (add_int-is_int64 n v sum e₃) h₃

  list_loop-append :
      (l : List Term) (os os' : List Bytes)
      → list_loop runtime l (os ++ os') ≡ (list_loop runtime l os >>= λ m. list_loop runtime m os')
  unfolding list_loop
  list_loop-append l [] os' = refl
  list_loop-append l (o ∷ os) os' =
      >>=_cong (operand_terms runtime o) (λ op.
        >>=_cong (list_operation compares_equal op l) (λ l'. list_loop-append l' os os')
        ∙ sym (>>=_assoc (list_operation compares_equal op l) (λ l'. list_loop runtime l' os) _))
      ∙ sym (>>=_assoc (operand_terms runtime o) _ _)

  binary_loop-append :
      (s : Bytes) (os os' : List Bytes)
      → binary_loop runtime s (os ++ os')
        ≡ (binary_loop runtime s os >>= λ m. binary_loop runtime m os')
  unfolding binary_loop
  binary_loop-append s [] os' = refl
  binary_loop-append s (o ∷ os) os' =
      >>=_cong (operand_terms runtime o) (λ op.
        >>=_cong (binary_operation op s) (λ s'. binary_loop-append s' os os')
        ∙ sym (>>=_assoc (binary_operation op s) (λ s'. binary_loop runtime s' os) _))
      ∙ sym (>>=_assoc (operand_terms runtime o) _ _)

  module _ (faithful : IsFaithful runtime) where
    read_back :
        (t : Term) (v : Bytes) → or_reject (term_to_binary t) ≡ merged v → binary_to_term v ≡ some t
    read_back t v h = faithful.decode-encode t v (or_reject-merged (term_to_binary t) h)

    -- The next round, on the value that a round left.
    abbrev next_round : Bytes → List Bytes → Merged Bytes
    next_round v os = or_reject (binary_to_term v) >>= λ t. merge_existing runtime t os

    merge_existing-make_list :
        (l : List Term) (os : List Bytes)
        → merge_existing runtime (make_list l) os ≡ merge_erlang_list runtime l os
    unfolding merge_existing
    merge_existing-make_list [] os = refl
    merge_existing-make_list (t ∷ l) os =
        ap (λ i. merge_erlang_list runtime (t ∷ i) os) (list_items-make_list l)

    list_rounds :
        (l : List Term) (os os' : List Bytes) (v : Bytes)
        → merge_erlang_list runtime l os ≡ merged v
        → next_round v os' ≡ merge_erlang_list runtime l (os ++ os')
    unfolding merge_erlang_list
    list_rounds l os os' v h =
        let (l', el, ev) = >>=-merged (list_loop runtime l os) _ h in
        rw (read_back (make_list l') v ev)
          (merge_existing-make_list l' os' ∙ rw (list_loop-append l os os') (rw el))

    binary_rounds :
        (s : Bytes) (os os' : List Bytes) (v : Bytes)
        → merge_erlang_binary runtime s os ≡ merged v
        → next_round v os' ≡ merge_erlang_binary runtime s (os ++ os')
    unfolding merge_erlang_binary merge_existing
    binary_rounds s os os' v h =
        let (s', es, ev) = >>=-merged (binary_loop runtime s os) _ h in
        rw (read_back (binary s') v ev) (rw (binary_loop-append s os os') (rw es))

    int_rounds :
        (n : ℤ) (os os' : List Bytes) (v : Bytes)
        → is_int64 n ≡ true
        → merge_erlang_int runtime n os ≡ merged v
        → next_round v os' ≡ merge_erlang_int runtime n (os ++ os')
    unfolding merge_erlang_int merge_existing
    int_rounds n os os' v fits h =
        let (m, em, ev) = >>=-merged (int_loop runtime n os) _ h in
        rw (read_back (int m) v ev)
          (rw (int_loop-is_int64 n os m fits em) (rw (int_loop-append n os os') (rw em)))

    existing_rounds :
        (t : Term) (os os' : List Bytes) (v : Bytes)
        → merge_existing runtime t os ≡ merged v
        → next_round v os' ≡ merge_existing runtime t (os ++ os')
    unfolding merge_existing
    existing_rounds (atom a) os os' v h = cc
    existing_rounds (int n) os os' v h = elim (Bool-cases (is_int64 n)) [
      | inl e ↦ rw e (int_rounds n os os' v e (rw e at h))
      | inr e ↦ cc (rw e at h)
    ]
    existing_rounds (float x) os os' v h = cc
    existing_rounds (binary s) os os' v h = binary_rounds s os os' v h
    existing_rounds nil os os' v h = list_rounds [] os os' v h
    existing_rounds (cons t u) os os' v h = list_rounds (list_items (cons t u)) os os' v h
    existing_rounds (tuple ts) os os' v h = cc
    existing_rounds (opaque n) os os' v h = cc

    -- With a runtime that decodes what it encoded, if a round of operands merges into a stored value,
    -- then merging more operands into its result is merging all of them into the value at once, errors
    -- included.
    pub full_merge_v2-append :
        (existing : Bytes) (os os' : List Bytes) {value : Bytes}
        → full_merge_v2 runtime (some existing) os ≡ merged value
        → full_merge_v2 runtime (some value) os' ≡ full_merge_v2 runtime (some existing) (os ++ os')
    unfolding full_merge_v2
    full_merge_v2-append existing os os' {value} h =
        let (t, et, em) = >>=-merged (or_reject (binary_to_term existing)) _ h in
        rw et (existing_rounds t os os' value em)
