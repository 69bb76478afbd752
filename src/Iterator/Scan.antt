-- ===== src/Iterator/Scan.antt =====
-- Moves in a row over an iterator: they answer each entry once, in order.
use erlang_rocksdb.Prelude.{
  ℕ, suc, ◌≡◌, ◌↔◌, refl, ◌∙◌, ap, subst, true, false, List, [], ◌∷◌, ◌++◌, map, foldl, length, ◌+◌,
  replicate, if◌then◌else◌, inl, inr, Bool-cases, All, arith,
}
use erlang_rocksdb.Bytes.{Bytes}
use erlang_rocksdb.Bytes.Order.{Lt, Lt-trans}
use erlang_rocksdb.Ordered.Set.{Ascending}
use erlang_rocksdb.Term.{Term, atom, binary, atom_first, atom_last, atom_next, atom_prev}
use erlang_rocksdb.Iterator.{
  Library, Reply, entry, invalid_iterator, here, move_atom, iterator_move, answers,
}
use erlang_rocksdb.Iterator.Cursor.{Entry, View, comes_before, pass, step_back, IsCursor}

abbrev pub entry_of : Entry → Reply
entry_of e = entry e.0 e.1

-- The answers of a scan that comes to its end.
abbrev pub scanned : List Entry → List Reply
scanned es = map entry_of es ++ invalid_iterator ∷ []

abbrev pub reverse_entries : List Entry → List Entry
reverse_entries = foldl (λ t e. e ∷ t) []

pass_all :
    (es before : List Entry) → pass (λ key. true) before es ≡ (foldl (λ t e. e ∷ t) before es, [])
pass_all [] before = refl
pass_all (e ∷ es) before = pass_all es (e ∷ before)

length-reverse :
    (es before : List Entry) → length (foldl (λ t e. e ∷ t) before es) ≡ length before + length es
length-reverse [] before = omega arith
length-reverse (e ∷ es) before = omega (arith, length-reverse es (e ∷ before))

-- The entries whose keys do not come before `k`.
abbrev pub at_or_past : Bytes → List Entry → List Entry
at_or_past k [] = []
at_or_past k (e ∷ es) = if comes_before k e.0 then at_or_past k es else e ∷ at_or_past k es

before_iff : (k x : Bytes) → (comes_before k x ≡ true) ↔ Lt x k
unfolding comes_before
before_iff k x = (λ h. ground arith, λ h. ground arith)

after_past :
    (k : Bytes) (x y : Bytes) → comes_before k x ≡ false → Lt x y → comes_before k y ≡ false
after_past k x y h l = elim (Bool-cases (comes_before k y)) [
  | inl b ↦ cc ((before_iff k x).1 (Lt-trans x y k l ((before_iff k y).0 b)), h)
  | inr b ↦ b
]

at_or_past_same :
    (k x : Bytes) (es : List Entry)
    → comes_before k x ≡ false
    → All (Lt x) (map (λ e. e.0) es)
    → at_or_past k es ≡ es
at_or_past_same k x [] h l = refl
at_or_past_same k x (e ∷ es) h l = rw (after_past k x e.0 h l.0, at_or_past_same k x es h l.1) refl

-- Where the keys ascend, those that come before `k` are at the front.
pass_before :
    (k : Bytes) (es before : List Entry)
    → Ascending (map (λ e. e.0) es)
    → pass (comes_before k) before es ≡ ((pass (comes_before k) before es).0, at_or_past k es)
pass_before k [] before asc = refl
pass_before k (e ∷ es) before asc = elim (Bool-cases (comes_before k e.0)) [
  | inl b ↦ rw b (pass_before k es (e ∷ before) asc.1)
  | inr b ↦ rw (b, at_or_past_same k e.0 es b asc.0) refl
]

module _ {I : Type 0} (lib : Library I) (view : I → View) (entries : List Entry)
    (law : IsCursor lib view entries) where
  here_at :
      (i : I) (e : Entry) (before rest : List Entry)
      → view i ≡ (before, e ∷ rest)
      → here lib i ≡ (entry_of e, i)
  here_at i e before rest h =
      let (v, s, k, x) = law.is_valid i e before rest h in rw (v, s, k, x) refl

  here_past :
      (i : I) (before : List Entry) → view i ≡ (before, []) → here lib i ≡ (invalid_iterator, i)
  here_past i before h = rw (law.not_valid i before h) refl

  -- `next` and `prev` on an iterator that is valid.
  next_at :
      (i : I) (e : Entry) (before rest : List Entry)
      → view i ≡ (before, e ∷ rest)
      → iterator_move lib (atom atom_next) i ≡ here lib (lib.next i)
  unfolding iterator_move move_atom
  next_at i e before rest h = rw (law.is_valid i e before rest h).0 refl

  prev_at :
      (i : I) (e : Entry) (before rest : List Entry)
      → view i ≡ (before, e ∷ rest)
      → iterator_move lib (atom atom_prev) i ≡ here lib (lib.prev i)
  unfolding iterator_move move_atom
  prev_at i e before rest h = rw (law.is_valid i e before rest h).0 refl

  abbrev onward : ℕ → I → List Reply
  onward n i = answers lib (replicate n (atom atom_next)) i

  scan_next :
      (i : I) (e : Entry) (before rest : List Entry)
      → view i ≡ (before, e ∷ rest)
      → onward (suc (length rest)) i ≡ scanned rest
  unfolding answers
  scan_next i e before [] h =
      rw (next_at i e before [] h, here_past (lib.next i) (e ∷ before) (law.next i e before [] h))
        refl
  scan_next i e before (f ∷ rest) h =
      let v = law.next i e before (f ∷ rest) h in
      rw (next_at i e before (f ∷ rest) h, here_at (lib.next i) f (e ∷ before) rest v)
        (ap (◌∷◌ (entry_of f)) (scan_next (lib.next i) f (e ∷ before) rest v))

  first_here : (i : I) → iterator_move lib (atom atom_first) i ≡ here lib (lib.seek_to_first i)
  unfolding iterator_move move_atom
  first_here i = elim (Bool-cases (lib.valid (lib.seek_to_first i))) [
    | inl v ↦ rw v refl
    | inr v ↦ rw v refl
  ]

  last_here : (i : I) → iterator_move lib (atom atom_last) i ≡ here lib (lib.seek_to_last i)
  unfolding iterator_move move_atom
  last_here i = elim (Bool-cases (lib.valid (lib.seek_to_last i))) [
    | inl v ↦ rw v refl
    | inr v ↦ rw v refl
  ]

  -- A first move that ends at `j`, then `next` over the rest.
  from_move :
      (t : Term) (i j : I) (before rest : List Entry)
      → iterator_move lib t i ≡ here lib j
      → view j ≡ (before, rest)
      → answers lib (t ∷ replicate (length rest) (atom atom_next)) i ≡ scanned rest
  unfolding answers
  from_move t i j before [] m h = rw (m, here_past j before h) refl
  from_move t i j before (e ∷ rest) m h =
      rw (m, here_at j e before rest h) (ap (◌∷◌ (entry_of e)) (scan_next j e before rest h))

  -- `first` and then `next`, as often as there are entries, answer each entry in order and then
  -- that the iterator is not valid.
  pub answers-forward :
      (i : I)
      → answers lib (atom atom_first ∷ replicate (length entries) (atom atom_next)) i
        ≡ scanned entries
  answers-forward i =
      from_move (atom atom_first) i (lib.seek_to_first i) [] entries (first_here i) (law.first i)

  scan_prev :
      (i : I) (e : Entry) (before rest : List Entry)
      → view i ≡ (before, e ∷ rest)
      → answers lib (replicate (suc (length before)) (atom atom_prev)) i ≡ scanned before
  unfolding answers
  scan_prev i e [] rest h =
      rw (prev_at i e [] rest h, here_past (lib.prev i) [] (law.prev i e [] rest h)) refl
  scan_prev i e (f ∷ before) rest h =
      let v = law.prev i e (f ∷ before) rest h in
      rw (prev_at i e (f ∷ before) rest h, here_at (lib.prev i) f before (e ∷ rest) v)
        (ap (◌∷◌ (entry_of f)) (scan_prev (lib.prev i) f before (e ∷ rest) v))

  from_last :
      (i : I) (before : List Entry)
      → view (lib.seek_to_last i) ≡ step_back (before, [])
      → answers lib (atom atom_last ∷ replicate (length before) (atom atom_prev)) i ≡ scanned before
  unfolding answers
  from_last i [] h = rw (last_here i, here_past (lib.seek_to_last i) [] h) refl
  from_last i (e ∷ before) h =
      rw (last_here i, here_at (lib.seek_to_last i) e before [] h)
        (ap (◌∷◌ (entry_of e)) (scan_prev (lib.seek_to_last i) e before [] h))

  -- `last` and then `prev`, as often as there are entries, answer each entry in the opposite order
  -- and then that the iterator is not valid.
  pub answers-backward :
      (i : I)
      → answers lib (atom atom_last ∷ replicate (length entries) (atom atom_prev)) i
        ≡ scanned (reverse_entries entries)
  answers-backward i =
      subst
        (λ n.
          answers lib (atom atom_last ∷ replicate n (atom atom_prev)) i
          ≡ scanned (reverse_entries entries))
        (length-reverse entries [] ∙ omega arith)
        (from_last i (reverse_entries entries) (law.last i ∙ ap step_back (pass_all entries [])))

  -- A search for `k`.
  seek_here : (k : Bytes) (i : I) → iterator_move lib (binary k) i ≡ here lib (lib.seek k i)
  unfolding iterator_move
  seek_here k i = refl

  -- A search for `k` and then `next` answer the entries whose keys do not come before `k`, each once
  -- and in order, where the keys of the source ascend and the library keeps its documented
  -- behaviour.
  pub answers-seek :
      (k : Bytes) (i : I)
      → Ascending (map (λ e. e.0) entries)
      → answers lib (binary k ∷ replicate (length (at_or_past k entries)) (atom atom_next)) i
        ≡ scanned (at_or_past k entries)
  answers-seek k i asc =
      from_move (binary k) i (lib.seek k i) _ (at_or_past k entries) (seek_here k i)
        (law.seek k i ∙ pass_before k entries [] asc)
