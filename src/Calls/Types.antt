-- ===== src/Calls/Types.antt =====
-- The types of the replies, after the -spec lines of src/rocksdb.erl and with the reasons of errors.
use erlang_rocksdb.Prelude.{◌≡◌, refl, ◌⊎◌, inl, inr, List, [], ◌∷◌, map, All}
use erlang_rocksdb.Prelude.Int.{ℤ, pos}
use erlang_rocksdb.Bytes.{Bytes}
use erlang_rocksdb.Term.{
  Term, atom, int, binary, Name, named, atom_error, atom_incomplete, make_list,
}
use erlang_rocksdb.Calls.{
  Code, k_incomplete, Status, tuple2, make_string, error_reason, error_tuple,
}

pub data ErlangType : Type 0 where
  an_atom : Name → ErlangType
  a_binary a_number : ErlangType
  pair_of or_else : ErlangType → ErlangType → ErlangType
  list_of : ErlangType → ErlangType

abbrev pub HasType : ErlangType → Term → Type 0
HasType (an_atom n) t = t ≡ atom (named n)
HasType a_binary t = (b : Bytes) × (t ≡ binary b)
HasType a_number t = (n : ℤ) × (t ≡ int n)
HasType (pair_of a b) t = (x : Term) × (y : Term) × (t ≡ tuple2 x y) × HasType a x × HasType b y
HasType (or_else a b) t = HasType a t ⊎ HasType b t
HasType (list_of a) t = (ts : List Term) × (t ≡ make_list ts) × All (HasType a) ts

-- `{error, incomplete}` or `{error, {Name, string()}}`
abbrev pub failure : Name → ErlangType
failure name =
    pair_of (an_atom atom_error)
      (or_else (an_atom atom_incomplete) (pair_of (an_atom name) (list_of a_number)))

numbers : (s : Bytes) → All (HasType a_number) (map (λ c. int (pos c)) s)
numbers [] = tt
numbers (c ∷ s) = ((pos c, refl), numbers s)

reason :
    (name : Name) (s : Bytes) (c : Code)
    → HasType
        (or_else (an_atom atom_incomplete) (pair_of (an_atom name) (list_of a_number)))
        (error_reason name s c)
reason name s k_incomplete = inl refl
reason name s _ =
    inr (atom (named name), make_string s, refl, refl, (map (λ c. int (pos c)) s, refl, numbers s))

pub error_tuple-HasType :
    (name : Name) (status : Status) → HasType (failure name) (error_tuple name status)
unfolding error_tuple
error_tuple-HasType name status = (
  atom (named atom_error),
  error_reason name status.to_string status.code,
  refl,
  refl,
  reason name status.to_string status.code,
)

abbrev pub columns_type : ErlangType
columns_type = list_of (pair_of a_binary a_binary)

pub columns-All :
    (cols : List (Bytes × Bytes))
    → All
        (HasType (pair_of a_binary a_binary))
        (map (λ it. tuple2 (binary it.0) (binary it.1)) cols)
columns-All [] = tt
columns-All ((n, v) ∷ cols) = ((binary n, binary v, refl, (n, refl), (v, refl)), columns-All cols)
