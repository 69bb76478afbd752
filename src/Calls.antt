-- ===== src/Calls.antt =====
-- What the NIF functions that call the storage library share: c_src/util.cc and `fold` of
-- c_src/atoms.h.
pub mod Options
pub mod Database
pub mod Reads
pub mod Agreement
pub mod Asked
pub mod Types
pub mod Outcome
pub mod Answered
use erlang_rocksdb.Prelude.{
  ℕ, Bool, true, false, Option, none, some, List, [], ◌∷◌, map, if◌then◌else◌, ◌>>=◌,
}
use erlang_rocksdb.Prelude.Int.{pos}
use erlang_rocksdb.Bytes.{Bytes}
use erlang_rocksdb.Term.{
  Term, atom, int, binary, cons, tuple, element, end, Name, named, atom_ok, atom_error,
  atom_not_found, atom_corruption, atom_unknown_status_error, atom_incomplete, make_list,
  inspect_binary,
}

-- `rocksdb::Status`, whose text is the storage library's.
pub data Code : Type 0 where
  k_ok k_not_found k_corruption k_incomplete k_busy k_timed_out k_try_again k_expired : Code
  k_other : ℕ → Code

pub record Status : Type 0 where
  pub code : Code
  pub to_string : Bytes

-- What a NIF function returns: a term, or the exception `badarg`.
pub data Reply : Type 0 where
  badarg : Reply
  returned : Term → Reply

abbrev pub tuple2 : Term → Term → Term
tuple2 a b = tuple (element a (element b end))

-- `enif_make_string`: the list of the characters.
abbrev pub make_string : Bytes → Term
make_string s = make_list (map (λ c. int (pos c)) s)

-- `error_tuple` by the status's code.
abbrev pub error_reason : Name → Bytes → Code → Term
error_reason error text k_incomplete = atom (named atom_incomplete)
error_reason error text _ = tuple2 (atom (named error)) (make_string text)

unfoldable pub error_tuple : Name → Status → Term
error_tuple error status =
    tuple2 (atom (named atom_error)) (error_reason error status.to_string status.code)

-- `error_tuple` of a message.
abbrev pub error_message : Name → Bytes → Term
error_message error msg =
    tuple2 (atom (named atom_error)) (tuple2 (atom (named error)) (make_string msg))

abbrev pub is_ok : Status → Bool
is_ok status = elim status.code [ k_ok ↦ true | _ ↦ false ]

-- How a call ends that returns `ok` or one kind of error.
abbrev pub done_term : Name → Status → Term
done_term error status = elim status.code [
  | k_ok ↦ atom (named atom_ok)
  | _ ↦ error_tuple error status
]

-- The branches of a read's status that is not ok.
abbrev pub absent_term : Status → Term
absent_term status = elim status.code [
  | k_not_found ↦ atom (named atom_not_found)
  | k_corruption ↦ error_tuple atom_corruption status
  | _ ↦ error_tuple atom_unknown_status_error status
]

-- The answer for one key of `Get`, `MultiGet` and their transactional versions: the status, then
-- the value.
unfoldable pub value_term : Status × Bytes → Term
unfolding error_tuple
value_term (status, value) =
    if is_ok status then tuple2 (atom (named atom_ok)) (binary value) else absent_term status

-- The answer of `GetEntity`, the status first.
unfoldable pub columns_term : Status × List (Bytes × Bytes) → Term
unfolding error_tuple
columns_term (status, cols) =
    if is_ok status
    then tuple2 (atom (named atom_ok))
        (make_list (map (λ it. tuple2 (binary it.0) (binary it.1)) cols))
    else absent_term status

-- `fold`: the cells in turn, up to the first for which `fun` does not return `ok`. The first result
-- says whether there was none.
module _ {ℓ} {Acc : Type ℓ} where
  unfoldable pub fold : (Term → Acc → Bool × Acc) → Term → Acc → Bool × Acc
  fold fun (cons head tail) acc =
      let rest : Acc → Bool × Acc = fold fun tail in
      let r : Bool × Acc = fun head acc in if r.0 then rest r.1 else r
  fold fun _ acc = (true, acc)

-- The keys of `MultiGet`: binaries, or nothing.
unfoldable pub key_slices : List Term → Option (List Bytes)
key_slices [] = some []
key_slices (head ∷ tail) = inspect_binary head >>= λ k. key_slices tail >>= λ ks. some (k ∷ ks)
