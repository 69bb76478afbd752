-- ===== src/Examples/ErlangMerges.antt =====
-- Merges of Erlang terms at concrete inputs, with a small term format.
use erlang_rocksdb.Prelude.{
  ℕ, zero, suc, ◌+◌, ◌-◌, ◌<◌, ◌^◌, ◌≡◌, ◌↔◌, refl, sym, ap, Bool, Option, none, some, List, [],
  ◌∷◌, length, arith, if◌then◌else◌, ◌==◌, some_inj,
}
use erlang_rocksdb.Prelude.Int.{pos, negsuc, ◌+ℤ◌}
use erlang_rocksdb.Bytes.{Bytes}
use erlang_rocksdb.Bytes.BigEndian.{to_u32}
use erlang_rocksdb.Term.{
  Term, Runtime, atom, int, float, binary, nil, cons, tuple, end, element, opaque, int_add,
  list_substract, is_list, is_proper_list,
}
use erlang_rocksdb.ErlangMerge.Operations.{
  merged, undefined, exception, or_reject, int_operand, add_int, replace,
}
use erlang_rocksdb.ErlangMerge.Operator.{
  operand_terms, int_loop, merge_erlang_int, merge_existing, full_merge_v2,
}
use erlang_rocksdb.ErlangMerge.Append.{IsFaithful}
use erlang_rocksdb.ErlangMerge.Integers.{Adds, sums_fit, total, merge_erlang_int-total}
use erlang_rocksdb.ErlangMerge.Lists.{IsEquivalence}
use erlang_rocksdb.ErlangMerge.Binaries.{replace-exception}

-- A number is written as 0 and itself, a binary as 1 and its bytes; 2 and a number is an addition.
abbrev write_term : Term → Option Bytes
write_term (int (pos n)) = some (0 ∷ n ∷ [])
write_term (binary b) = some (1 ∷ b)
write_term _ = none

abbrev read_term : Bytes → Option Term
read_term (zero ∷ n ∷ []) = some (int (pos n))
read_term (suc zero ∷ b) = some (binary b)
read_term (suc (suc zero) ∷ n ∷ []) =
    some (tuple (element (atom int_add) (element (int (pos n)) end)))
read_term _ = none

abbrev rank : Term → ℕ
rank (int (pos n)) = suc n
rank _ = 0

abbrev same_rank : Term → Term → Bool
same_rank t u = rank t == rank u

abbrev small : Runtime
small = record {
  binary_to_term = read_term;
  term_to_binary = write_term;
  compares_equal = same_rank;
}

same_rank-IsEquivalence : IsEquivalence same_rank
same_rank-IsEquivalence = record { self = λ t. ground arith; same = λ t u v h. ground arith }

none≢some : {b : Bytes} → none ≡ some b → ⊥
none≢some e = cc

read-write : (t : Term) (b : Bytes) → write_term t ≡ some b → read_term b ≡ some t
read-write (int (pos n)) b h = ap read_term (sym (some_inj h))
read-write (binary c) b h = ap read_term (sym (some_inj h))
read-write (int (negsuc n)) b h = absurd (none≢some h)
read-write (atom a) b h = absurd (none≢some h)
read-write (float x) b h = absurd (none≢some h)
read-write nil b h = absurd (none≢some h)
read-write (cons t u) b h = absurd (none≢some h)
read-write (tuple ts) b h = absurd (none≢some h)
read-write (opaque n) b h = absurd (none≢some h)

small-IsFaithful : IsFaithful small
small-IsFaithful = record { decode-encode = read-write }

abbrev stored_5 : Bytes
stored_5 = 0 ∷ 5 ∷ []

abbrev add_2 : Bytes
add_2 = 2 ∷ 2 ∷ []

stores_7 : full_merge_v2 small (some stored_5) (add_2 ∷ []) ≡ merged (0 ∷ 7 ∷ [])
unfolding full_merge_v2 merge_existing merge_erlang_int int_loop operand_terms int_operand add_int
    ◌+ℤ◌
stores_7 = refl

adds_2 : operand_terms small add_2 ≡ merged (atom int_add ∷ int (pos 2) ∷ [])
unfolding operand_terms
adds_2 = refl

not_substract : int_add ≡ list_substract → is_list (int (pos 2)) ≡ is_proper_list (int (pos 2))
not_substract e = refl

two-Adds : Adds small (add_2 ∷ add_2 ∷ []) (pos 2 ∷ pos 2 ∷ [])
two-Adds = (adds_2, refl, (adds_2, refl, tt))

merge_erlang_int-total_example : merge_erlang_int small (pos 5) (add_2 ∷ add_2 ∷ []) ≡ (
    if sums_fit (pos 5) (pos 2 ∷ pos 2 ∷ [])
    then or_reject (write_term (int (total (pos 5) (pos 2 ∷ pos 2 ∷ []))))
    else undefined)
merge_erlang_int-total_example =
    merge_erlang_int-total small (pos 5) (add_2 ∷ add_2 ∷ []) (pos 2 ∷ pos 2 ∷ []) two-Adds

abbrev ones : List Term
ones = int (pos 1) ∷ int (pos 2) ∷ int (pos 1) ∷ []

abbrev short : Bytes
short = 7 ∷ []

throws_past_end :
    (replace (2 ^ 32 - 1) 1 [] short ≡ exception)
    ↔ ((to_u32 ((2 ^ 32 - 1) + 1) < length short) × (length short < 2 ^ 32 - 1))
throws_past_end = replace-exception (2 ^ 32 - 1) 1 [] short
