-- ===== src/Transaction/Terms.antt =====
-- The terms for a status: what is answered, and whether it is `ok`.
use erlang_rocksdb.Prelude.{◌≡◌, refl, inl, inr, Bool, true, false, Option, List, [], ◌∷◌, map}
use erlang_rocksdb.Bytes.{Bytes}
use erlang_rocksdb.Term.{Term, Name}
use erlang_rocksdb.Calls.{
  Code, k_ok, k_not_found, k_corruption, Status, returned, error_tuple, is_ok, value_term,
}
use erlang_rocksdb.Transaction.{done_with, value_with}
use erlang_rocksdb.Transaction.Pessimistic.{savepoint_term}
use erlang_rocksdb.Transaction.Spec.{Log, when, ReadsAs, AllReadAs}
use erlang_rocksdb.Transaction.Answers.{is_done, AnswersAs, AllAnswerAs, IsOkOrError}

abbrev status_of : Code → Bytes → Status
status_of c s = record { code = c; to_string = s }

pub done_with-IsOkOrError :
    (name : Code → Name) (c : Code) (s : Bytes) → IsOkOrError tt (done_with name (status_of c s))
unfolding done_with error_tuple
done_with-IsOkOrError name k_ok s = inl refl
done_with-IsOkOrError name _ s = inr (_, refl)

pub is_done-done_with :
    (name : Code → Name) (c : Code) (s : Bytes)
    → is_done (returned (done_with name (status_of c s))) ≡ is_ok (status_of c s)
unfolding done_with error_tuple
is_done-done_with name k_ok s = refl
is_done-done_with name _ s = refl

pub savepoint-IsOkOrError : (c : Code) (s : Bytes) → IsOkOrError tt (savepoint_term (status_of c s))
unfolding savepoint_term error_tuple
savepoint-IsOkOrError k_ok s = inl refl
savepoint-IsOkOrError k_not_found s = inr (_, refl)
savepoint-IsOkOrError _ s = inr (_, refl)

pub is_done-savepoint :
    (c : Code) (s : Bytes)
    → is_done (returned (savepoint_term (status_of c s))) ≡ is_ok (status_of c s)
unfolding savepoint_term error_tuple
is_done-savepoint k_ok s = refl
is_done-savepoint k_not_found s = refl
is_done-savepoint _ s = refl

pub value_term-AnswersAs :
    (c : Code) (s v : Bytes) (e : Option Bytes)
    → ReadsAs c v e
    → AnswersAs e (value_term (status_of c s, v))
unfolding value_term error_tuple
value_term-AnswersAs k_ok s v e h = inl (v, h, refl)
value_term-AnswersAs k_not_found s v e h = inr (inl (h, refl))
value_term-AnswersAs k_corruption s v e h = inr (inr (_, refl))
value_term-AnswersAs _ s v e h = inr (inr (_, refl))

pub value_with-AnswersAs :
    (name : Code → Name) (c : Code) (s v : Bytes) (e : Option Bytes)
    → ReadsAs c v e
    → AnswersAs e (value_with name (status_of c s, v))
unfolding value_with error_tuple
value_with-AnswersAs name k_ok s v e h = inl (v, h, refl)
value_with-AnswersAs name k_not_found s v e h = inr (inl (h, refl))
value_with-AnswersAs name _ s v e h = inr (inr (_, refl))

-- A way to answer for one key.
abbrev pub Answering : (Status × Bytes → Term) → Type 0
Answering term =
    (c : Code) (s v : Bytes) (e : Option Bytes)
    → ReadsAs c v e
    → AnswersAs e (term (status_of c s, v))

pub all-AllAnswerAs :
    (term : Status × Bytes → Term)
    → Answering term
    → (rs : List (Status × Bytes)) (es : List (Option Bytes)) → AllReadAs rs es
    → AllAnswerAs es (map term rs)
all-AllAnswerAs term f [] [] h = tt
all-AllAnswerAs term f (r ∷ rs) (e ∷ es) h =
    (f r.0.code r.0.to_string r.1 e h.0, all-AllAnswerAs term f rs es h.1)
all-AllAnswerAs term f [] (e ∷ es) h = absurd h
all-AllAnswerAs term f (r ∷ rs) [] h = absurd h

pub when_same : (b : Bool) (log : Log) → when b (λ l. l) log ≡ log
when_same true log = refl
when_same false log = refl
