-- ===== src/Examples/RefObjects.antt =====
-- One object under several threads at concrete inputs.
use erlang_rocksdb.Prelude.{
  ℕ, ◌+◌, ◌<◌, ◌^◌, subst, some_inj, All, ◌>>=◌, ◌≡◌, refl, true, false, Option, none, some, List,
  [], ◌∷◌, length, get_elem?, set, arith, ◌==◌, if◌then◌else◌,
}
use erlang_rocksdb.RefObject.{
  Object, returns, awaits, Pc, retrieving, using, destructing, unlocking, awaiting, requesting,
  done, finish, compare_and_swap, advance,
}
use erlang_rocksdb.RefObject.Tally.{tally}
use erlang_rocksdb.RefObject.Steps.{
  System, Step, pick, created, Starts, call, close, Reach, start, later,
}
use erlang_rocksdb.RefObject.Invariant.{owns}
use erlang_rocksdb.RefObject.Safety.{Reach-ref_count, Reach-destructors, Reach-owns}
use erlang_rocksdb.RefObject.Progress.{Eventually, IsFinished, Reach-IsFinished}

-- Thread `i` takes a step.
abbrev move : ℕ → System → Option System
move i s = get_elem? s.threads i >>= λ p.
    advance p s.object >>= λ r. some (record { object = r.1; threads = set s.threads i r.0 })

-- A schedule: which thread is next.
abbrev run : List ℕ → System → Option System
run [] s = some s
run (i ∷ is) s = move i s >>= run is

move-Step : (i : ℕ) (s t : System) → move i s ≡ some t → Step s t
move-Step i s t h = by_thread (get_elem? s.threads i) refl h
  where
    by_advance :
        (p : Pc) (r : Option (Pc × Object))
        → get_elem? s.threads i ≡ some p
        → advance p s.object ≡ r
        → (r >>= λ r. some (record { object = r.1; threads = set s.threads i r.0 })) ≡ some t
        → Step s t
    by_advance p none g a h = cc
    by_advance p (some (p', o')) g a h = subst (Step s) (some_inj h) (pick i p p' o' g a)

    by_thread :
        (o : Option Pc)
        → get_elem? s.threads i ≡ o
        → (o >>= λ p. advance p s.object >>= λ r.
            some (record { object = r.1; threads = set s.threads i r.0 }))
          ≡ some t
        → Step s t
    by_thread none g h = cc
    by_thread (some p) g h = by_advance p (advance p s.object) g refl h

run-Reach :
    (ts : List Pc) (is : List ℕ) (s t : System) → Reach ts s → run is s ≡ some t → Reach ts t
run-Reach ts [] s t r h = subst (Reach ts) (some_inj h) r
run-Reach ts (i ∷ is) s t r h = by_move (λ u q. run-Reach ts is u t q) (move i s) refl h
  where
    by_move :
        ((u : System) → Reach ts u → run is u ≡ some t → Reach ts t)
        → (o : Option System) → move i s ≡ o
        → (o >>= run is) ≡ some t
        → Reach ts t
    by_move again none e h = cc
    by_move again (some u) e h = again u (later r (move-Step i s u e)) h

-- A call and two closes, one of them by the runtime.
abbrev three : List Pc
three = retrieving ∷ requesting returns ∷ requesting awaits ∷ []

three_start : All Starts three
three_start = (call, (close returns, (close awaits, tt)))

three_few : length three + 1 < 2 ^ 32
three_few = omega arith

-- The call has its reference, the first close is through, and the call's end runs the destructor.
abbrev call_then_close : List ℕ
call_then_close = 0 ∷ 0 ∷ 1 ∷ 1 ∷ 1 ∷ 2 ∷ 0 ∷ 0 ∷ 0 ∷ []

abbrev destructing_state : System
destructing_state = record {
  object = record { ref_count = 0; close_requested = 2; destructors = 0; late = 0; freed = false };
  threads = destructing returns ∷ done ∷ awaiting ∷ [];
}

destructing_state-Reach : Reach three destructing_state
unfolding advance compare_and_swap finish
destructing_state-Reach =
    run-Reach three call_then_close (record { object = created; threads = three }) destructing_state
      start refl

Reach-ref_count_example :
    destructing_state.object.ref_count
    ≡ tally owns destructing_state.threads
      + (if destructing_state.object.close_requested == 0 then 1 else 0)
Reach-ref_count_example = Reach-ref_count three_start three_few destructing_state-Reach

Reach-owns_example : owns (destructing returns) ≡ 0
Reach-owns_example =
    Reach-owns three_start three_few destructing_state-Reach refl (omega arith) 0
      (destructing returns) refl

destructors_before_end :
    destructing_state.object.destructors
    ≡ (if destructing_state.object.close_requested == 3 then 1 else 0)
destructors_before_end = Reach-destructors three_start three_few destructing_state-Reach

Reach-IsFinished_example : Eventually IsFinished destructing_state
Reach-IsFinished_example =
    Reach-IsFinished three_start three_few destructing_state-Reach (omega arith)

-- A call that has passed the test of `m_CloseRequested` takes its reference after the destructor.
abbrev used_after : System
used_after = record {
  object = record { ref_count = 1; close_requested = 3; destructors = 1; late = 1; freed = false };
  threads = using ∷ done ∷ requesting awaits ∷ [];
}

used_after-Reach : Reach three used_after
unfolding advance compare_and_swap finish
used_after-Reach =
    run-Reach three (0 ∷ 1 ∷ 1 ∷ 1 ∷ 1 ∷ 1 ∷ 1 ∷ 0 ∷ [])
      (record { object = created; threads = three }) used_after start refl

-- The runtime takes the memory back while the destructor still holds its lock.
abbrev freed_locked : System
freed_locked = record {
  object = record { ref_count = 0; close_requested = 3; destructors = 1; late = 0; freed = true };
  threads = retrieving ∷ unlocking returns ∷ done ∷ [];
}

freed_locked-Reach : Reach three freed_locked
unfolding advance compare_and_swap finish
freed_locked-Reach =
    run-Reach three (1 ∷ 1 ∷ 1 ∷ 1 ∷ 1 ∷ 2 ∷ 2 ∷ []) (record { object = created; threads = three })
      freed_locked start refl
