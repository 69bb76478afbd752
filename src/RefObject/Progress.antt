-- ===== src/RefObject/Progress.antt =====
-- A requested close comes to its end, and every thread returns.
use erlang_rocksdb.Prelude.{
  ℕ, zero, suc, ◌+◌, ◌^◌, ◌≤◌, ◌<◌, ◌≡◌, ◌≢◌, ◌⊎◌, inl, inr, refl, Option, none, some, List, length,
  get_elem?, ◌==◌, ltb, arith, All, Bool-cases,
}
use erlang_rocksdb.RefObject.{
  Object, Pc, retrieving, retrieved, using, releasing, swapping, destructing, unlocking, requesting,
  closing, awaiting, done, finish, compare_and_swap, advance,
}
use erlang_rocksdb.RefObject.Tally.{tally, tally-set, find_positive}
use erlang_rocksdb.RefObject.Steps.{System, Step, pick, Starts, Reach}
use erlang_rocksdb.RefObject.Invariant.{owns, swaps, destroys}
use erlang_rocksdb.RefObject.Safety.{IsSound, Step-IsSound, Reach-IsSound}

-- How many accesses a thread has before it at most.
abbrev pub ahead : Pc → ℕ
ahead retrieving = 8
ahead retrieved = 7
ahead using = 6
ahead (releasing k) = 5
ahead (swapping k) = 4
ahead (destructing k) = 3
ahead (unlocking k) = 2
ahead (requesting k) = 7
ahead (closing k) = 6
ahead awaiting = 1
ahead done = 0

advance-ahead : (o o' : Object) (p p' : Pc) → advance p o ≡ some (p', o') → ahead p' < ahead p
unfolding advance compare_and_swap finish
advance-ahead o o' p p' h = ground arith

advance_keeps_closed :
    (o o' : Object) (p p' : Pc)
    → advance p o ≡ some (p', o')
    → 1 ≤ o.close_requested
    → 1 ≤ o'.close_requested
unfolding advance compare_and_swap finish
advance_keeps_closed o o' p p' h c = ground arith

-- A thread can take a step unless it waits for the destructor or has returned.
advance_ready :
    (o : Object) (p : Pc)
    → (2 ≤ ahead p) ⊎ ((1 ≤ ahead p) × (o.close_requested ≡ 3))
    → (p' : Pc) × (o' : Object) × (advance p o ≡ some (p', o'))
unfolding advance compare_and_swap
advance_ready o p h = by_result (advance p o) refl
  where
    by_result :
        (r : Option (Pc × Object))
        → advance p o ≡ r
        → (p' : Pc) × (o' : Object) × (advance p o ≡ some (p', o'))
    by_result (some (p', o')) e = (p', o', e)
    by_result none e = absurd (ground arith)

-- Every run comes to a state with the property, whichever thread is picked at each step.
pub data Eventually (P : System → Type 0) : System → Type 0 where
  now : {s : System} → P s → Eventually P s
  next :
      {s : System} (t : System)
      → Step s t
      → ((u : System) → Step s u → Eventually P u)
      → Eventually P s

-- The destructor has run once, and every thread has returned.
pub record IsFinished (s : System) : Type 0 where
  pub destructed : s.object.close_requested ≡ 3
  pub once : s.object.destructors ≡ 1
  pub returned : tally ahead s.threads ≡ 0

module _ (s : System) (sound : IsSound s) (closed : 1 ≤ s.object.close_requested) where
  open sound use {counts}

  Moves : Type 0
  Moves = (t : System) × Step s t

  thread_moves :
      (i : ℕ) (p : Pc)
      → get_elem? s.threads i ≡ some p
      → (2 ≤ ahead p) ⊎ ((1 ≤ ahead p) × (s.object.close_requested ≡ 3))
      → Moves
  unfolding Moves
  thread_moves i p g h = let (p', o', e) = advance_ready s.object p h in (_, pick i p p' o' g e)

  some_moves : (w : Pc → ℕ) → ((p : Pc) → 1 ≤ w p → 2 ≤ ahead p) → 1 ≤ tally w s.threads → Moves
  some_moves w busy h =
      let (i, p, g, l) = find_positive w s.threads h in thread_moves i p g (inl (busy p l))

  before_destructor : s.object.close_requested ≢ 3 → Moves
  before_destructor open_ = elim (Bool-cases (ltb 0 (tally owns s.threads))) [
    | inl h ↦ some_moves owns (λ p l. ground arith) (ground arith)
    | inr no_owner ↦ elim (Bool-cases (ltb 0 (tally swaps s.threads))) [
      | inl h ↦ some_moves swaps (λ p l. ground arith) (ground arith)
      | inr no_swapper ↦
          some_moves destroys (λ p l. ground arith)
            (ground (arith, counts.pending, counts.one_destructor, counts.destructed, counts.phase))
    ]
  ]

  after_destructor : s.object.close_requested ≡ 3 → IsFinished s ⊎ Moves
  after_destructor e = elim (Bool-cases (ltb 0 (tally ahead s.threads))) [
    | inl h ↦
        let (i, p, g, l) = find_positive ahead s.threads (ground arith) in
        inr (thread_moves i p g (inr (l, e)))
    | inr h ↦ inl (record {
      destructed = e;
      once = ground (arith, counts.destructed);
      returned = ground arith;
    })
  ]

  progress : IsFinished s ⊎ Moves
  progress = elim (Bool-cases (s.object.close_requested == 3)) [
    | inl e ↦ after_destructor (ground arith)
    | inr e ↦ inr (before_destructor (λ h. ground arith))
  ]

Step-ahead : {s t : System} → Step s t → tally ahead t.threads < tally ahead s.threads
Step-ahead {s} (pick i p p' o' g a) =
    omega (arith, tally-set ahead s.threads i p p' g, advance-ahead s.object o' p p' a)

Step-close_requested :
    {s t : System} → Step s t → 1 ≤ s.object.close_requested → 1 ≤ t.object.close_requested
Step-close_requested {s} (pick i p p' o' g a) c = advance_keeps_closed s.object o' p p' a c

finishes_within :
    (fuel : ℕ) (s : System)
    → tally ahead s.threads < fuel
    → IsSound s
    → 1 ≤ s.object.close_requested
    → Eventually IsFinished s
unfolding Moves
finishes_within zero s m h c = absurd (omega arith)
finishes_within (suc fuel) s m h c = elim (progress s h c) [
  | inl f ↦ now f
  | inr (t, st) ↦ next t st (λ u su.
      finishes_within fuel u (omega (arith, Step-ahead su)) (Step-IsSound su h)
        (Step-close_requested su c))
]

module _ {ts : List Pc} (starts : All Starts ts) (few : length ts + 1 < 2 ^ 32) where
  -- From every state that fewer than 2^32 - 1 threads reach from their starts, where a close has been
  -- requested, each run comes to a state where the
  -- destructor has run once and every thread has returned.
  pub Reach-IsFinished :
      {s : System} → Reach ts s → 1 ≤ s.object.close_requested → Eventually IsFinished s
  Reach-IsFinished {s} r c =
      finishes_within (suc (tally ahead s.threads)) s (omega arith) (Reach-IsSound starts few r) c
