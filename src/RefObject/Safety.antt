-- ===== src/RefObject/Safety.antt =====
-- The destructor runs once, after a close, and under nobody who took a reference before it.
use erlang_rocksdb.Prelude.{
  ℕ, ◌+◌, ◌^◌, ◌≤◌, ◌<◌, ◌≡◌, refl, some, List, [], ◌∷◌, length, get_elem?, set, length-set, ◌==◌,
  if◌then◌else◌, arith, All,
}
use erlang_rocksdb.RefObject.{Pc}
use erlang_rocksdb.RefObject.Tally.{tally, tally-set, tally-le, le-tally}
use erlang_rocksdb.RefObject.Steps.{
  System, Step, pick, created, Starts, call, close, Reach, start, later,
}
use erlang_rocksdb.RefObject.Invariant.{owns, swaps, destroys, IsCounted, Moved, advance-IsCounted}

-- The invariant of a system of few enough threads for the 32-bit counter.
pub record IsSound (s : System) : Type 0 where
  pub counts :
      IsCounted s.object (tally owns s.threads) (tally swaps s.threads) (tally destroys s.threads)
  pub few : length s.threads + 1 < 2 ^ 32

owns-le : (p : Pc) → owns p ≤ 1
owns-le p = ground arith

moved :
    (ts : List Pc) (i : ℕ) (p p' : Pc)
    → length ts + 1 < 2 ^ 32
    → get_elem? ts i ≡ some p
    → Moved p p'
        (tally owns ts)
        (tally swaps ts)
        (tally destroys ts)
        (tally owns (set ts i p'))
        (tally swaps (set ts i p'))
        (tally destroys (set ts i p'))
moved ts i p p' few h = record {
  owners = tally-set owns ts i p p' h;
  swappers = tally-set swaps ts i p p' h;
  destroyers = tally-set destroys ts i p p' h;
  small =
      omega
        (arith, tally-le owns owns-le ts, tally-le owns owns-le (set ts i p'), length-set ts i p');
}

pub Step-IsSound : {s t : System} → Step s t → IsSound s → IsSound t
Step-IsSound {s} (pick i p p' o' g a) h = record {
  counts = advance-IsCounted h.counts p p' (moved s.threads i p p' h.few g) a;
  few = omega (arith, length-set s.threads i p', h.few);
}

none_yet :
    (ts : List Pc)
    → All Starts ts
    → (tally owns ts ≡ 0) × (tally swaps ts ≡ 0) × (tally destroys ts ≡ 0)
none_yet [] h = (refl, refl, refl)
none_yet (p ∷ ts) h =
    let (a, b, c) = none_yet ts h.1 in
    let (x, y, z) = at_start p h.0 in
    (omega (arith, a, x), omega (arith, b, y), omega (arith, c, z))
  where
    at_start : (p : Pc) → Starts p → (owns p ≡ 0) × (swaps p ≡ 0) × (destroys p ≡ 0)
    at_start p call = (refl, refl, refl)
    at_start p (close k) = (refl, refl, refl)

created-IsCounted : IsCounted created 0 0 0
created-IsCounted = ground arith

module _ {ts : List Pc} (starts : All Starts ts) (few : length ts + 1 < 2 ^ 32) where
  pub Reach-IsSound : {s : System} → Reach ts s → IsSound s
  Reach-IsSound start =
      let (a, b, c) = none_yet ts starts in
      record { counts = rw (a, b, c) created-IsCounted; few = few }
  Reach-IsSound (later r st) = Step-IsSound st (Reach-IsSound r)

  -- In every state that fewer than 2^32 - 1 threads reach from their starts, the count is the number of
  -- references that threads own, and one more until a close is requested.
  pub Reach-ref_count :
      {s : System}
      → Reach ts s
      → s.object.ref_count ≡ tally owns s.threads + (if s.object.close_requested == 0 then 1 else 0)
  Reach-ref_count r = (Reach-IsSound r).counts.counted

  -- The destructor has run once if `m_CloseRequested` is 3, and never before.
  pub Reach-destructors :
      {s : System}
      → Reach ts s
      → s.object.destructors ≡ (if s.object.close_requested == 3 then 1 else 0)
  Reach-destructors r = (Reach-IsSound r).counts.destructed

  -- In every state that fewer than 2^32 - 1 threads reach from their starts, if no reference was taken
  -- after the close request, then once the destructor has begun no thread owns a reference.
  pub Reach-owns :
      {s : System}
      → Reach ts s
      → s.object.late ≡ 0
      → 2 ≤ s.object.close_requested
      → (i : ℕ) (p : Pc) → get_elem? s.threads i ≡ some p
      → owns p ≡ 0
  Reach-owns {s} r none_late closed i p g =
      omega (arith, (Reach-IsSound r).counts.closed_owners closed, le-tally owns s.threads i p g)
