-- ===== src/DbObject/Balance.antt =====
-- What a count says about the references to an object, and how each access changes it.
use erlang_rocksdb.Prelude.{
  ℕ, suc, ◌+◌, ◌^◌, ◌≤◌, ◌<◌, ◌≡◌, ◌≢◌, true, not, ◌==◌, if◌then◌else◌, arith,
}
use erlang_rocksdb.DbObject.{Counted, inc, requested, ref_dec}

-- `others` references are held beside the one that a close gives back.
pub record IsBalanced (c : Counted) (others : ℕ) : Type 0 where
  pub counted : c.ref_count ≡ others + (if c.close_requested == 0 then 1 else 0)
  pub phase : c.close_requested ≤ 3
  pub between : c.close_requested ≢ 2
  pub pending : c.close_requested ≡ 1 → 1 ≤ others
  pub ended : c.close_requested ≡ 3 → others ≡ 0
  pub released : c.handle ≡ not (c.close_requested == 3)
  pub small : c.ref_count < 2 ^ 32

pub requested-IsBalanced :
    (c : Counted) (n : ℕ)
    → c.close_requested ≡ 0
    → IsBalanced c n
    → IsBalanced (requested c) (suc n)
requested-IsBalanced c n e h = ground arith

pub inc-IsBalanced :
    (c : Counted) (n : ℕ)
    → c.ref_count + 1 < 2 ^ 32
    → c.close_requested ≢ 3
    → IsBalanced c n
    → IsBalanced (inc c) (suc n)
inc-IsBalanced c n l e h = ground arith

pub ref_dec-IsBalanced : (c : Counted) (n : ℕ) → IsBalanced c (suc n) → IsBalanced (ref_dec c).0 n
unfolding ref_dec
ref_dec-IsBalanced c n h = ground arith

-- The destructor runs if and only if this was the last reference after a close.
pub ref_dec_last :
    (c : Counted) (n : ℕ)
    → IsBalanced c (suc n)
    → (ref_dec c).1 ≡ ((ref_dec c).0.close_requested == 3)
unfolding ref_dec
ref_dec_last c n h = ground arith

pub ref_dec_keeps_request :
    (c : Counted) → (ref_dec c).0.close_requested ≡ 0 → c.close_requested ≡ 0
unfolding ref_dec
ref_dec_keeps_request c h = ground arith

pub ref_dec_end : (c : Counted) → (ref_dec c).1 ≡ true → (ref_dec c).0.close_requested ≡ 3
unfolding ref_dec
ref_dec_end c h = ground arith
