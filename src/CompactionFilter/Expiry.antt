-- ===== src/CompactionFilter/Expiry.antt =====
-- `CheckTTL` of c_src/compaction_filter.cc against arithmetic without bounds, and where it wraps.
use erlang_rocksdb.Prelude.{
  ℕ, zero, suc, ◌+◌, ◌*◌, ◌/◌, ◌%◌, ◌^◌, ◌<◌, ◌≤◌, ◌≡◌, refl, ap, ◌∙◌, true, false, ltb, none, some,
  [], ◌∷◌, length, length-drop, drop, arith,
}
use erlang_rocksdb.Bytes.{Bytes, IsBytes}
use erlang_rocksdb.CompactionFilter.Rules.{read_timestamp, timestamp_bytes, check_ttl}

-- The big-endian number that the first `n` bytes spell, after the digits `t`.
abbrev pub spelled : ℕ → ℕ → Bytes → ℕ
spelled zero t d = t
spelled (suc n) t [] = t
spelled (suc n) t (b ∷ d) = spelled n (t * 256 + b) d

-- What may stand before `n` more bytes of a 64-bit number.
abbrev room : ℕ → ℕ
room zero = 2 ^ 64
room (suc n) = room n / 256

room_bound : (n : ℕ) → room n ≤ 2 ^ 64
room_bound zero = omega arith
room_bound (suc n) = omega (arith, room_bound n)

room_positive : (n : ℕ) → n ≤ 8 → 0 < room n
room_positive zero h = omega arith
room_positive (suc zero) h = omega arith
room_positive (suc (suc zero)) h = omega arith
room_positive (suc (suc (suc zero))) h = omega arith
room_positive (suc (suc (suc (suc zero)))) h = omega arith
room_positive (suc (suc (suc (suc (suc zero))))) h = omega arith
room_positive (suc (suc (suc (suc (suc (suc zero)))))) h = omega arith
room_positive (suc (suc (suc (suc (suc (suc (suc zero))))))) h = omega arith
room_positive (suc (suc (suc (suc (suc (suc (suc (suc zero)))))))) h = omega arith
room_positive (suc (suc (suc (suc (suc (suc (suc (suc (suc n))))))))) h = absurd (omega arith)

timestamp_bytes_bound : (n : ℕ) → (timestamp_bytes n ≤ n) × (timestamp_bytes n ≤ 8)
timestamp_bytes_bound n = (ground arith, ground arith)

read_timestamp-spelled :
    (n t : ℕ) (d : Bytes)
    → t < room n
    → n ≤ length d
    → IsBytes d
    → read_timestamp n t d ≡ some (spelled n t d)
unfolding read_timestamp
read_timestamp-spelled zero t d ht hn hd = refl
read_timestamp-spelled (suc n) t [] ht hn hd = absurd (omega arith)
read_timestamp-spelled (suc n) t (b ∷ d) ht hn hd =
    let fits : t * 256 + b < room n = omega (arith, hd.0) in
    let no_wrap : t * 2 ^ 8 % 2 ^ 64 + b ≡ t * 256 + b = omega (arith, room_bound n, hd.0) in
    ap (λ u. read_timestamp n u d) no_wrap
    ∙ read_timestamp-spelled n (t * 256 + b) d fits (omega arith) hd.1

drop-IsBytes : (n : ℕ) (d : Bytes) → IsBytes d → IsBytes (drop n d)
drop-IsBytes zero d h = h
drop-IsBytes (suc n) [] h = h
drop-IsBytes (suc n) (b ∷ d) h = drop-IsBytes n d h.1

-- The timestamp that the key holds.
abbrev pub timestamp_at : ℕ → ℕ → Bytes → ℕ
timestamp_at offset size key = spelled (timestamp_bytes size) 0 (drop offset key)

module _ (now offset size ttl_seconds : ℕ) (key : Bytes) (bytes : IsBytes key)
    (range : offset + size < 2 ^ 64) where
  -- A key that ends before the timestamp is kept.
  pub check_ttl_short :
      length key < offset + size → check_ttl now key offset size ttl_seconds ≡ some false
  unfolding check_ttl
  check_ttl_short h = ground arith

  pub check_ttl-timestamp_at :
      offset + size ≤ length key
      → check_ttl now key offset size ttl_seconds
        ≡ some (ltb ((timestamp_at offset size key + ttl_seconds) % 2 ^ 64) now)
  unfolding check_ttl
  check_ttl-timestamp_at h =
      let no_wrap : ltb (length key) ((offset + size) % 2 ^ 64) ≡ false = ground arith in
      rw (no_wrap) (
        rw
          (read_timestamp-spelled (timestamp_bytes size) 0 (drop offset key)
            (room_positive (timestamp_bytes size) (timestamp_bytes_bound size).1)
            (omega (arith, length-drop offset key, (timestamp_bytes_bound size).0))
            (drop-IsBytes offset key bytes))
          refl)

-- On a key of bytes that holds the timestamp, if the sum of timestamp and TTL is after the clock, does
-- not fit 64 bits, and is before the clock when wrapped, then the key is taken for expired.
pub check_ttl_wrapped :
    (now offset size ttl_seconds : ℕ) (key : Bytes)
    → IsBytes key
    → offset + size < 2 ^ 64
    → offset + size ≤ length key
    → now < timestamp_at offset size key + ttl_seconds
    → 2 ^ 64 ≤ timestamp_at offset size key + ttl_seconds
    → (timestamp_at offset size key + ttl_seconds) % 2 ^ 64 < now
    → check_ttl now key offset size ttl_seconds ≡ some true
check_ttl_wrapped now offset size ttl_seconds key bytes range fits later wraps past =
    check_ttl-timestamp_at now offset size ttl_seconds key bytes range fits ∙ ap some (ground arith)

read_nothing : (n : ℕ) → 0 < n → read_timestamp n 0 [] ≡ none
unfolding read_timestamp
read_nothing zero h = absurd (omega arith)
read_nothing (suc n) h = refl

-- If the wrapped sum of `offset` and `length` is at most the key's size, `offset` is not below that
-- size and `length` is not 0, then the key passes the length test and is read past its end.
pub check_ttl_past_end :
    (now offset size ttl_seconds : ℕ) (key : Bytes)
    → (offset + size) % 2 ^ 64 ≤ length key
    → length key ≤ offset
    → 0 < size
    → check_ttl now key offset size ttl_seconds ≡ none
unfolding check_ttl
check_ttl_past_end now offset size ttl_seconds key wrapped beyond some_bytes =
    let passes : ltb (length key) ((offset + size) % 2 ^ 64) ≡ false = ground arith in
    rw (passes) (
      rw (drop_all offset key beyond)
        (rw (read_nothing (timestamp_bytes size) (ground arith)) refl))
  where
    drop_all : (n : ℕ) (d : Bytes) → length d ≤ n → drop n d ≡ []
    drop_all zero [] h = refl
    drop_all zero (b ∷ d) h = absurd (omega arith)
    drop_all (suc n) [] h = refl
    drop_all (suc n) (b ∷ d) h = drop_all n d (omega arith)
