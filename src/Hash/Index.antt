-- ===== src/Hash/Index.antt =====
-- The bucket that `hash_cstring` chooses.
use native.Mathlib.Nat.{mod-lt}
use mes.Base.{
  ℕ, ◌+◌, ◌-◌, ◌*◌, ◌%◌, ◌^◌, ◌≤◌, ◌<◌, ◌≡◌, ◌≢◌, inl, inr, true, false, not, ◌&&◌, arith, ◌==◌,
  Bool-cases, is_negative, add_word, mul_word, neg_word, slt,
}
use mes.Gc.Snapshot.{size}
use mes.Hash.{rem_word, hash_cstring, as_unsigned}
use mes.Heap.{Heap, ok, abort, type_at, car_at}
use mes.Heap.Const.{t_vector}
use mes.Libc.Memory.{char_word}
use mes.Vector.{vector_ref_}

-- The texts whose first two characters are ASCII.
abbrev pub IsAscii : (ℕ → ℕ) → Type 0
IsAscii s = (s 0 < 128) × (s 1 < 128)

rem_word-lt :
    (a size : ℕ) → a < 2 ^ 63 → 0 < size → (rem_word a size ≡ a % size) × (a % size < size)
rem_word-lt a size small pos = let n : is_negative a ≡ false = ground arith in (rw n, mod-lt a pos)

-- For a text that begins with ASCII characters the hash is a number below the number of buckets,
-- and the conversion to `unsigned` keeps it: the bucket exists.
pub hash_cstring-lt :
    (s : ℕ → ℕ) (size : ℕ) (h : Heap)
    → IsAscii s
    → 0 < size
    → size < 2 ^ 31
    → (i : ℕ) × (hash_cstring s size h ≡ ok i h) × (as_unsigned i < size)
unfolding hash_cstring
hash_cstring-lt s size h (a0, a1) pos lt =
    let z : (size == 0) ≡ false = ground arith in
    let c0 : mul_word (char_word (s 0)) 37 ≡ s 0 * 37 = ground arith in
    let c1 : mul_word (char_word (s 1)) 43 ≡ s 1 * 43 = ground arith in
    let sum : add_word (s 0 * 37) (s 1 * 43) ≡ s 0 * 37 + s 1 * 43 = ground arith in
    elim (Bool-cases (not (s 0 == 0) && not (s 1 == 0))) [
      | inl two ↦
          let (e, lt') = rem_word-lt (s 0 * 37 + s 1 * 43) size (omega arith) pos in
          ((s 0 * 37 + s 1 * 43) % size, rw (z, two, c0, c1, sum, e), omega (arith, lt'))
      | inr one ↦
          let (e, lt') = rem_word-lt (s 0 * 37) size (omega arith) pos in
          ((s 0 * 37) % size, rw (z, one, c0, e), omega (arith, lt'))
    ]

-- For a text of one byte `c` from 128 to 255, and a size above 0 and below 2 ^ 31 that does not divide
-- (256 - c) * 37, `hash_cstring` returns a negative number: 2 ^ 64 less the remainder of
-- (256 - c) * 37 by the size. `vector_ref_` of a vector of just this size fails at it, taken as an
-- `unsigned`.
pub hash_cstring-negative :
    (s : ℕ → ℕ) (size buckets : ℕ) (h : Heap)
    → 128 ≤ s 0
    → s 0 < 256
    → s 1 ≡ 0
    → 0 < size
    → size < 2 ^ 31
    → (256 - s 0) * 37 % size ≢ 0
    → type_at h buckets ≡ t_vector
    → car_at h buckets ≡ size
    → (i : ℕ) × (hash_cstring s size h ≡ ok i h)
      × (i + (256 - s 0) * 37 % size ≡ 2 ^ 64)
      × (is_negative i ≡ true)
      × (vector_ref_ buckets (as_unsigned i) h ≡ abort)
unfolding hash_cstring vector_ref_
hash_cstring-negative s size buckets h high byte end pos lt ne tv len =
    let z : (size == 0) ≡ false = ground arith in
    let one : (not (s 0 == 0) && not (s 1 == 0)) ≡ false = ground arith in
    let c0 : mul_word (char_word (s 0)) 37 ≡ 2 ^ 64 - (256 - s 0) * 37 = ground arith in
    let r = (256 - s 0) * 37 % size in
    let below : r < size = mod-lt ((256 - s 0) * 37) pos in
    let n : is_negative (2 ^ 64 - (256 - s 0) * 37) ≡ true = ground arith in
    let back : neg_word (2 ^ 64 - (256 - s 0) * 37) ≡ (256 - s 0) * 37 = omega arith in
    let i : neg_word r ≡ 2 ^ 64 - r = omega arith in
    let t : (type_at h buckets == t_vector) ≡ true = ground arith in
    let out : slt (as_unsigned (2 ^ 64 - r)) (car_at h buckets) ≡ false = ground arith in
    (
      2 ^ 64 - r,
      rw (z, one, c0, n, back, i),
      omega (arith, below),
      ground (arith, below, ne, lt),
      rw (t, out),
    )
