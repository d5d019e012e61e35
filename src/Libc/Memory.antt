-- ===== src/Libc/Memory.antt =====
-- lib/string/mem*.c. A block is a function from the offset to the byte.
pub mod Move
use mes.Base.{ℕ, zero, suc, ◌+◌, ◌-◌, ◌%◌, ◌^◌, ltb, leb, ◌==◌, if◌then◌else◌, sub_word}
use mes.Heap.{update}

-- A `char` is signed: its value as a word.
abbrev pub char_word : ℕ → ℕ
char_word c = if leb 128 c then c + 2 ^ 64 - 256 else c

-- The difference of two `char`s.
abbrev pub char_diff : ℕ → ℕ → ℕ
char_diff a b = sub_word (char_word a) (char_word b)

-- The loop of `memcmp` at offset `i`, with `size` bytes left.
memcmp_loop : (ℕ → ℕ) → (ℕ → ℕ) → ℕ → ℕ → ℕ
memcmp_loop a b zero i = 0
memcmp_loop a b (suc zero) i = char_diff (a i) (b i)
memcmp_loop a b (suc (suc n)) i =
    if a i == b i then memcmp_loop a b (suc n) (i + 1) else char_diff (a i) (b i)

unfoldable pub memcmp : (ℕ → ℕ) → (ℕ → ℕ) → ℕ → ℕ
unfolding memcmp_loop
memcmp a b size = if size == 0 then 0 else memcmp_loop a b size 0

-- `_memcpy`: byte by byte upwards.
unfoldable pub memcpy : ℕ → (ℕ → ℕ) → ℕ → ℕ → ℕ → ℕ
memcpy zero m dest src = m
memcpy (suc n) m dest src = memcpy n (update m dest (m src)) (dest + 1) (src + 1)

-- The other loop of `memmove`, with `n` bytes left: downwards.
unfoldable pub copy_down : ℕ → (ℕ → ℕ) → ℕ → ℕ → ℕ → ℕ
copy_down zero m dest src = m
copy_down (suc n) m dest src = copy_down n (update m (dest + n) (m (src + n))) dest src

unfoldable pub memmove : ℕ → (ℕ → ℕ) → ℕ → ℕ → ℕ → ℕ
memmove n m dest src = if ltb dest src then memcpy n m dest src else copy_down n m dest src

unfoldable pub memset : ℕ → (ℕ → ℕ) → ℕ → ℕ → ℕ → ℕ
memset zero m s c = m
memset (suc n) m s c = memset n (update m s (c % 256)) (s + 1) c

-- The address of the first byte that is `c` as a `char`, or 0.
unfoldable pub memchr : ℕ → (ℕ → ℕ) → ℕ → ℕ → ℕ
memchr zero m p c = 0
memchr (suc n) m p c = if c == char_word (m p) then p else memchr n m (p + 1) c
