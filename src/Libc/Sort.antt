-- ===== src/Libc/Sort.antt =====
-- lib/stdlib/qsort.c. An array is a function from the index to the element, so that an element of
-- `size` bytes is one entry and `qswap` exchanges two entries.
pub mod Rearrange
pub mod Part
pub mod Order
use mes.Base.{ℕ, zero, suc, ◌+◌, ◌-◌, Option, none, some, ltb, ◌==◌, if◌then◌else◌}

-- The sign of what the caller's `compare` returns.
pub data Sign : Type 0 where
  negative nought positive : Sign

-- One of three ways, for a sign below, equal to or above 0.
abbrev pub by_sign {ℓ} : {A : Type ℓ} → Sign → A → A → A → A
by_sign negative x y z = x
by_sign nought x y z = y
by_sign positive x y z = z

abbrev pub Array : Type 0
Array = ℕ → ℕ

abbrev pub Comparison : Type 0
Comparison = ℕ → ℕ → Sign

unfoldable pub qswap : ℕ → ℕ → Array → Array
qswap i j a t = if t == i then a j else if t == j then a i else a t

-- The loop of `qpart` with `n` elements still to be compared.
unfoldable pub part_loop : Comparison → ℕ → ℕ → ℕ → ℕ → ℕ → Array → Array × ℕ
part_loop compare base count zero i j a = (a, i)
part_loop compare base count (suc n) i j a =
    by_sign (compare (a (base + j)) (a (base + count)))
      (part_loop compare base count n (i + 1) (j + 1) (qswap (base + i) (base + j) a))
      (part_loop compare base count n (i + 1) (j + 1) a)
      (part_loop compare base count n i (j + 1) a)

unfoldable pub finish_part : Comparison → ℕ → ℕ → Array × ℕ → Array × ℕ
finish_part compare base count (a, i) =
    by_sign (compare (a (base + count)) (a (base + i))) (qswap (base + i) (base + count) a, i)
      (a, i) (a, i)

unfoldable pub qpart : Comparison → ℕ → ℕ → Array → Array × ℕ
qpart compare base count a =
    finish_part compare base count (part_loop compare base count count 0 0 a)

abbrev pub after : Option Array → (Array → Option Array) → Option Array
after none f = none
after (some a) f = f a

-- The two calls of `qsort` on the parts.
unfoldable pub sort_parts : (ℕ → ℕ → Array → Option Array) → ℕ → ℕ → Array × ℕ → Option Array
sort_parts sort base count (a, p) = after (sort base p a) (sort (base + p) (count - p))

-- The depth of the calls is bounded by the first argument.
unfoldable pub qsort : ℕ → Comparison → ℕ → ℕ → Array → Option Array
qsort zero compare base count a = none
qsort (suc k) compare base count a =
    let sort = qsort k compare in
    if ltb 1 count then sort_parts sort base count (qpart compare base (count - 1) a) else some a
