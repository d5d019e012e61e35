-- ===== src/Libc/Division.antt =====
-- lib/mes/div.c: 64-bit division for machines without a divide instruction.
pub mod Log
pub mod Long
use mes.Base.{
  ℕ, zero, suc, ◌+◌, ◌-◌, ◌/◌, ◌^◌, bit_and, bit_or, Bool, true, false, not, Option, none, some,
  ltb, leb, ◌==◌, if◌then◌else◌, is_negative, add_word, mul_word, neg_word, sle,
}

-- The loop of `__mesabi_log2i` while `n` is 2 ^ j: `n` is halved, and if the upper `n` bits of
-- `d` hold a 1, they are kept and counted.
unfoldable pub log2i_loop : ℕ → ℕ → ℕ → ℕ
log2i_loop zero d i = i
log2i_loop (suc j) d i =
    let n = 2 ^ j in
    let d1 = d / 2 ^ n in log2i_loop j (if ltb 0 d1 then d1 else d) (if ltb 0 d1 then i + n else i)

unfoldable pub log2i : ℕ → ℕ
log2i d = log2i_loop 6 d 0

-- The loop of `__mesabi_uldiv1` with `j` rounds left: quotient and remainder.
unfoldable pub uldiv1_loop : ℕ → ℕ → ℕ → ℕ → ℕ × ℕ
uldiv1_loop zero d r q = (q, r)
uldiv1_loop (suc j) d r q =
    let q' = mul_word q 2 in
    uldiv1_loop j (d / 2) (if leb d r then r - d else r) (if leb d r then bit_or q' 1 else q')

unfoldable pub uldiv1 : ℕ → ℕ → ℕ × ℕ
uldiv1 n d = let j = 64 - log2i d in uldiv1_loop j (mul_word d (2 ^ (j - 1))) n 0

-- `none` is the call of `__mesabi_div0`, which raises SIGFPE.
unfoldable pub uldiv : ℕ → ℕ → Option (ℕ × ℕ)
uldiv a b =
    if b == 64
    then some (a / 2 ^ 6, bit_and a 63)
    else if b == 32
    then some (a / 2 ^ 5, bit_and a 31)
    else if b == 16
    then some (a / 2 ^ 4, bit_and a 15)
    else if b == 8
    then some (a / 2 ^ 3, bit_and a 7)
    else if b == 4
    then some (a / 2 ^ 2, bit_and a 3)
    else if b == 2
    then some (a / 2 ^ 1, bit_and a 1)
    else if b == 1
    then some (a, 0)
    else if b == 0
    then none
    else some (uldiv1 a b)

abbrev pub long_min : ℕ
long_min = 2 ^ 63

-- `for (x = 0; a <= -b; a += b) ++x;`
unfoldable pub least_loop : ℕ → ℕ → ℕ → ℕ → Option (ℕ × ℕ)
least_loop zero a b x = none
least_loop (suc k) a b x =
    let rest = least_loop k (add_word a b) b (add_word x 1) in
    if sle a (neg_word b) then rest else some (x, a)

abbrev pub negate_if : Bool → ℕ → ℕ
negate_if true w = neg_word w
negate_if false w = w

-- `quot` and `rem` as words; `k` bounds the rounds of the loop for the least dividend.
unfoldable pub ldiv : ℕ → ℕ → ℕ → Option (ℕ × ℕ)
ldiv k a b =
    let negate = if is_negative a then not (is_negative b) else is_negative b in
    let b' = negate_if (is_negative b) b in
    if b == long_min
    then none
    else if not (a == long_min)
    then elim (uldiv (negate_if (is_negative a) a) b') [
      | none ↦ none
      | some (q, r) ↦ some (negate_if negate q, negate_if (is_negative a) r)
    ]
    else if b' == 1
    then some (negate_if (not negate) a, 0)
    else if b' == 0
    then none
    else elim (least_loop k a b' 0) [ none ↦ none | some (x, r) ↦ some (negate_if negate x, r) ]

unfoldable pub imod : ℕ → ℕ → ℕ → Option ℕ
imod k a b = elim (ldiv k a b) [ none ↦ none | some (q, r) ↦ some r ]

unfoldable pub idiv : ℕ → ℕ → ℕ → Option ℕ
idiv k a b = elim (ldiv k a b) [ none ↦ none | some (q, r) ↦ some q ]

unfoldable pub umod : ℕ → ℕ → Option ℕ
umod a b = elim (uldiv a b) [ none ↦ none | some (q, r) ↦ some r ]

unfoldable pub udiv : ℕ → ℕ → Option ℕ
udiv a b = elim (uldiv a b) [ none ↦ none | some (q, r) ↦ some q ]
