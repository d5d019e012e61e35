-- ===== src/Libc/Text.antt =====
-- lib/string/str*.c on a flat memory of bytes. A loop that runs up to a zero byte takes the number
-- of rounds that it may run, and `none` says that they were too few.
pub mod Copy
use mes.Base.{
  ℕ, zero, suc, ◌+◌, Bool, true, false, not, ◌&&◌, ◌||◌, Option, none, some, ltb, ◌==◌,
  if◌then◌else◌, set,
}
use mes.Heap.{update}
use mes.Libc.Ctype.{tolower, toupper}
use mes.Libc.Memory.{char_diff}

abbrev pub Memory : Type 0
Memory = ℕ → ℕ

-- The loop of `strlen` at index `i`.
unfoldable pub strlen_loop : ℕ → Memory → ℕ → ℕ → Option ℕ
strlen_loop zero m s i = none
strlen_loop (suc k) m s i =
    let rest = strlen_loop k m s (i + 1) in if m (s + i) == 0 then some i else rest

unfoldable pub strlen : ℕ → Memory → ℕ → Option ℕ
strlen k m s = strlen_loop k m s 0

-- The result is the difference of two `char`s, as a word.
unfoldable pub strcmp : ℕ → Memory → ℕ → ℕ → Option ℕ
strcmp zero m a b = none
strcmp (suc k) m a b =
    let rest = strcmp k m (a + 1) (b + 1) in
    if not (m a == 0) && (not (m b == 0) && (m a == m b))
    then rest
    else some (char_diff (m a) (m b))

-- The loop of `strncmp` with `size` characters left, above 0.
unfoldable pub strncmp_loop : ℕ → Memory → ℕ → ℕ → ℕ
strncmp_loop zero m a b = 0
strncmp_loop (suc n) m a b =
    let rest = strncmp_loop n m (a + 1) (b + 1) in
    if not (m a == 0) && (not (m b == 0) && ((m a == m b) && ltb 1 (suc n)))
    then rest
    else char_diff (m a) (m b)

unfoldable pub strncmp : ℕ → Memory → ℕ → ℕ → ℕ
strncmp size m a b = if size == 0 then 0 else strncmp_loop size m a b

-- `strcpy (p, src)`: the memory afterwards.
unfoldable pub strcpy : ℕ → Memory → ℕ → ℕ → Option Memory
strcpy zero m p src = none
strcpy (suc k) m p src =
    let rest = strcpy k (update m p (m src)) (p + 1) (src + 1) in
    if m src == 0 then some (update m p 0) else rest

-- The address of the first `c` at or after `p`; `some 0` if the text ends before.
unfoldable pub strchr : ℕ → Memory → ℕ → ℕ → Option ℕ
strchr zero m p c = none
strchr (suc k) m p c =
    let rest = strchr k m (p + 1) c in
    if not (m p == 0) || (c == 0) then (if c == m p then some p else rest) else some 0

unfoldable pub strcat : ℕ → Memory → ℕ → ℕ → Option Memory
strcat k m to from = elim (strchr k m to 0) [ none ↦ none | some p ↦ strcpy k m p from ]

-- The copy loop of `strncat`, with `size` characters left.
unfoldable pub strncat_loop : ℕ → Memory → ℕ → ℕ → Memory
strncat_loop zero m p from = update m p 0
strncat_loop (suc n) m p from =
    let rest = strncat_loop n (update m p (m from)) (p + 1) (from + 1) in
    if m from == 0 then update m p 0 else rest

unfoldable pub strncat : ℕ → ℕ → Memory → ℕ → ℕ → Option Memory
strncat k size m to from =
    if size == 0
    then some m
    else elim (strchr k m to 0) [ none ↦ none | some p ↦ some (strncat_loop size m p from) ]

-- Zero bytes from `p` on.
unfoldable pub zero_fill : ℕ → Memory → ℕ → Memory
zero_fill zero m p = m
zero_fill (suc n) m p = zero_fill n (update m p 0) (p + 1)

-- The loops of `strncpy` with `size` characters left: the copy, then the zeros.
unfoldable pub strncpy : ℕ → Memory → ℕ → ℕ → Memory
strncpy zero m p from = m
strncpy (suc n) m p from =
    let rest = strncpy n (update m p (m from)) (p + 1) (from + 1) in
    if m from == 0 then zero_fill (suc n) m p else rest

-- The length of the start of the text at `p` whose characters all pass, or all fail, the search
-- in `set`; `n` characters are counted so far.
unfoldable pub span_loop : Bool → ℕ → ℕ → Memory → ℕ → ℕ → ℕ → Option ℕ
span_loop member k zero m p set n = none
span_loop member k (suc j) m p set n =
    let rest = span_loop member k j m (p + 1) set (n + 1) in
    if m p == 0 then some n else elim (strchr k m set (m p)) [
      | none ↦ none
      | some q ↦ if if member then q == 0 else not (q == 0) then some n else rest
    ]

unfoldable pub strspn : ℕ → Memory → ℕ → ℕ → Option ℕ
strspn k m string skipset = span_loop true k k m string skipset 0

unfoldable pub strcspn : ℕ → Memory → ℕ → ℕ → Option ℕ
strcspn k m string stopset = span_loop false k k m string stopset 0

-- At the end of the text the code returns the address of the zero byte.
unfoldable pub strpbrk : ℕ → Memory → ℕ → ℕ → Option ℕ
strpbrk k m string stopset = elim (span_loop false k k m string stopset 0) [
  | none ↦ none
  | some n ↦ some (string + n)
]

-- `strupr` and `strlwr` in place.
unfoldable pub change_case : (ℕ → ℕ) → ℕ → Memory → ℕ → Option Memory
change_case f zero m p = none
change_case f (suc k) m p =
    let rest = change_case f k (update m p (f (m p))) (p + 1) in if m p == 0 then some m else rest

unfoldable pub strupr : ℕ → Memory → ℕ → Option Memory
unfolding toupper
strupr = change_case toupper

unfoldable pub strlwr : ℕ → Memory → ℕ → Option Memory
unfolding tolower
strlwr = change_case tolower
