-- ===== src/Libc/Search.antt =====
-- lib/string/memmem.c, strstr.c and strrchr.c on a flat memory of bytes. The result 0 is the null
-- pointer.
use mes.Base.{
  ℕ, zero, suc, ◌+◌, ◌-◌, ◌<◌, ◌≡◌, refl, sym, ap, ◌∙◌, subst, ◌⊎◌, inl, inr, Bool, true, false,
  not, ◌&&◌, ◌||◌, Option, none, some, arith, ◌==◌, if◌then◌else◌, ==_iff, Bool-cases,
}
use mes.Libc.Text.{Memory, strlen}

-- The inner loop of `_memmem`, for `n` bytes.
unfoldable pub needle_here : Memory → ℕ → ℕ → ℕ → Bool
needle_here m zero needle haystack = true
needle_here m (suc n) needle haystack =
    let rest = needle_here m n (needle + 1) (haystack + 1) in
    if m needle == m haystack then rest else false

-- The outer loop, for `k` places.
unfoldable pub memmem_loop : ℕ → Memory → ℕ → ℕ → ℕ → ℕ
memmem_loop zero m haystack needle needle_len = 0
memmem_loop (suc k) m haystack needle needle_len =
    let rest = memmem_loop k m (haystack + 1) needle needle_len in
    if needle_here m needle_len needle haystack then haystack else rest

unfoldable pub memmem : Memory → ℕ → ℕ → ℕ → ℕ → ℕ
memmem m haystack haystack_len needle needle_len =
    memmem_loop (haystack_len + 1 - needle_len) m haystack needle needle_len

unfoldable pub strstr : ℕ → Memory → ℕ → ℕ → Option ℕ
strstr k m haystack needle = elim (strlen k m haystack) [
  | none ↦ none
  | some n ↦ elim (strlen k m needle) [ none ↦ none | some l ↦ some (memmem m haystack n needle l) ]
]

-- The loop of `strrchr`, with `n` characters up to `p`.
unfoldable pub strrchr_loop : ℕ → Memory → ℕ → ℕ → ℕ
strrchr_loop zero m p c = 0
strrchr_loop (suc n) m p c =
    let rest = strrchr_loop n m (p - 1) c in
    if not (m p == 0) || (c == 0) then (if c == m p then p else rest) else 0

unfoldable pub strrchr : ℕ → Memory → ℕ → ℕ → Option ℕ
strrchr k m s c = elim (strlen k m s) [
  | none ↦ none
  | some n ↦ some (
      if n == 0
      then 0
      else if (m (s + n) == 0) && (c == 0)
      then s + n
      else strrchr_loop n m (s + n - 1) c)
]

-- The `n` bytes from `needle` on stand at `haystack`.
abbrev pub Occurs : Memory → ℕ → ℕ → ℕ → Type 0
Occurs m n needle haystack = (i : ℕ) → i < n → m (needle + i) ≡ m (haystack + i)

needle_here_lem :
    (m : Memory) (n needle haystack : ℕ)
    → (needle_here m n needle haystack ≡ true → Occurs m n needle haystack)
      × (Occurs m n needle haystack → needle_here m n needle haystack ≡ true)
unfolding needle_here
needle_here_lem m zero needle haystack = (λ e i lt. absurd (omega arith), λ o. refl)
needle_here_lem m (suc n) needle haystack =
    let (to, from) = needle_here_lem m n (needle + 1) (haystack + 1) in
    let shift : (q i : ℕ) → q + 1 + i ≡ q + suc i = λ q i. omega arith in
    let start : (q : ℕ) → q + 0 ≡ q = λ q. omega arith in
    elim (Bool-cases (m needle == m haystack)) [
      | inl y ↦ (
        λ e. occurs_from m n needle haystack ((==_iff _ _).0 y) (
            to (
              subst (λ b. (if b then needle_here m n (needle + 1) (haystack + 1) else false) ≡ true)
                y e)),
        λ o. rw y (
            from (λ i lt.
              ap m (shift needle i) ∙ o (suc i) (omega arith) ∙ ap m (sym (shift haystack i)))),
      )
      | inr z ↦ (
        λ e. absurd (ground (arith, e)),
        λ o.
            absurd (
              ground
                (arith, ap m (sym (start needle)) ∙ o 0 (omega arith) ∙ ap m (start haystack))),
      )
    ]
  where
    occurs_from :
        (m : Memory) (n needle haystack : ℕ)
        → m needle ≡ m haystack
        → Occurs m n (needle + 1) (haystack + 1)
        → Occurs m (suc n) needle haystack
    occurs_from m n needle haystack e o zero lt =
        let a : needle + 0 ≡ needle = omega arith in
        let b : haystack + 0 ≡ haystack = omega arith in ap m a ∙ e ∙ ap m (sym b)
    occurs_from m n needle haystack e o (suc i) lt =
        let a : needle + suc i ≡ needle + 1 + i = omega arith in
        let b : haystack + suc i ≡ haystack + 1 + i = omega arith in
        ap m a ∙ o i (omega arith) ∙ ap m (sym b)

-- The first of `k` places, or none.
abbrev pub First : Memory → ℕ → ℕ → ℕ → ℕ → ℕ → Type 0
First m k n needle haystack r =
    ((r ≡ 0) × ((i : ℕ) → i < k → ¬ Occurs m n needle (haystack + i)))
    ⊎ ((i : ℕ) × (i < k)
        × (r ≡ haystack + i)
        × Occurs m n needle (haystack + i)
        × ((j : ℕ) → j < i → ¬ Occurs m n needle (haystack + j)))

no_place :
    (m : Memory) (n needle haystack b : ℕ)
    → ¬ Occurs m n needle haystack
    → ((i : ℕ) → i < b → ¬ Occurs m n needle (haystack + 1 + i))
    → (i : ℕ) → i < suc b
    → ¬ Occurs m n needle (haystack + i)
no_place m n needle haystack b here later zero lt o =
    let e : haystack + 0 ≡ haystack = omega arith in here (subst (Occurs m n needle) e o)
no_place m n needle haystack b here later (suc i) lt o =
    let e : haystack + suc i ≡ haystack + 1 + i = omega arith in
    later i (omega arith) (subst (Occurs m n needle) e o)

memmem_loop-First :
    (k : ℕ) (m : Memory) (n needle haystack : ℕ)
    → First m k n needle haystack (memmem_loop k m haystack needle n)
unfolding memmem_loop
memmem_loop-First zero m n needle haystack = inl (refl, λ i lt o. absurd (omega arith))
memmem_loop-First (suc k) m n needle haystack =
    let (to, from) = needle_here_lem m n needle haystack in
    elim (Bool-cases (needle_here m n needle haystack)) [
      | inl y ↦
          let e : haystack ≡ haystack + 0 = omega arith in
          rw y (
            inr (
              0,
              omega arith,
              e,
              subst (Occurs m n needle) e (to y),
              λ j lt o. absurd (omega arith),
            ))
      | inr z ↦
          let here : ¬ Occurs m n needle haystack = λ o. absurd (ground (arith, from o)) in
          rw z (elim (memmem_loop-First k m n needle (haystack + 1)) [
            | inl (e, none_later) ↦ inl (e, no_place m n needle haystack k here none_later)
            | inr (i, lt, e, o, before) ↦
                let next : haystack + 1 + i ≡ haystack + suc i = omega arith in
                inr (
                  suc i,
                  omega arith,
                  e ∙ next,
                  subst (Occurs m n needle) next o,
                  no_place m n needle haystack i here before,
                )
          ])
    ]

-- `memmem` returns the first place of the haystack at which the needle stands in full, and the
-- null pointer when there is none.
pub memmem-First :
    (m : Memory) (haystack haystack_len needle needle_len : ℕ)
    → First m
        (haystack_len + 1 - needle_len)
        needle_len
        needle
        haystack
        (memmem m haystack haystack_len needle needle_len)
unfolding memmem
memmem-First m haystack haystack_len needle needle_len =
    memmem_loop-First (haystack_len + 1 - needle_len) m needle_len needle haystack
