-- ===== src/Libc/Text/Copy.antt =====
-- `strlen`, `strcpy` and `strcat` on texts that end.
use mes.Base.{
  ℕ, zero, suc, ◌+◌, ◌≤◌, ◌<◌, ◌≡◌, refl, ap, ◌∙◌, ◌≢◌, ◌⊎◌, inl, inr, true, false, some, arith,
  ◌==◌,
}
use mes.Heap.{update}
use mes.Libc.Text.{Memory, strlen_loop, strlen, strcpy}

-- From `s` on there are `n` characters and then a zero byte.
abbrev pub Text : Memory → ℕ → ℕ → Type 0
Text m s zero = m s ≡ 0
Text m s (suc n) = (m s ≢ 0) × Text m (s + 1) n

strlen_loop_lem :
    (n k i : ℕ) (m : Memory) (s : ℕ) → Text m (s + i) n → n < k → strlen_loop k m s i ≡ some (i + n)
unfolding strlen_loop
strlen_loop_lem n zero i m s t lt = absurd (omega arith)
strlen_loop_lem zero (suc k) i m s t lt =
    let e : (m (s + i) == 0) ≡ true = ground arith in rw e (ap some (omega arith))
strlen_loop_lem (suc n) (suc k) i m s (ne, t) lt =
    let e : (m (s + i) == 0) ≡ false = ground arith in
    let at : s + (i + 1) ≡ s + i + 1 = omega arith in
    let ih = strlen_loop_lem n k (i + 1) m s (rw at t) (omega arith) in
    rw (e, ih) (ap some (omega arith))

-- With enough rounds `strlen` returns the number of characters before the zero byte.
pub strlen-Text : (n k : ℕ) (m : Memory) (s : ℕ) → Text m s n → n < k → strlen k m s ≡ some n
unfolding strlen
strlen-Text n k m s t lt =
    let at : s + 0 ≡ s = omega arith in
    strlen_loop_lem n k 0 m s (rw at t) lt ∙ ap some (omega arith)

-- `m'` holds at `p` the `n` characters that `m` holds at `src` and a zero byte, and all else as `m`.
pub record Copied (n p src : ℕ) (m m' : Memory) : Type 0 where
  pub text : (i : ℕ) → i < n → m' (p + i) ≡ m (src + i)
  pub end : m' (p + n) ≡ 0
  pub same : (q : ℕ) → (q < p) ⊎ (p + n < q) → m' q ≡ m q

-- The text survives a write outside of it.
Text-update :
    (n : ℕ) (m : Memory) (s p v : ℕ) → (p < s) ⊎ (s + n < p) → Text m s n → Text (update m p v) s n
Text-update zero m s p v out t = ground arith
Text-update (suc n) m s p v out (ne, t) = (ground arith, Text-update n m (s + 1) p v (later out) t)
  where
    later : (p < s) ⊎ (s + suc n < p) → (p < s + 1) ⊎ (s + 1 + n < p)
    later (inl lt) = inl (omega arith)
    later (inr lt) = inr (omega arith)

Copied-step :
    (n p src : ℕ) (m m' : Memory)
    → (p ≤ src) ⊎ (src + suc n < p)
    → Copied n (p + 1) (src + 1) (update m p (m src)) m'
    → Copied (suc n) p src m m'
Copied-step n p src m m' apart r = record {
  text = text_at;
  end = let at : p + suc n ≡ p + 1 + n = omega arith in rw at r.end;
  same = λ q out. let ne : (p == q) ≡ false = ground arith in r.same q (outer q out) ∙ rw ne refl;
}
  where
    text_at : (i : ℕ) → i < suc n → m' (p + i) ≡ m (src + i)
    text_at zero lt =
        let first : m' p ≡ update m p (m src) p = r.same p (inl (omega arith)) in ground arith
    text_at (suc i) lt =
        let here : p + suc i ≡ p + 1 + i = omega arith in
        let there : src + suc i ≡ src + 1 + i = omega arith in
        let ne : (p == src + 1 + i) ≡ false = ground arith in
        rw (here, there) (r.text i (omega arith) ∙ rw ne refl)

    outer : (q : ℕ) → (q < p) ⊎ (p + suc n < q) → (q < p + 1) ⊎ (p + 1 + n < q)
    outer q (inl lt) = inl (omega arith)
    outer q (inr lt) = inr (omega arith)

-- `strcpy` of a text, to a place that does not begin within it behind its first character,
-- succeeds with rounds enough: the text and its zero byte stand there, and every other byte is as
-- it was.
pub strcpy-Copied :
    (n k : ℕ) (m : Memory) (p src : ℕ)
    → Text m src n
    → (p ≤ src) ⊎ (src + n < p)
    → n < k
    → (m' : Memory) × (strcpy k m p src ≡ some m') × Copied n p src m m'
unfolding strcpy
strcpy-Copied n zero m p src t apart lt = absurd (omega arith)
strcpy-Copied zero (suc k) m p src t apart lt =
    let e : (m src == 0) ≡ true = ground arith in
    (
      update m p 0,
      rw e refl,
      record {
        text = λ i l. absurd (omega arith);
        end = ground arith;
        same = λ q out. let ne : (p == q) ≡ false = ground arith in rw ne refl;
      },
    )
strcpy-Copied (suc n) (suc k) m p src (ne, t) apart lt =
    let e : (m src == 0) ≡ false = ground arith in
    let (m', run, r) =
      strcpy-Copied n k (update m p (m src)) (p + 1) (src + 1)
        (Text-update n m (src + 1) p (m src) (before apart) t) (after apart) (omega arith) in
    (m', rw e run, Copied-step n p src m m' apart r)
  where
    before : (p ≤ src) ⊎ (src + suc n < p) → (p < src + 1) ⊎ (src + 1 + n < p)
    before (inl le) = inl (omega arith)
    before (inr lt) = inr (omega arith)

    after : (p ≤ src) ⊎ (src + suc n < p) → (p + 1 ≤ src + 1) ⊎ (src + 1 + n < p + 1)
    after (inl le) = inl (omega arith)
    after (inr lt) = inr (omega arith)
