-- ===== src/Libc/Sort/Rearrange.antt =====
-- Rearrangements of a part of an array, as bijections of the indices.
use mes.Base.{ℕ, ◌+◌, ◌≤◌, ◌<◌, ◌≡◌, refl, sym, ap, ◌∙◌, ◌⊎◌, inl, inr, arith, ◌==◌, if◌then◌else◌}
use mes.Eval.Apply.{above}
use mes.Libc.Sort.{Array, qswap}

-- `b` is `a` with the `n` entries from `lo` on in another order: `b t` is `a (at t)`.
pub record Rearranged (lo n : ℕ) (a b : Array) : Type 0 where
  pub at : ℕ → ℕ
  pub back : ℕ → ℕ
  pub at-back : (t : ℕ) → at (back t) ≡ t
  pub back-at : (t : ℕ) → back (at t) ≡ t
  pub entry : (t : ℕ) → b t ≡ a (at t)
  pub moves : (t : ℕ) → (at t ≡ t) ⊎ ((lo ≤ t) × (t < lo + n) × (lo ≤ at t) × (at t < lo + n))

pub Rearranged-refl : (lo n : ℕ) (a : Array) → Rearranged lo n a a
Rearranged-refl lo n a = record {
  at = λ t. t;
  back = λ t. t;
  at-back = λ t. refl;
  back-at = λ t. refl;
  entry = λ t. refl;
  moves = λ t. inl refl;
}

pub Rearranged-trans :
    {lo n : ℕ} {a b c : Array} → Rearranged lo n a b → Rearranged lo n b c → Rearranged lo n a c
Rearranged-trans {lo} {n} r q = record {
  at = λ t. r.at (q.at t);
  back = λ t. q.back (r.back t);
  at-back = λ t. ap r.at (q.at-back (r.back t)) ∙ r.at-back t;
  back-at = λ t. ap q.back (r.back-at (q.at t)) ∙ q.back-at t;
  entry = λ t. q.entry t ∙ r.entry (q.at t);
  moves = λ t. elim (q.moves t) [
    | inl e ↦ elim (r.moves (q.at t)) [
      | inl f ↦ inl (f ∙ e)
      | inr (l, u, l', u') ↦ inr (omega arith)
    ]
    | inr (l, u, l', u') ↦ elim (r.moves (q.at t)) [
      | inl f ↦ inr (omega arith)
      | inr (m, v, m', v') ↦ inr (omega arith)
    ]
  ];
}

pub Rearranged-widen :
    {lo n lo' n' : ℕ} {a b : Array}
    → lo' ≤ lo
    → lo + n ≤ lo' + n'
    → Rearranged lo n a b
    → Rearranged lo' n' a b
Rearranged-widen below above r = record {
  at = r.at;
  back = r.back;
  at-back = r.at-back;
  back-at = r.back-at;
  entry = r.entry;
  moves = λ t. elim (r.moves t) [ inl e ↦ inl e | inr (l, u, l', u') ↦ inr (omega arith) ];
}

transpose : ℕ → ℕ → ℕ → ℕ
transpose i j t = if t == i then j else if t == j then i else t

transpose_twice : (i j t : ℕ) → transpose i j (transpose i j t) ≡ t
unfolding transpose
transpose_twice i j t = ground arith

pub qswap-Rearranged :
    (lo n i j : ℕ) (a : Array)
    → lo ≤ i
    → i < lo + n
    → lo ≤ j
    → j < lo + n
    → Rearranged lo n a (qswap i j a)
unfolding qswap transpose
qswap-Rearranged lo n i j a li ui lj uj = record {
  at = transpose i j;
  back = transpose i j;
  at-back = transpose_twice i j;
  back-at = transpose_twice i j;
  entry = λ t. ground arith;
  moves = λ t. ground arith;
}

-- An entry outside stays, and one inside comes from inside.
pub Rearranged-outside :
    {lo n : ℕ} {a b : Array} (r : Rearranged lo n a b) (t : ℕ) → (t < lo) ⊎ (lo + n ≤ t) → b t ≡ a t
Rearranged-outside {a = a} r t out = elim (r.moves t) [
  | inl e ↦ r.entry t ∙ ap a e
  | inr (l, u, l', u') ↦ elim out [ inl y ↦ absurd (omega arith) | inr y ↦ absurd (omega arith) ]
]

pub Rearranged-inside :
    {lo n : ℕ} {a b : Array} (r : Rearranged lo n a b) (t : ℕ)
    → lo ≤ t
    → t < lo + n
    → (lo ≤ r.at t) × (r.at t < lo + n)
Rearranged-inside r t l u = elim (r.moves t) [ inl e ↦ omega arith | inr (m, v, m', v') ↦ (m', v') ]

-- The keys of the entries are all different.
abbrev pub Distinct : (ℕ → ℕ) → ℕ → ℕ → Array → Type 0
Distinct key lo n a =
    (s t : ℕ) → lo ≤ s → s < lo + n → lo ≤ t → t < lo + n → key (a s) ≡ key (a t) → s ≡ t

pub Rearranged-Distinct :
    {lo n : ℕ} {a b : Array} (key : ℕ → ℕ)
    → Rearranged lo n a b
    → Distinct key lo n a
    → Distinct key lo n b
Rearranged-Distinct {a = a} key r d s t ls us lt ut e =
    let (l, u) = Rearranged-inside r s ls us in
    let (l', u') = Rearranged-inside r t lt ut in
    let same =
      d (r.at s) (r.at t) l u l' u' (ap key (sym (r.entry s)) ∙ (e ∙ ap key (r.entry t))) in
    sym (r.back-at s) ∙ (ap r.back same ∙ r.back-at t)
