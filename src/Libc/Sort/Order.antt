-- ===== src/Libc/Sort/Order.antt =====
-- `qsort` of lib/stdlib/qsort.c on an array whose keys are all different.
use mes.Base.{
  ℕ, zero, suc, ◌+◌, ◌-◌, ◌*◌, ◌≤◌, ◌<◌, ◌≡◌, refl, sym, ap, ◌∙◌, subst, ◌⊎◌, inl, inr, Option,
  some, arith, ltb, ◌==◌, ==_iff, Bool-cases,
}
use mes.Libc.Sort.{Array, Comparison, qpart, sort_parts, qsort}
use mes.Libc.Sort.Part.{IsKeyed, Pivoted, qpart-Pivoted}
use mes.Libc.Sort.Rearrange.{
  Rearranged, Rearranged-refl, Rearranged-trans, Rearranged-widen, Rearranged-outside,
  Rearranged-inside, Distinct, Rearranged-Distinct,
}

abbrev pub Ascending : (ℕ → ℕ) → ℕ → ℕ → Array → Type 0
Ascending key lo n a = (s t : ℕ) → lo ≤ s → s < t → t < lo + n → key (a s) < key (a t)

-- The first entry is below all others.
abbrev FirstLeast : (ℕ → ℕ) → ℕ → ℕ → Array → Type 0
FirstLeast key lo n a = (t : ℕ) → lo < t → t < lo + n → key (a lo) < key (a t)

-- A run of `qsort` that returns an ordered rearrangement.
pub record Sorts (key : ℕ → ℕ) (base count : ℕ) (a : Array) (run : Option Array) : Type 0 where
  pub result : Array
  pub returns : run ≡ some result
  pub ascending : Ascending key base count result
  pub order : Rearranged base count a result

-- When the first entry is the least of all, the partition leaves an entry below its pivot.
pivot-pos :
    (key : ℕ → ℕ) (base count : ℕ) (a : Array) (r : Array × ℕ)
    → 0 < count
    → FirstLeast key base (count + 1) a
    → Pivoted key base count a r
    → 0 < r.1
pivot-pos key base count a (b, p) pos least v = elim (Bool-cases (p == 0)) [
  | inl z ↦ absurd (contradiction ((==_iff p 0).0 z))
  | inr z ↦ ground arith
]
  where
    contradiction : p ≡ 0 → ⊥
    contradiction e =
        let t = v.order.back base in
        let first : b t ≡ a base = v.order.entry t ∙ ap a (v.order.at-back base) in
        let start : b base ≡ a (base + count) =
          ap b (let f : base ≡ base + p = omega arith in f) ∙ v.pivot in
        let less : key (b t) < key (b base) =
          rw (first, start) (least (base + count) (omega arith) (omega arith)) in
        let here : t ≡ base → ⊥ = λ f. omega (arith, less, ap (λ q. key (b q)) f) in
        elim (v.order.moves t) [
          | inl f ↦ here (sym f ∙ v.order.at-back base)
          | inr (l, u, l', u') ↦
              let above = v.high (t - base) (omega (arith, here)) (omega arith) in
              let f : base + (t - base) ≡ t = omega arith in
              let g : base + p ≡ base = omega arith in
              omega (arith, less, above, ap (λ q. key (b q)) f, ap (λ q. key (b q)) g)
        ]

-- The entries of a pivoted array by their own indices.
module _ {key : ℕ → ℕ} {base count p : ℕ} {a b : Array} (v : Pivoted key base count a (b, p)) where
  below-pivot : (t : ℕ) → base ≤ t → t < base + p → key (b t) < key (b (base + p))
  below-pivot t l u =
      let f : base + (t - base) ≡ t = omega arith in
      omega (arith, v.low (t - base) (omega arith), ap (λ q. key (b q)) f)

  above-pivot : (t : ℕ) → base + p ≤ t → t < base + (count + 1) → key (b (base + p)) ≤ key (b t)
  above-pivot t l u = elim (Bool-cases (t == base + p)) [
    | inl z ↦ omega (arith, ap (λ q. key (b q)) ((==_iff t (base + p)).0 z))
    | inr z ↦
        let f : base + (t - base) ≡ t = omega arith in
        omega (arith, v.high (t - base) (ground arith) (omega arith), ap (λ q. key (b q)) f)
  ]

  -- Both sides put in order.
  join-Ascending :
      {c d : Array}
      → p ≤ count
      → Rearranged base p b c
      → Ascending key base p c
      → Rearranged (base + p) (count + 1 - p) c d
      → Ascending key (base + p) (count + 1 - p) d
      → Ascending key base (count + 1) d
  join-Ascending {c} {d} bound r low q high s t ls lt ut = elim (Bool-cases (ltb t (base + p))) [
    | inl y ↦
        let u : t < base + p = ground arith in
        let es = Rearranged-outside q s (inl (omega arith)) in
        let et = Rearranged-outside q t (inl u) in
        omega (arith, low s t ls lt u, ap key es, ap key et)
    | inr n ↦
        let l : base + p ≤ t = ground arith in
        elim (Bool-cases (ltb s (base + p))) [
          | inl y ↦
              let u : s < base + p = ground arith in
              let es = Rearranged-outside q s (inl u) in
              let (ls', us') = Rearranged-inside r s ls u in
              let (lt', ut') = Rearranged-inside q t l (omega arith) in
              let et = Rearranged-outside r (q.at t) (inr (omega arith)) in
              omega (
                arith,
                below-pivot (r.at s) ls' us',
                above-pivot (q.at t) lt' (omega arith),
                ap key es,
                ap key (r.entry s),
                ap key (q.entry t),
                ap key et,
              )
          | inr m ↦ let l' : base + p ≤ s = ground arith in high s t l' lt (omega arith)
        ]
  ]

-- The fuel that `qsort` is given: two for each entry, one less where the first is the least.
abbrev HasFuel : (ℕ → ℕ) → ℕ → ℕ → ℕ → Array → Type 0
HasFuel key k base count a =
    (2 * count + 2 ≤ k) ⊎ ((2 * count + 1 ≤ k) × FirstLeast key base count a)

-- The two calls of `qsort`, when they sort.
parts-Sorts :
    (key : ℕ → ℕ) (sort : ℕ → ℕ → Array → Option Array) (k base c : ℕ) (a b : Array) (p : ℕ)
    → ((base count : ℕ) (a : Array)
        → Distinct key base count a
        → HasFuel key k base count a
        → Sorts key base count a (sort base count a))
    → 0 < c
    → Distinct key base (c + 1) a
    → HasFuel key (suc k) base (c + 1) a
    → Pivoted key base c a (b, p)
    → Sorts key base (c + 1) a (sort_parts sort base (c + 1) (b, p))
unfolding sort_parts
parts-Sorts key sort k base c a b p ih pos d fuel v =
    let d₁ = Rearranged-Distinct key v.order d in
    let s₁ =
      ih base p b
        (λ s t ls us lt ut. d₁ s t ls (omega (arith, v.bound)) lt (omega (arith, v.bound)))
        (inl first) in
    let r₁ : Rearranged base (c + 1) b s₁.result =
      Rearranged-widen (omega arith) (omega (arith, v.bound)) s₁.order in
    let d₂ = Rearranged-Distinct key r₁ d₁ in
    let s₂ =
      ih (base + p) (c + 1 - p) s₁.result
        (λ s t ls us lt ut.
          d₂ s t (omega arith) (omega (arith, v.bound)) (omega arith) (omega (arith, v.bound)))
        (second s₁) in
    record {
      result = s₂.result;
      returns = rw s₁.returns s₂.returns;
      ascending = join-Ascending v v.bound s₁.order s₁.ascending s₂.order s₂.ascending;
      order =
          Rearranged-trans v.order (
            Rearranged-trans r₁ (Rearranged-widen (omega arith) (omega (arith, v.bound)) s₂.order));
    }
  where
    first : 2 * p + 2 ≤ k
    first = elim fuel [ inl f ↦ omega (arith, v.bound) | inr (f, least) ↦ omega (arith, v.bound) ]

    second :
        (s : Sorts key base p b (sort base p b)) → HasFuel key k (base + p) (c + 1 - p) s.result
    second s = elim (Bool-cases (p == 0)) [
      | inl z ↦
          let e : p ≡ 0 = (==_iff p 0).0 z in
          elim fuel [
            | inl f ↦ inr (
              omega arith,
              λ t l u.
                  let es = Rearranged-outside s.order (base + p) (inr (omega arith)) in
                  let et = Rearranged-outside s.order t (inr (omega arith)) in
                  let f : base + (t - base) ≡ t = omega arith in
                  omega (
                    arith,
                    v.high (t - base) (omega arith) (omega arith),
                    ap key es,
                    ap key et,
                    ap (λ q. key (b q)) f,
                  ),
            )
            | inr (f, least) ↦ absurd (omega (arith, pivot-pos key base c a (b, p) pos least v))
          ]
      | inr z ↦
          let above : 0 < p = ground arith in
          inl
            (elim fuel [ inl f ↦ omega (arith, v.bound) | inr (f, least) ↦ omega (arith, v.bound) ])
    ]

qsort_fuel :
    (compare : Comparison) (key : ℕ → ℕ) (k base count : ℕ) (a : Array)
    → IsKeyed compare key
    → Distinct key base count a
    → HasFuel key k base count a
    → Sorts key base count a (qsort k compare base count a)
unfolding qsort
qsort_fuel compare key zero base count a o d fuel =
    absurd (elim fuel [ inl f ↦ omega arith | inr (f, least) ↦ omega arith ])
qsort_fuel compare key (suc k) base count a o d fuel = elim (Bool-cases (ltb 1 count)) [
  | inl y ↦
      let e : count - 1 + 1 ≡ count = ground arith in
      let d' : Distinct key base (count - 1 + 1) a = subst (λ n. Distinct key base n a) (sym e) d in
      let r = qpart compare base (count - 1) a in
      rw y (
        subst (λ n. Sorts key base n a (sort_parts (qsort k compare) base n r)) e
          (parts-Sorts key (qsort k compare) k base (count - 1) a r.0 r.1
            (λ base count a d fuel. qsort_fuel compare key k base count a o d fuel) (ground arith)
            d' (subst (λ n. HasFuel key (suc k) base n a) (sym e) fuel)
            (qpart-Pivoted compare key base (count - 1) a o d')))
  | inr n ↦ rw n (record {
    result = a;
    returns = refl;
    ascending = λ s t l u v. absurd (ground arith);
    order = Rearranged-refl base count a;
  })
]

-- `qsort` of elements that compare as their keys do, and whose keys are all different, ends within
-- `2 * count + 2` nested calls, and returns the array with its entries rearranged and in ascending
-- order. What stands outside the `count` entries from `base` on is as it was.
pub qsort-Sorts :
    (compare : Comparison) (key : ℕ → ℕ) (k base count : ℕ) (a : Array)
    → IsKeyed compare key
    → Distinct key base count a
    → 2 * count + 2 ≤ k
    → Sorts key base count a (qsort k compare base count a)
qsort-Sorts compare key k base count a o d fuel =
    qsort_fuel compare key k base count a o d (inl fuel)
