-- ===== src/Libc/Sort/Part.antt =====
-- `qpart` of lib/stdlib/qsort.c on an array whose keys are all different.
use mes.Base.{
  ℕ, zero, suc, ◌+◌, ◌≤◌, ◌<◌, ◌≡◌, refl, sym, ap, ◌∙◌, ◌≢◌, ◌⊎◌, inl, inr, arith, ◌==◌, Bool-cases,
}
use mes.Libc.Sort.{
  negative, nought, positive, Array, Comparison, qswap, part_loop, finish_part, qpart,
}
use mes.Libc.Sort.Rearrange.{
  Rearranged, Rearranged-refl, Rearranged-trans, Rearranged-widen, qswap-Rearranged, Distinct,
  Rearranged-Distinct,
}

-- `compare` is the order of the keys.
pub record IsKeyed (compare : Comparison) (key : ℕ → ℕ) : Type 0 where
  pub less : (x y : ℕ) → key x < key y → compare x y ≡ negative
  pub same : (x y : ℕ) → key x ≡ key y → compare x y ≡ nought
  pub more : (x y : ℕ) → key y < key x → compare x y ≡ positive

-- The entries from `base` on, `count` of them, fall into `i` that are below the entry behind them
-- and the others, which are above it.
pub record Parted (key : ℕ → ℕ) (base count : ℕ) (a : Array) (r : Array × ℕ) : Type 0 where
  pub bound : r.1 ≤ count
  pub low : (t : ℕ) → t < r.1 → key (r.0 (base + t)) < key (r.0 (base + count))
  pub high : (t : ℕ) → r.1 ≤ t → t < count → key (r.0 (base + count)) < key (r.0 (base + t))
  pub pivot : r.0 (base + count) ≡ a (base + count)
  pub order : Rearranged base count a r.0

apart : (x y : ℕ) → (x < y) ⊎ ((x ≡ y) ⊎ (y < x))
apart x y = ground arith

qswap-left : (i j : ℕ) (a : Array) → qswap i j a i ≡ a j
unfolding qswap
qswap-left i j a = ground arith

qswap-right : (i j : ℕ) (a : Array) → qswap i j a j ≡ a i
unfolding qswap
qswap-right i j a = ground arith

qswap-other : (i j t : ℕ) (a : Array) → t ≢ i → t ≢ j → qswap i j a t ≡ a t
unfolding qswap
qswap-other i j t a f g = ground arith

-- The two sides of the partition when the next entry belongs to the lower one.
module _ (key : ℕ → ℕ) (base count i j : ℕ) (a : Array) where
  swap-low :
      i ≤ j
      → qswap (base + i) (base + j) a (base + count) ≡ a (base + count)
      → key (a (base + j)) < key (a (base + count))
      → ((t : ℕ) → t < i → key (a (base + t)) < key (a (base + count)))
      → (t : ℕ) → t < i + 1
      → key (qswap (base + i) (base + j) a (base + t))
        < key (qswap (base + i) (base + j) a (base + count))
  swap-low le end y low t lt = elim (Bool-cases (t == i)) [
    | inl z ↦ let f : t ≡ i = ground arith in rw (f, end, qswap-left (base + i) (base + j) a) y
    | inr z ↦
        let below : t < i = ground arith in
        rw (end, qswap-other (base + i) (base + j) (base + t) a (omega arith) (omega arith))
          (low t below)
  ]

  swap-high :
      qswap (base + i) (base + j) a (base + count) ≡ a (base + count)
      → ((t : ℕ) → i ≤ t → t < j → key (a (base + count)) < key (a (base + t)))
      → (t : ℕ) → i + 1 ≤ t
      → t < j + 1
      → key (qswap (base + i) (base + j) a (base + count))
        < key (qswap (base + i) (base + j) a (base + t))
  swap-high end high t l u = elim (Bool-cases (t == j)) [
    | inl z ↦
        let f : t ≡ j = ground arith in
        rw (f, end, qswap-right (base + i) (base + j) a) (high i (omega arith) (omega arith))
    | inr z ↦
        let below : t < j = ground arith in
        rw (end, qswap-other (base + i) (base + j) (base + t) a (omega arith) (omega arith))
          (high t (omega arith) below)
  ]

part_loop-Parted :
    (compare : Comparison) (key : ℕ → ℕ) (base count n i j : ℕ) (a : Array)
    → IsKeyed compare key
    → Distinct key base (count + 1) a
    → j + n ≡ count
    → i ≤ j
    → ((t : ℕ) → t < i → key (a (base + t)) < key (a (base + count)))
    → ((t : ℕ) → i ≤ t → t < j → key (a (base + count)) < key (a (base + t)))
    → Parted key base count a (part_loop compare base count n i j a)
unfolding part_loop
part_loop-Parted compare key base count zero i j a o d e le low high = record {
  bound = omega arith;
  low = low;
  high = λ t l u. high t l (omega arith);
  pivot = refl;
  order = Rearranged-refl base count a;
}
part_loop-Parted compare key base count (suc n) i j a o d e le low high =
    elim (apart (key (a (base + j))) (key (a (base + count)))) [
      | inl y ↦
          let a' = qswap (base + i) (base + j) a in
          let end : a' (base + count) ≡ a (base + count) =
            qswap-other (base + i) (base + j) (base + count) a (omega arith) (omega arith) in
          let r =
            part_loop-Parted compare key base count n (i + 1) (j + 1) a' o
              (Rearranged-Distinct key
                (qswap-Rearranged base (count + 1) (base + i) (base + j) a (omega arith)
                  (omega arith) (omega arith) (omega arith))
                d)
              (omega arith) (omega arith) (swap-low key base count i j a le end y low)
              (swap-high key base count i j a end high) in
          rw (o.less (a (base + j)) (a (base + count)) y) (record {
            bound = r.bound;
            low = r.low;
            high = r.high;
            pivot = r.pivot ∙ end;
            order =
                Rearranged-trans
                  (qswap-Rearranged base count (base + i) (base + j) a (omega arith) (omega arith)
                    (omega arith) (omega arith))
                  r.order;
          })
      | inr (inl y) ↦ absurd (
          let same =
            d (base + j) (base + count) (omega arith) (omega arith) (omega arith) (omega arith) y in
          omega (arith, same))
      | inr (inr y) ↦ rw (o.more (a (base + j)) (a (base + count)) y) (
          part_loop-Parted compare key base count n i (j + 1) a o d (omega arith) (omega arith) low
            (λ t l u. elim (Bool-cases (t == j)) [
              | inl z ↦ let f : t ≡ j = ground arith in rw f y
              | inr z ↦ high t l (ground arith)
            ]))
    ]

-- After `qpart` the entry at its result is above those before it and below those behind it.
pub record Pivoted (key : ℕ → ℕ) (base count : ℕ) (a : Array) (r : Array × ℕ) : Type 0 where
  pub bound : r.1 ≤ count
  pub low : (t : ℕ) → t < r.1 → key (r.0 (base + t)) < key (r.0 (base + r.1))
  pub high : (t : ℕ) → r.1 < t → t ≤ count → key (r.0 (base + r.1)) < key (r.0 (base + t))
  pub pivot : r.0 (base + r.1) ≡ a (base + count)
  pub order : Rearranged base (count + 1) a r.0

finish_part-Pivoted :
    (compare : Comparison) (key : ℕ → ℕ) (base count : ℕ) (a b : Array) (i : ℕ)
    → IsKeyed compare key
    → Parted key base count a (b, i)
    → Pivoted key base count a (finish_part compare base count (b, i))
unfolding finish_part
finish_part-Pivoted compare key base count a b i o p = elim (Bool-cases (i == count)) [
  | inl z ↦
      let e : i ≡ count = ground arith in
      rw (o.same (b (base + count)) (b (base + i)) (ap (λ t. key (b (base + t))) (sym e))) (record {
        bound = p.bound;
        low = λ t lt. rw e (p.low t lt);
        high = λ t l u. absurd (omega arith);
        pivot = rw e p.pivot;
        order = Rearranged-widen (omega arith) (omega arith) p.order;
      })
  | inr z ↦
      let below : i < count = ground (arith, p.bound) in
      let left = qswap-left (base + i) (base + count) b in
      let right = qswap-right (base + i) (base + count) b in
      rw (o.less (b (base + count)) (b (base + i)) (p.high i (omega arith) below)) (record {
        bound = p.bound;
        low = λ t lt.
            rw
              (left, qswap-other (base + i) (base + count) (base + t) b (omega arith) (omega arith))
              (p.low t lt);
        high = λ t l u. rw left (elim (Bool-cases (t == count)) [
          | inl y ↦ let f : t ≡ count = ground arith in rw (f, right) (p.high i (omega arith) below)
          | inr y ↦
              rw (qswap-other (base + i) (base + count) (base + t) b (omega arith) (ground arith))
                (p.high t (omega arith) (ground arith))
        ]);
        pivot = left ∙ p.pivot;
        order = Rearranged-trans (Rearranged-widen (omega arith) (omega arith) p.order) (
            qswap-Rearranged base (count + 1) (base + i) (base + count) b (omega arith)
              (omega arith) (omega arith) (omega arith));
      })
]

pub qpart-Pivoted :
    (compare : Comparison) (key : ℕ → ℕ) (base count : ℕ) (a : Array)
    → IsKeyed compare key
    → Distinct key base (count + 1) a
    → Pivoted key base count a (qpart compare base count a)
unfolding qpart
qpart-Pivoted compare key base count a o d =
    let p =
      part_loop-Parted compare key base count count 0 0 a o d (omega arith) (omega arith)
        (λ t lt. absurd (omega arith)) (λ t l u. absurd (omega arith)) in
    finish_part-Pivoted compare key base count a _ _ o p
