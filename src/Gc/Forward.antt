-- ===== src/Gc/Forward.antt =====
-- One call of `gc_copy` in a collection.
use mathlib.Core.List.{append-nil}
use mes.Base.{
  ℕ, zero, suc, ◌+◌, ◌<◌, ◌≡◌, refl, sym, ap, ◌∙◌, subst, inl, inr, List, [], ◌∷◌, ◌++◌, arith,
  length,
}
use mes.Gc.{gc_copy}
use mes.Gc.Copy.{element_count}
use mes.Gc.Snapshot.{Snapshot, IsElement, size, Raw, total, Laid, Placed}
use mes.Gc.Space.{Space, Kept, weight}
use mes.Heap.{Cell, Heap, Run, ok, type_at, car_at, cdr_at}
use mes.Heap.Const.{t_broken_heart}

-- The cells from `from` on.
abbrev pub cells_from : ℕ → ℕ → List ℕ
cells_from from zero = []
cells_from from (suc n) = from ∷ cells_from (from + 1) n

-- What `gc_copy` adds to the new space for the object `p`.
abbrev pub copied_objects : Snapshot → ℕ → List ℕ
copied_objects g p = p ∷ cells_from (cdr_at g.heap p) (element_count g.heap p)

-- A run of `gc_copy` for `p` that adds copies of `added`.
pub record Forwards (g : Snapshot) (os : List ℕ) (h : Heap) (p : ℕ) (run : Run Heap ℕ)
    : Type 0 where
  pub at : ℕ
  pub heap : Heap
  pub added : List ℕ
  pub returns : run ≡ ok at heap
  pub space : Space g (os ++ added) heap
  pub raw : Laid g (Raw g heap) h.free added
  pub kept : Kept g h heap
  pub heart : type_at heap p ≡ t_broken_heart
  pub address : car_at heap p ≡ at
  pub work : length added + weight g heap g.news ≡ weight g h g.news

pub already :
    (old : ℕ) (h : Heap) → type_at h old ≡ t_broken_heart → gc_copy old h ≡ ok (car_at h old) h
unfolding gc_copy
already old h e = rw e refl

pub forward_again :
    (g : Snapshot) (os : List ℕ) (h : Heap) (p : ℕ)
    → Space g os h
    → type_at h p ≡ t_broken_heart
    → Forwards g os h p (gc_copy p h)
forward_again g os h p s e = record {
  at = car_at h p;
  heap = h;
  added = [];
  returns = already p h e;
  space = rw (append-nil) s;
  raw = tt;
  kept = record {
    grows = omega arith;
    hearts = λ q l f. refl;
    same = λ q l l'. refl;
    same_bytes = λ q l l'. refl;
  };
  heart = e;
  address = refl;
  work = omega arith;
}

-- Elements that are copied one after another.
pub element-Raw :
    (g : Snapshot) (h : Heap) (o s : ℕ) → IsElement g o → h.cells s ≡ g.heap.cells o → Raw g h o s
element-Raw g h o s (lt, _, nb, nc, alive, pts) same = record {
  old = lt;
  alive = alive;
  kind = inr (rw nb refl);
  points = pts;
  same_type = ap (λ (k : Cell). k.ctype) same;
  same_car = ap (λ (k : Cell). k.car) same;
  same_cdr = rw nc (ap (λ (k : Cell). k.cdr) same);
  bytes = λ e. absurd (ground arith);
}

pub elements-Laid :
    (g : Snapshot) (h : Heap) (n from s : ℕ)
    → ((i : ℕ) → i < n → IsElement g (from + i))
    → ((i : ℕ) → i < n → h.cells (s + i) ≡ g.heap.cells (from + i))
    → Laid g (Raw g h) s (cells_from from n) × (total g s (cells_from from n) ≡ s + n)
elements-Laid g h zero from s el c = (tt, omega arith)
elements-Laid g h (suc n) from s el c =
    let from0 : from + 0 ≡ from = omega arith in
    let s0 : s + 0 ≡ s = omega arith in
    let first : IsElement g from = subst (IsElement g) from0 (el 0 (omega arith)) in
    let same : h.cells s ≡ g.heap.cells from =
      ap h.cells (sym s0) ∙ c 0 (omega arith) ∙ ap g.heap.cells from0 in
    let shift : (i k : ℕ) → k + suc i ≡ k + 1 + i = λ i k. omega arith in
    let (l, t) =
      elements-Laid g h n (from + 1) (s + 1)
        (λ i lt. subst (IsElement g) (shift i from) (el (suc i) (omega arith)))
        (λ i lt.
          ap h.cells (sym (shift i s))
          ∙ c (suc i) (omega arith)
          ∙ ap g.heap.cells (shift i from)) in
    let one : size g from ≡ 1 = rw first.2 refl in
    (
      (element-Raw g h from s first same, rw one l),
      ap (λ (k : ℕ). total g (s + k) (cells_from (from + 1) n)) one ∙ t ∙ omega arith,
    )

pub elements-Placed :
    (g : Snapshot) (n from s i : ℕ)
    → ((i : ℕ) → i < n → IsElement g (from + i))
    → i < n
    → Placed g s (cells_from from n) (from + i) (s + i)
elements-Placed g zero from s i el lt = absurd (omega arith)
elements-Placed g (suc n) from s zero el lt = inl (omega arith)
elements-Placed g (suc n) from s (suc i) el lt =
    let from0 : from + 0 ≡ from = omega arith in
    let first : IsElement g from = subst (IsElement g) from0 (el 0 (omega arith)) in
    let one : size g from ≡ 1 = rw first.2 refl in
    let shift : (i k : ℕ) → k + 1 + i ≡ k + suc i = λ i k. omega arith in
    let rest =
      elements-Placed g n (from + 1) (s + 1) i
        (λ j l. subst (IsElement g) (sym (shift j from)) (el (suc j) (omega arith)))
        (omega arith) in
    inr (
      rw one (
        subst (λ k. Placed g (s + 1) (cells_from (from + 1) n) k (s + suc i)) (shift i from)
          (subst (Placed g (s + 1) (cells_from (from + 1) n) (from + 1 + i)) (shift i s) rest)))

pub length-cells_from : (from n : ℕ) → length (cells_from from n) ≡ n
length-cells_from from zero = refl
length-cells_from from (suc n) = ap suc (length-cells_from (from + 1) n)
