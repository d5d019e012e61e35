-- ===== src/Gc/Space.antt =====
-- The state of a collection between two calls of `gc_copy`, and what it counts down.
use mes.Base.{
  ℕ, zero, suc, ◌+◌, ◌≤◌, ◌<◌, ◌≡◌, refl, ap, ◌≢◌, ◌⊎◌, inl, inr, true, List, arith, ◌==◌,
  if◌then◌else◌, ==_iff, Bool-cases,
}
use mes.Gc.Copy.{element_count}
use mes.Gc.Snapshot.{Snapshot, total, Placed}
use mes.Heap.{Cell, Heap, type_at, car_at, cdr_at}
use mes.Heap.Const.{t_char, t_broken_heart}

-- The copy of `p` is at `a`, and its elements follow it.
abbrev pub Home : Snapshot → List ℕ → ℕ → ℕ → Type 0
Home g os p a =
    Placed g g.start os p a
    × ((i : ℕ) → i < element_count g.heap p → Placed g g.start os (cdr_at g.heap p + i) (a + 1 + i))

abbrev pub IsForwarded : Snapshot → List ℕ → Heap → ℕ → Type 0
IsForwarded g os h p = (type_at h p ≡ t_broken_heart) × (g.head p ≡ true) × Home g os p (car_at h p)

-- The objects of the new space are copies of `os`, one after another up to `g_free`; a cell of the
-- old space is as it was, or says where its copy is. Between the spaces stand cells of no object.
pub record Space (g : Snapshot) (os : List ℕ) (h : Heap) : Type 0 where
  pub free_at : h.free ≡ total g g.start os
  pub old : (p : ℕ) → p < g.news → (h.cells p ≡ g.heap.cells p) ⊎ IsForwarded g os h p
  pub old_bytes : (p : ℕ) → p < g.news → h.bytes p ≡ g.heap.bytes p
  pub front : (q : ℕ) → g.news < q → q < g.start → type_at h q ≡ t_char
  pub base_at : h.base ≡ g.heap.base

-- What stays: the addresses of copies, and the new space.
pub record Kept (g : Snapshot) (h h' : Heap) : Type 0 where
  pub grows : h.free ≤ h'.free
  pub hearts : (p : ℕ) → p < g.news → type_at h p ≡ t_broken_heart → h'.cells p ≡ h.cells p
  pub same : (p : ℕ) → g.news ≤ p → p < h.free → h'.cells p ≡ h.cells p
  pub same_bytes : (p : ℕ) → g.news ≤ p → p < h.free → h'.bytes p ≡ h.bytes p

-- The objects that the cell `p` would still bring into the new space.
abbrev pub to_copy : Snapshot → Heap → ℕ → ℕ
to_copy g h p =
    if type_at h p == t_broken_heart then 0 else if g.head p then 1 + element_count g.heap p else 0

-- The sum over the cells below `n`.
abbrev pub weight : Snapshot → Heap → ℕ → ℕ
weight g h zero = 0
weight g h (suc n) = weight g h n + to_copy g h n

to_copy-same :
    (g : Snapshot) (h h' : Heap) (p : ℕ) → h'.cells p ≡ h.cells p → to_copy g h' p ≡ to_copy g h p
to_copy-same g h h' p e =
    ap
      (λ (k : Cell).
        if k.ctype == t_broken_heart then 0 else if g.head p then 1 + element_count g.heap p else 0)
      e

pub weight-same :
    (g : Snapshot) (h h' : Heap) (n : ℕ)
    → ((q : ℕ) → q < n → h'.cells q ≡ h.cells q)
    → weight g h' n ≡ weight g h n
weight-same g h h' zero same = refl
weight-same g h h' (suc n) same =
    let ih = weight-same g h h' n (λ q lt. same q (omega arith)) in
    omega (arith, ih, to_copy-same g h h' n (same n (omega arith)))

-- When one object is copied, its part of the sum goes.
pub weight-forward :
    (g : Snapshot) (h h' : Heap) (p n : ℕ)
    → p < n
    → g.head p ≡ true
    → type_at h p ≢ t_broken_heart
    → type_at h' p ≡ t_broken_heart
    → ((q : ℕ) → q < n → q ≢ p → h'.cells q ≡ h.cells q)
    → weight g h n ≡ weight g h' n + (1 + element_count g.heap p)
weight-forward g h h' p zero lt hd alive heart same = absurd (omega arith)
weight-forward g h h' p (suc n) lt hd alive heart same = elim (Bool-cases (n == p)) [
  | inl y ↦
      let e : n ≡ p = (==_iff _ _).0 y in
      let before : to_copy g h p ≡ 1 + element_count g.heap p = ground arith in
      let after : to_copy g h' p ≡ 0 = ground arith in
      let rest = weight-same g h h' n (λ q l. same q (omega arith) (omega arith)) in
      omega (arith, ap (to_copy g h) e, ap (to_copy g h') e, before, after, rest)
  | inr z ↦
      let ih =
        weight-forward g h h' p n (ground arith) hd alive heart (λ q l. same q (omega arith)) in
      let here = to_copy-same g h h' n (same n (omega arith) (ground arith)) in
      omega (arith, ih, here)
]
