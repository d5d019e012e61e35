-- ===== src/Gc/Collect.antt =====
-- The whole of `gc_loop`: it ends, and the new space is a copy of what was reached.
use mathlib.Core.List.{append-nil}
use mes.Base.{
  ℕ, zero, suc, ◌+◌, ◌≤◌, ◌<◌, ◌≡◌, refl, sym, ap, ◌∙◌, subst, inl, inr, true, false, List, [], ◌∷◌,
  ◌++◌, arith, ltb, length, length-append,
}
use mes.Gc.{scan_loop}
use mes.Gc.Copy.{element_count}
use mes.Gc.Loop.{Collecting, work_left, scan_cell-Advances}
use mes.Gc.Open.{open_bounds}
use mes.Gc.Snapshot.{
  Snapshot, IsWellFormed, size, Raw, Image, total, Laid, Placed, size-pos, total-le, Placed-Laid,
}
use mes.Gc.Space.{Home, Space, weight}
use mes.Heap.{Cell, Heap, Run, ok, type_at, car_at, cdr_at}
use mes.Heap.Const.{t_broken_heart}

-- A run of `gc_loop` up to `gc_flip`, with at most `most` copies.
pub record Scans (g : Snapshot) (most : ℕ) (h : Heap) (run : Run Heap (Unit {0})) : Type 0 where
  pub heap : Heap
  pub os : List ℕ
  pub returns : run ≡ ok tt heap
  pub collecting : Collecting g os [] heap
  pub hearts : (q : ℕ) → q < g.news → type_at h q ≡ t_broken_heart → heap.cells q ≡ h.cells q
  pub count : length os ≤ most

pub scan_loop-Scans :
    (k : ℕ) (g : Snapshot) (ds ps : List ℕ) (h : Heap)
    → IsWellFormed g
    → Collecting g ds ps h
    → work_left g ps h < k
    → Scans g (length ds + work_left g ps h) h (scan_loop k (total g g.start ds) h)
unfolding scan_loop
scan_loop-Scans zero g ds ps h wf c lt = absurd (omega arith)
scan_loop-Scans (suc k) g ds [] h wf c lt =
    let end : h.free ≡ total g g.start ds =
      c.space.free_at ∙ ap (total g g.start) (append-nil ds) in
    let stop : ltb (total g g.start ds) h.free ≡ false = ground arith in
    record {
      heap = h;
      os = ds;
      returns = rw stop refl;
      collecting = c;
      hearts = λ q l e. refl;
      count = omega arith;
    }
scan_loop-Scans (suc k) g ds (o ∷ ps) h wf c lt =
    let a = scan_cell-Advances g ds o ps h wf c in
    let (le, below, e) = open_bounds g ds o ps h wf c.space in
    let go : ltb (total g g.start ds) h.free ≡ true = ground arith in
    let rest =
      scan_loop-Scans k g (ds ++ o ∷ []) (ps ++ a.added) a.heap wf a.collecting
        (omega (arith, a.work, length-append ps a.added)) in
    record {
      heap = rest.heap;
      os = rest.os;
      returns = rw (go, a.returns) rest.returns;
      collecting = rest.collecting;
      hearts = λ q l e.
          rest.hearts q l (ap (λ (c : Cell). c.ctype) (a.hearts q l e) ∙ e) ∙ a.hearts q l e;
      count =
          omega (arith, rest.count, a.work, length-append ps a.added, length-append ds (o ∷ []));
    }

pub Placed-below :
    (g : Snapshot) (s : ℕ) (os : List ℕ) (o a : ℕ)
    → Placed g s os o a
    → (s ≤ a) × (a < total g s os)
Placed-below g s [] o a p = elim p [ ]
Placed-below g s (x ∷ xs) o a (inl (e, f)) =
    omega (arith, total-le g (s + size g x) xs, size-pos g x)
Placed-below g s (x ∷ xs) o a (inr p) = omega (arith, Placed-below g (s + size g x) xs o a p)

-- No two objects have the same address.
pub Placed-injective :
    (g : Snapshot) (s : ℕ) (os : List ℕ) (o o' a : ℕ)
    → Placed g s os o a
    → Placed g s os o' a
    → o ≡ o'
Placed-injective g s [] o o' a p q = elim p [ ]
Placed-injective g s (x ∷ xs) o o' a (inl (e, f)) (inl (e', f')) = e ∙ sym e'
Placed-injective g s (x ∷ xs) o o' a (inl (e, f)) (inr q) =
    absurd (omega (arith, Placed-below g (s + size g x) xs o' a q, size-pos g x))
Placed-injective g s (x ∷ xs) o o' a (inr p) (inl (e', f')) =
    absurd (omega (arith, Placed-below g (s + size g x) xs o a p, size-pos g x))
Placed-injective g s (x ∷ xs) o o' a (inr p) (inr q) =
    Placed-injective g (s + size g x) xs o o' a p q

-- In `heap` the objects that are broken hearts map what was reached onto the new space, one to
-- one: each address is that of a copy, whose pointers are the addresses of the copies of the
-- targets, and the elements of a struct or a vector are copied behind it.
pub record Collected (g : Snapshot) (h heap : Heap) : Type 0 where
  pub kept : (q : ℕ) → q < g.news → type_at h q ≡ t_broken_heart → heap.cells q ≡ h.cells q
  pub image :
      (q : ℕ)
      → q < g.news
      → g.head q ≡ true
      → type_at heap q ≡ t_broken_heart
      → Image g heap q (car_at heap q)
  pub elements :
      (q i : ℕ)
      → q < g.news
      → g.head q ≡ true
      → type_at heap q ≡ t_broken_heart
      → i < element_count g.heap q
      → Image g heap (cdr_at g.heap q + i) (car_at heap q + 1 + i)
  pub distinct :
      (q r : ℕ)
      → q < g.news
      → r < g.news
      → g.head q ≡ true
      → g.head r ≡ true
      → type_at heap q ≡ t_broken_heart
      → type_at heap r ≡ t_broken_heart
      → car_at heap q ≡ car_at heap r
      → q ≡ r
  pub inside :
      (q : ℕ)
      → q < g.news
      → g.head q ≡ true
      → type_at heap q ≡ t_broken_heart
      → (g.start ≤ car_at heap q) × (car_at heap q < heap.free)

pub Collecting-Home :
    (g : Snapshot) (os : List ℕ) (heap : Heap)
    → IsWellFormed g
    → Collecting g os [] heap
    → (q : ℕ) → q < g.news
    → g.head q ≡ true
    → type_at heap q ≡ t_broken_heart
    → Home g os q (car_at heap q)
Collecting-Home g os heap wf c q l hd e = elim (c.space.old q l) [
  | inl same ↦ absurd (wf.no_heart q l hd (sym (ap (λ (k : Cell). k.ctype) same) ∙ e))
  | inr f ↦ subst (λ l. Home g l q (car_at heap q)) (append-nil os) f.2
]

pub Collecting-Collected :
    (g : Snapshot) (os : List ℕ) (h heap : Heap)
    → IsWellFormed g
    → Collecting g os [] heap
    → ((q : ℕ) → q < g.news → type_at h q ≡ t_broken_heart → heap.cells q ≡ h.cells q)
    → Collected g h heap
Collecting-Collected g os h heap wf c kept = record {
  kept = kept;
  image = λ q l hd e.
      Placed-Laid g (Image g heap) g.start os q (car_at heap q) c.done
        (Collecting-Home g os heap wf c q l hd e).0;
  elements = λ q i l hd e m.
      Placed-Laid g (Image g heap) g.start os _ _ c.done
        ((Collecting-Home g os heap wf c q l hd e).1 i m);
  distinct = λ q r l l' hd hd' e e' same.
      Placed-injective g g.start os q r (car_at heap r)
        (subst (Placed g g.start os q) same (Collecting-Home g os heap wf c q l hd e).0)
        (Collecting-Home g os heap wf c r l' hd' e').0;
  inside = λ q l hd e. omega (
    arith,
    Placed-below g g.start os q (car_at heap q) (Collecting-Home g os heap wf c q l hd e).0,
    c.space.free_at,
    ap (total g g.start) (append-nil os),
  );
}

-- `gc_loop` of a new space that holds raw copies only, laid out from `start` on, of a well-formed
-- old space, ends when it is given more rounds than there are raw copies, and objects and elements
-- that the old space still holds. Then the new space is a copy of the old one as far as it was
-- reached: each address that was given before stays; each object of the old space that is a broken
-- heart now has a copy of its own, whose pointers are the addresses of the copies of their targets,
-- with the copies of its elements behind it. Well formed is an old space in which the pointers of
-- objects and elements lead to objects, no object or element is a broken heart at first, and
-- elements are no objects of their own, neither bytes nor structs nor vectors.
pub scan_loop-Collected :
    (g : Snapshot) (ps : List ℕ) (h : Heap) (k : ℕ)
    → IsWellFormed g
    → Space g ps h
    → Laid g (Raw g h) g.start ps
    → length ps + weight g h g.news < k
    → (heap : Heap) × (scan_loop k g.start h ≡ ok tt heap) × Collected g h heap
scan_loop-Collected g ps h k wf s raw lt =
    let c : Collecting g [] ps h = record { space = s; done = tt; pending = raw } in
    let r = scan_loop-Scans k g [] ps h wf c lt in
    (r.heap, r.returns, Collecting-Collected g r.os h r.heap wf r.collecting r.hearts)
