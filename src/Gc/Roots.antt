-- ===== src/Gc/Roots.antt =====
-- The roots of a collection in `gc_` of src/gc.c: one root, and the symbols.
use mes.Base.{
  ℕ, zero, suc, ◌+◌, ◌<◌, ◌≡◌, refl, sym, ap, ◌∙◌, subst, ◌≢◌, true, ◌||◌, List, ◌++◌, arith, ◌==◌,
  if◌then◌else◌, length, length-append,
}
use mes.Gc.{gc_copy}
use mes.Gc.Copy.{copied_cells, gc_copy-Copies}
use mes.Gc.Drive.{copy_symbols}
use mes.Gc.Fresh.{fresh-IsObject}
use mes.Gc.Later.{Moved}
use mes.Gc.Open.{Moved-hearts, Raw-frame}
use mes.Gc.Snapshot.{Snapshot, IsWellFormed, Raw, total, Laid, total-le, Laid-map, Laid-append}
use mes.Gc.Space.{Space, weight}
use mes.Gc.Step.{gc_copy-Forwards}
use mes.Heap.{Cell, Heap, Run, ok, throw, abort, out_of_fuel, type_at, car_at}
use mes.Heap.Alloc.{bytes_cells}
use mes.Heap.Const.{t_bytes, t_struct, t_vector, t_broken_heart}

-- Between two calls of `gc_copy`: the new space holds raw copies only, and `n` rounds of `gc_loop`
-- are enough for them and for what the old space still holds.
pub record Filled (g : Snapshot) (n : ℕ) (h : Heap) : Type 0 where
  pub os : List ℕ
  pub space : Space g os h
  pub raw : Laid g (Raw g h) g.start os
  pub work : length os + weight g h g.news ≡ n

-- An object of the old space.
abbrev pub IsRoot : Snapshot → ℕ → Type 0
IsRoot g p = (p < g.news) × (g.head p ≡ true)

-- The addresses of copies stay.
abbrev pub Hearts : Snapshot → Heap → Heap → Type 0
Hearts g h h' = (q : ℕ) → q < g.news → type_at h q ≡ t_broken_heart → h'.cells q ≡ h.cells q

pub Hearts-trans :
    (g : Snapshot) (h h' h'' : Heap) → Hearts g h h' → Hearts g h' h'' → Hearts g h h''
Hearts-trans g h h' h'' r s q l e = s q l (ap (λ (k : Cell). k.ctype) (r q l e) ∙ e) ∙ r q l e

-- `new` is the address of the copy of the root `old`.
abbrev pub IsCopy : Heap → ℕ → ℕ → Type 0
IsCopy h old new = Moved h true old new

pub IsCopy-Hearts :
    (g : Snapshot) (h h' : Heap) {old new : ℕ}
    → IsRoot g old
    → Hearts g h h'
    → IsCopy h old new
    → IsCopy h' old new
IsCopy-Hearts g h h' {old} {new} r keep c = Moved-hearts g.news h h' true old new keep (λ e. r.0) c

-- A run of `gc_copy` for the root `p`.
pub record Copied (g : Snapshot) (n : ℕ) (h : Heap) (p : ℕ) (run : Run Heap ℕ) : Type 0 where
  pub at : ℕ
  pub heap : Heap
  pub returns : run ≡ ok at heap
  pub filled : Filled g n heap
  pub copy : IsCopy heap p at
  pub hearts : Hearts g h heap

pub gc_copy-Copied :
    (g : Snapshot) (n : ℕ) (h : Heap) (p : ℕ)
    → IsWellFormed g
    → Filled g n h
    → IsRoot g p
    → Copied g n h p (gc_copy p h)
gc_copy-Copied g n h p wf f (lt, hd) =
    let r = gc_copy-Forwards g f.os h p wf f.space lt hd in
    let before : Laid g (Raw g r.heap) g.start f.os =
      Laid-map g (Raw g h) (Raw g r.heap) g.start f.os
        (λ o a le below i.
          Raw-frame g h r.heap o a
            (r.kept.same a (omega (arith, wf.news_start)) (omega (arith, f.space.free_at)))
            (r.kept.same_bytes a (omega (arith, wf.news_start)) (omega (arith, f.space.free_at))) i)
        f.raw in
    let behind : Laid g (Raw g r.heap) (total g g.start f.os) r.added =
      subst (λ k. Laid g (Raw g r.heap) k r.added) f.space.free_at r.raw in
    record {
      at = r.at;
      heap = r.heap;
      returns = r.returns;
      filled = record {
        os = f.os ++ r.added;
        space = r.space;
        raw = Laid-append g (Raw g r.heap) g.start f.os r.added before behind;
        work = omega (arith, f.work, r.work, length-append f.os r.added);
      };
      copy = (r.heart, r.address);
      hearts = r.kept.hearts;
    }

-- A cell that was not copied yet and is copied alone.
abbrev pub IsLone : Snapshot → Heap → ℕ → Type 0
IsLone g h p = (h.cells p ≡ g.heap.cells p) × (copied_cells g.heap p ≡ 1)

later_IsLone :
    (g : Snapshot) (h h' : Heap) (p : ℕ) → h'.cells p ≡ h.cells p → IsLone g h p → IsLone g h' p
later_IsLone g h h' p same (e, one) = (same ∙ e, one)

value_or : ℕ → Run Heap ℕ → ℕ
value_or n (ok a h) = a
value_or n (throw key x h) = n
value_or n abort = n
value_or n out_of_fuel = n

heap_or : Heap → Run Heap ℕ → Heap
heap_or h0 (ok a h) = h
heap_or h0 (throw key x h) = h
heap_or h0 abort = h0
heap_or h0 out_of_fuel = h0

-- The copy of such a cell is put at the end of the heap, and no other cell below it is changed.
lone_at_end :
    (g : Snapshot) (n : ℕ) (h : Heap) (p : ℕ)
    → IsWellFormed g
    → Filled g n h
    → IsRoot g p
    → IsLone g h p
    → (c : Copied g n h p (gc_copy p h))
    → (c.at ≡ h.free)
      × (c.heap.free ≡ h.free + 1)
      × ((q : ℕ) → q < h.free → q ≢ p → c.heap.cells q ≡ h.cells q)
unfolding value_or heap_or
lone_at_end g n h p wf f (lt, hd) (same, one) c =
    let r = gc_copy-Copies h p (fresh-IsObject g f.os h p wf f.space lt hd same) in
    let e : ok c.at c.heap ≡ ok h.free r.heap = sym c.returns ∙ r.returns in
    let heaps : c.heap ≡ r.heap = ap (heap_or h) e in
    let count : copied_cells h p ≡ copied_cells g.heap p =
      ap
        (λ (k : Cell).
          if k.ctype == t_bytes
          then bytes_cells k.car
          else 1 + (if (k.ctype == t_struct) || (k.ctype == t_vector) then k.car else 0))
        same in
    (
      ap (value_or 0) e,
      ap (λ (h : Heap). h.free) heaps ∙ r.count ∙ omega (arith, count, one),
      λ q l ne. ap (λ (h : Heap). h.cells q) heaps ∙ r.same q l ne,
    )

-- A run of `copy_symbols` for `k` cells from `s` on.
pub record Symbols (g : Snapshot) (n k s : ℕ) (h : Heap) (run : Run Heap (Unit {0})) : Type 0 where
  pub heap : Heap
  pub returns : run ≡ ok tt heap
  pub filled : Filled g n heap
  pub copies : (i : ℕ) → i < k → IsCopy heap (s + i) (car_at heap (s + i))
  pub hearts : Hearts g h heap
  pub in_place :
      ((i : ℕ) → i < k → IsLone g h (s + i)) → (i : ℕ) → i < k → car_at heap (s + i) ≡ h.free + i

pub copy_symbols-Symbols :
    (k : ℕ) (g : Snapshot) (n s : ℕ) (h : Heap)
    → IsWellFormed g
    → Filled g n h
    → ((i : ℕ) → i < k → IsRoot g (s + i))
    → Symbols g n k s h (copy_symbols k s h)
unfolding copy_symbols
copy_symbols-Symbols zero g n s h wf f roots = record {
  heap = h;
  returns = refl;
  filled = f;
  copies = λ i lt. absurd (omega arith);
  hearts = λ q l e. refl;
  in_place = λ lone i lt. absurd (omega arith);
}
copy_symbols-Symbols (suc k) g n s h wf f roots =
    let s0 : s + 0 ≡ s = omega arith in
    let shift : (i : ℕ) → s + 1 + i ≡ s + suc i = λ i. omega arith in
    let first : IsRoot g s = subst (IsRoot g) s0 (roots 0 (omega arith)) in
    let c = gc_copy-Copied g n h s wf f first in
    let r =
      copy_symbols-Symbols k g n (s + 1) c.heap wf c.filled
        (λ i lt. subst (IsRoot g) (sym (shift i)) (roots (suc i) (omega arith))) in
    let here : IsCopy r.heap s (car_at r.heap s) =
      ((IsCopy-Hearts g c.heap r.heap first r.hearts c.copy).0, refl) in
    record {
      heap = r.heap;
      returns = rw c.returns r.returns;
      filled = r.filled;
      copies = after_first k s r.heap here r.copies;
      hearts = Hearts-trans g h c.heap r.heap c.hearts r.hearts;
      in_place = λ lone.
          let l = subst (IsLone g h) s0 (lone 0 (omega arith)) in
          let (at, free, same) = lone_at_end g n h s wf f first l c in
          let below : (i : ℕ) → i < k → s + 1 + i < h.free = λ i lt. omega (
            arith,
            (roots (suc i) (omega arith)).0,
            wf.news_start,
            f.space.free_at,
            total-le g g.start f.os,
          ) in
          let others = r.in_place (λ i lt.
            later_IsLone g h c.heap (s + 1 + i) (same (s + 1 + i) (below i lt) (omega arith))
              (subst (IsLone g h) (sym (shift i)) (lone (suc i) (omega arith)))) in
          places_after k s h.free r.heap
            (ap (λ (k : Cell). k.car) (r.hearts s first.0 c.copy.0) ∙ c.copy.1 ∙ at)
            (λ i lt. others i lt ∙ ap (λ (k : ℕ). k + i) free);
    }
  where
    after_first :
        (k s : ℕ) (h : Heap)
        → IsCopy h s (car_at h s)
        → ((i : ℕ) → i < k → IsCopy h (s + 1 + i) (car_at h (s + 1 + i)))
        → (i : ℕ) → i < suc k
        → IsCopy h (s + i) (car_at h (s + i))
    after_first k s h here rest zero lt =
        let e : s ≡ s + 0 = omega arith in subst (λ q. IsCopy h q (car_at h q)) e here
    after_first k s h here rest (suc i) lt =
        let e : s + 1 + i ≡ s + suc i = omega arith in
        subst (λ q. IsCopy h q (car_at h q)) e (rest i (omega arith))

    places_after :
        (k s free : ℕ) (h : Heap)
        → car_at h s ≡ free
        → ((i : ℕ) → i < k → car_at h (s + 1 + i) ≡ free + 1 + i)
        → (i : ℕ) → i < suc k
        → car_at h (s + i) ≡ free + i
    places_after k s free h here rest zero lt =
        let e : s + 0 ≡ s = omega arith in ap (car_at h) e ∙ here ∙ omega arith
    places_after k s free h here rest (suc i) lt =
        let e : s + suc i ≡ s + 1 + i = omega arith in
        ap (car_at h) e ∙ rest i (omega arith) ∙ omega arith
