-- ===== src/Gc/Step.antt =====
-- `gc_copy` of any object of the old space, in a collection.
use mes.Base.{
  ℕ, ◌≤◌, ◌<◌, ◌≡◌, sym, ap, ◌∙◌, subst, ◌⊎◌, inl, inr, true, List, ◌++◌, arith, ◌==◌, ==_iff,
  Bool-cases,
}
use mes.Gc.{gc_copy}
use mes.Gc.Copy.{element_count, Copies, gc_copy-Copies}
use mes.Gc.Forward.{copied_objects, Forwards, forward_again, length-cells_from}
use mes.Gc.Fresh.{fresh-IsObject, fresh-Laid, Home-append, fresh-Home}
use mes.Gc.Snapshot.{Snapshot, IsWellFormed, total, total-append, total-le}
use mes.Gc.Space.{Home, IsForwarded, Space, weight-forward}
use mes.Heap.{Cell, Heap, type_at, car_at, cdr_at}

pub cells_IsForwarded :
    (g : Snapshot) (os : List ℕ) (h h' : Heap) (q : ℕ)
    → h'.cells q ≡ h.cells q
    → IsForwarded g os h q
    → IsForwarded g os h' q
cells_IsForwarded g os h h' q same (t, hd, home) = (
  ap (λ (k : Cell). k.ctype) same ∙ t,
  hd,
  subst (Home g os q) (sym (ap (λ (k : Cell). k.car) same)) home,
)

fresh-Space :
    (g : Snapshot) (os : List ℕ) (h : Heap) (p : ℕ)
    → IsWellFormed g
    → Space g os h
    → p < g.news
    → g.head p ≡ true
    → (r : Copies h p (gc_copy p h)) → r.heap.free ≡ total g h.free (copied_objects g p)
    → Space g (os ++ copied_objects g p) r.heap
fresh-Space g os h p wf s lt hd r e = record {
  free_at =
      e
      ∙ ap (λ (k : ℕ). total g k (copied_objects g p)) s.free_at
      ∙ sym (total-append g g.start os (copied_objects g p));
  old = λ q l. elim (Bool-cases (q == p)) [
    | inl y ↦
        inr (subst (IsForwarded g (os ++ copied_objects g p) r.heap) (sym ((==_iff q p).0 y)) here)
    | inr n ↦ other q l (r.same q (omega (arith, below)) (ground arith)) (s.old q l)
  ];
  old_bytes = λ q l. r.same_bytes q (omega (arith, below)) ∙ s.old_bytes q l;
  front = λ q l l'.
      ap (λ (k : Cell). k.ctype) (r.same q (omega (arith, bound)) (omega arith)) ∙ s.front q l l';
  base_at = r.same_base ∙ s.base_at;
}
  where
    below : g.news ≤ h.free
    below = omega (arith, wf.news_start, s.free_at, total-le g g.start os)

    bound : g.start ≤ h.free
    bound = omega (arith, s.free_at, total-le g g.start os)

    here : IsForwarded g (os ++ copied_objects g p) r.heap p
    here = (
      ap (λ (k : Cell). k.ctype) r.heart,
      hd,
      subst (Home g (os ++ copied_objects g p) p) (sym (ap (λ (k : Cell). k.car) r.heart))
          (fresh-Home g os h p wf s lt hd),
    )

    other :
        (q : ℕ)
        → q < g.news
        → r.heap.cells q ≡ h.cells q
        → (h.cells q ≡ g.heap.cells q) ⊎ IsForwarded g os h q
        → (r.heap.cells q ≡ g.heap.cells q) ⊎ IsForwarded g (os ++ copied_objects g p) r.heap q
    other q l same (inl e) = inl (same ∙ e)
    other q l same (inr (t, hq, home)) = inr (
        cells_IsForwarded g (os ++ copied_objects g p) h r.heap q same
          (t, hq, Home-append g os (copied_objects g p) q (car_at h q) home))

forward_fresh :
    (g : Snapshot) (os : List ℕ) (h : Heap) (p : ℕ)
    → IsWellFormed g
    → Space g os h
    → p < g.news
    → g.head p ≡ true
    → h.cells p ≡ g.heap.cells p
    → Forwards g os h p (gc_copy p h)
forward_fresh g os h p wf s lt hd same =
    let o = fresh-IsObject g os h p wf s lt hd same in
    let r = gc_copy-Copies h p o in
    let (l, e) = fresh-Laid g os h p wf s lt hd same r in
    let below : g.news ≤ h.free = omega (arith, wf.news_start, s.free_at, total-le g g.start os) in
    let heart = ap (λ (k : Cell). k.ctype) r.heart in
    record {
      at = h.free;
      heap = r.heap;
      added = copied_objects g p;
      returns = r.returns;
      space = fresh-Space g os h p wf s lt hd r e;
      raw = l;
      kept = record {
        grows = omega (arith, r.count);
        hearts = λ q m f. r.same q (omega arith) (λ eq. o.no_heart (ap (type_at h) (sym eq) ∙ f));
        same = λ q m m'. r.same q m' (omega arith);
        same_bytes = λ q m m'. r.same_bytes q m';
      };
      heart = heart;
      address = ap (λ (k : Cell). k.car) r.heart;
      work =
          let drop =
            weight-forward g h r.heap p g.news lt hd o.no_heart heart
              (λ q m ne. r.same q (omega arith) ne) in
          let len = length-cells_from (cdr_at g.heap p) (element_count g.heap p) in
          omega (arith, drop, len);
    }

-- In a collection `gc_copy` of an object of the old space returns; the object is forwarded to the
-- address that it returns, and the new space grows by copies. Each copy that is added takes one
-- off the work that the old space still holds.
pub gc_copy-Forwards :
    (g : Snapshot) (os : List ℕ) (h : Heap) (p : ℕ)
    → IsWellFormed g
    → Space g os h
    → p < g.news
    → g.head p ≡ true
    → Forwards g os h p (gc_copy p h)
gc_copy-Forwards g os h p wf s lt hd = elim (s.old p lt) [
  | inl same ↦ forward_fresh g os h p wf s lt hd same
  | inr f ↦ forward_again g os h p s f.0
]
