-- ===== src/Gc/Relocate.antt =====
-- The two parts of a round of `gc_loop`: each replaces a pointer by the address of a copy.
use mathlib.Core.List.{append-nil, append_assoc}
use mes.Base.{
  ℕ, ◌+◌, ◌<◌, ◌≡◌, refl, ap, ◌∙◌, subst, ◌⊎◌, inl, inr, Bool, true, false, List, [], ◌∷◌, ◌++◌,
  arith, ◌==◌, Bool-cases, length,
}
use mes.Gc.{points_car, points_cdr, relocate_car, relocate_cdr}
use mes.Gc.Forward.{Forwards}
use mes.Gc.Later.{Moved}
use mes.Gc.Open.{Raw-frame, Open, open_bounds, Open-Touched}
use mes.Gc.Snapshot.{Snapshot, IsWellFormed, Raw, total, total-le, Laid-map}
use mes.Gc.Space.{IsForwarded, Space, weight, weight-same}
use mes.Gc.Step.{cells_IsForwarded, gc_copy-Forwards}
use mes.Heap.{Cell, Heap, Run, ok, type_at, car_at, cdr_at, cell, write, write_car, write_cdr}
use mes.Heap.Const.{t_broken_heart}

-- A run of a part, on a word of the cell that is worked on.
pub record Relocates (g : Snapshot) (ds : List ℕ) (o : ℕ) (ps : List ℕ) (h : Heap) (b : Bool)
    (word other : Heap → ℕ) (run : Run Heap (Unit {0})) : Type 0 where
  pub heap : Heap
  pub added : List ℕ
  pub returns : run ≡ ok tt heap
  pub opened : Open g ds o (ps ++ added) heap
  pub same_type : type_at heap (total g g.start ds) ≡ type_at h (total g g.start ds)
  pub same_other : other heap ≡ other h
  pub moved : Moved heap b (word h) (word heap)
  pub same_bytes : heap.bytes (total g g.start ds) ≡ h.bytes (total g g.start ds)
  pub hearts : (q : ℕ) → q < g.news → type_at h q ≡ t_broken_heart → heap.cells q ≡ h.cells q
  pub work : length added + weight g heap g.news ≡ weight g h g.news

-- The state is good after the copy and the write of the cell.
written :
    (g : Snapshot) (ds : List ℕ) (o : ℕ) (ps : List ℕ) (h : Heap)
    → IsWellFormed g
    → Open g ds o ps h
    → {p : ℕ} {run : Run Heap ℕ} (f : Forwards g (ds ++ o ∷ ps) h p run) (c : Cell)
    → Open g ds o (ps ++ f.added) (write f.heap (total g g.start ds) c)
written g ds o ps h wf w f c =
    let scan = total g g.start ds in
    let m = write f.heap scan c in
    let (le, lt, e) = open_bounds g ds o ps h wf w.space in
    let list : (ds ++ o ∷ ps) ++ f.added ≡ ds ++ o ∷ (ps ++ f.added) =
      append_assoc ds (o ∷ ps) f.added in
    let s : Space g (ds ++ o ∷ (ps ++ f.added)) f.heap =
      subst (λ l. Space g l f.heap) list f.space in
    Open-Touched g ds o ps f.added h m wf w
      record {
        hearts =
            λ q l y. let ne : (scan == q) ≡ false = ground arith in rw ne (f.kept.hearts q l y);
        same =
            λ q l l' ap_. let ne : (scan == q) ≡ false = ground arith in rw ne (f.kept.same q l l');
        same_bytes = λ q l l'. f.kept.same_bytes q l l';
      }
      record {
        free_at = s.free_at;
        old = λ q l. let ne : (scan == q) ≡ false = ground arith in old_at q ne (s.old q l);
        old_bytes = s.old_bytes;
        front = λ q l l'.
            let ne : (scan == q) ≡ false = ground (arith, total-le g g.start ds) in
            rw (type_at, ne) (s.front q l l');
        base_at = s.base_at;
      }
      (Laid-map g (Raw g f.heap) (Raw g m) h.free f.added
        (λ o' a b b' r.
          let ne : (scan == a) ≡ false = ground arith in
          Raw-frame g f.heap m o' a (rw ne refl) refl r)
        f.raw)
  where
    old_at :
        (q : ℕ)
        → (total g g.start ds == q) ≡ false
        → (f.heap.cells q ≡ g.heap.cells q) ⊎ IsForwarded g (ds ++ o ∷ (ps ++ f.added)) f.heap q
        → ((write f.heap (total g g.start ds) c).cells q ≡ g.heap.cells q)
          ⊎ IsForwarded g (ds ++ o ∷ (ps ++ f.added)) (write f.heap (total g g.start ds) c) q
    old_at q ne (inl e) = inl (rw ne e)
    old_at q ne (inr t) = inr (
        cells_IsForwarded g (ds ++ o ∷ (ps ++ f.added)) f.heap (write f.heap (total g g.start ds) c)
          q (rw ne refl) t)

pub relocate_car-Relocates :
    (g : Snapshot) (ds : List ℕ) (o : ℕ) (ps : List ℕ) (h : Heap)
    → IsWellFormed g
    → Open g ds o ps h
    → (points_car (type_at h (total g g.start ds)) ≡ true
        → (car_at h (total g g.start ds) < g.news)
          × (g.head (car_at h (total g g.start ds)) ≡ true))
    → Relocates g ds o ps h
        (points_car (type_at h (total g g.start ds)))
        (λ h. car_at h (total g g.start ds))
        (λ h. cdr_at h (total g g.start ds))
        (relocate_car (total g g.start ds) h)
unfolding relocate_car
relocate_car-Relocates g ds o ps h wf w ptr =
    let scan = total g g.start ds in
    elim (Bool-cases (points_car (type_at h (total g g.start ds)))) [
      | inl y ↦
          let f =
            gc_copy-Forwards g (ds ++ o ∷ ps) h (car_at h scan) wf w.space (ptr y).0 (ptr y).1 in
          let m = write_car f.heap scan f.at in
          let (le, lt, _) = open_bounds g ds o ps h wf w.space in
          let scan_same : f.heap.cells scan ≡ h.cells scan = f.kept.same scan le lt in
          let e1 = ap (λ (k : Cell). k.ctype) scan_same in
          let e3 = ap (λ (k : Cell). k.cdr) scan_same in
          let apart : (scan == car_at h scan) ≡ false = ground (arith, (ptr y).0) in
          rw y record {
            heap = m;
            added = f.added;
            returns = rw f.returns refl;
            opened = written g ds o ps h wf w f (cell _ _ _);
            same_type = ground arith;
            same_other = ground arith;
            moved = (ground (arith, f.heart), ground (arith, f.address));
            same_bytes = f.kept.same_bytes scan le lt;
            hearts = λ q l e.
                let ne : (scan == q) ≡ false = ground arith in rw (ne) (f.kept.hearts q l e);
            work =
                ap (λ (k : ℕ). length f.added + k)
                  (weight-same g f.heap m g.news (λ q l. ground arith))
                ∙ f.work;
          }
      | inr n ↦ rw n record {
        heap = h;
        added = [];
        returns = refl;
        opened = rw append-nil w;
        same_type = refl;
        same_other = refl;
        moved = refl;
        same_bytes = refl;
        hearts = λ q l e. refl;
        work = omega arith;
      }
    ]

pub relocate_cdr-Relocates :
    (t : ℕ) (g : Snapshot) (ds : List ℕ) (o : ℕ) (ps : List ℕ) (h : Heap)
    → IsWellFormed g
    → Open g ds o ps h
    → (points_cdr (t) ≡ true
        → (cdr_at h (total g g.start ds) < g.news)
          × (g.head (cdr_at h (total g g.start ds)) ≡ true))
    → Relocates g ds o ps h
        (points_cdr (t))
        (λ h. cdr_at h (total g g.start ds))
        (λ h. car_at h (total g g.start ds))
        (relocate_cdr t (total g g.start ds) h)
unfolding relocate_cdr
relocate_cdr-Relocates t g ds o ps h wf w ptr =
    let scan = total g g.start ds in
    elim (Bool-cases (points_cdr (t))) [
      | inl y ↦
          let f =
            gc_copy-Forwards g (ds ++ o ∷ ps) h (cdr_at h scan) wf w.space (ptr y).0 (ptr y).1 in
          let m = write_cdr f.heap scan f.at in
          let (le, lt, _) = open_bounds g ds o ps h wf w.space in
          let scan_same : f.heap.cells scan ≡ h.cells scan = f.kept.same scan le lt in
          let e1 = ap (λ (k : Cell). k.ctype) scan_same in
          let e3 = ap (λ (k : Cell). k.car) scan_same in
          let apart : (scan == cdr_at h scan) ≡ false = ground (arith, (ptr y).0) in
          rw y record {
            heap = m;
            added = f.added;
            returns = rw f.returns refl;
            opened = written g ds o ps h wf w f (cell _ _ _);
            same_type = ground arith;
            same_other = ground arith;
            moved = (ground (arith, f.heart), ground (arith, f.address));
            same_bytes = f.kept.same_bytes scan le lt;
            hearts = λ q l e.
                let ne : (scan == q) ≡ false = ground arith in rw (ne) (f.kept.hearts q l e);
            work =
                ap (λ (k : ℕ). length f.added + k)
                  (weight-same g f.heap m g.news (λ q l. ground arith))
                ∙ f.work;
          }
      | inr n ↦ rw n record {
        heap = h;
        added = [];
        returns = refl;
        opened = rw append-nil w;
        same_type = refl;
        same_other = refl;
        moved = refl;
        same_bytes = refl;
        hearts = λ q l e. refl;
        work = omega arith;
      }
    ]
