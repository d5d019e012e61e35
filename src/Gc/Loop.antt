-- ===== src/Gc/Loop.antt =====
-- `gc_loop`: the whole scan of the new space.
use mathlib.Core.List.{append_assoc}
use mes.Base.{
  ℕ, ◌+◌, ◌<◌, ◌≡◌, refl, sym, ap, ap₂, ◌∙◌, subst, Bool, true, false, List, [], ◌∷◌, ◌++◌, arith,
  ◌==◌, if◌then◌else◌, length, length-append,
}
use mes.Gc.{points_car, points_cdr, object_cells, scan_cell}
use mes.Gc.Later.{Moved}
use mes.Gc.Open.{Moved-hearts, cdr_pointer, Open}
use mes.Gc.Relocate.{Relocates, relocate_car-Relocates, relocate_cdr-Relocates}
use mes.Gc.Scan.{same_size}
use mes.Gc.Snapshot.{
  Snapshot, IsWellFormed, size, Raw, Image, total, Laid, total-append, Laid-append,
}
use mes.Gc.Space.{Space, weight}
use mes.Heap.{Cell, Heap, Run, ok, type_at, car_at, cdr_at}
use mes.Heap.Alloc.{bytes_cells}
use mes.Heap.Const.{t_bytes, t_broken_heart}

-- Between two rounds: the copies of `ds` are done, those of `ps` are raw.
pub record Collecting (g : Snapshot) (ds ps : List ℕ) (h : Heap) : Type 0 where
  pub space : Space g (ds ++ ps) h
  pub done : Laid g (Image g h) g.start ds
  pub pending : Laid g (Raw g h) (total g g.start ds) ps

-- What is left to do: the raw copies, and what the old space will still add.
abbrev pub work_left : Snapshot → List ℕ → Heap → ℕ
work_left g ps h = length ps + weight g h g.news

-- A round that takes the copy of `o` from the raw ones to the done ones.
pub record Advances (g : Snapshot) (ds : List ℕ) (o : ℕ) (ps : List ℕ) (h : Heap) (run : Run Heap ℕ)
    : Type 0 where
  pub heap : Heap
  pub added : List ℕ
  pub returns : run ≡ ok (total g g.start (ds ++ o ∷ [])) heap
  pub collecting : Collecting g (ds ++ o ∷ []) (ps ++ added) heap
  pub hearts : (q : ℕ) → q < g.news → type_at h q ≡ t_broken_heart → heap.cells q ≡ h.cells q
  pub work : length added + weight g heap g.news ≡ weight g h g.news

Moved-same :
    (h : Heap) {b b' : Bool} {o o' n n' : ℕ}
    → b ≡ b'
    → o ≡ o'
    → n ≡ n'
    → Moved h b o n
    → Moved h b' o' n'
Moved-same h {b} {b'} {o} {o'} {n} {n'} e f k m =
    subst (λ x. Moved h x o' n') e (subst (λ x. Moved h b x n') f (subst (Moved h b o) k m))

-- What stands at `scan` when both parts of the round have run.
round-Image :
    (g : Snapshot) (ds : List ℕ) (o : ℕ) (ps : List ℕ) (h : Heap)
    → Raw g h o (total g g.start ds)
    → {run run' : Run Heap (Unit {0})}
      (a : Relocates g ds o ps h
        (points_car (type_at h (total g g.start ds)))
        (λ h. car_at h (total g g.start ds))
        (λ h. cdr_at h (total g g.start ds))
        run)
      (d : Relocates g ds o
        (ps ++ a.added)
        a.heap
        (points_cdr (type_at h (total g g.start ds)))
        (λ h. cdr_at h (total g g.start ds))
        (λ h. car_at h (total g g.start ds))
        run')
    → Image g d.heap o (total g g.start ds)
round-Image g ds o ps h raw a d =
    let scan = total g g.start ds in
    let t : type_at h scan ≡ type_at g.heap o = raw.same_type in
    record {
      old = raw.old;
      alive = raw.alive;
      kind = raw.kind;
      points = raw.points;
      same_type = d.same_type ∙ a.same_type ∙ t;
      moved_car = Moved-same d.heap (ap points_car t) raw.same_car (sym d.same_other) (
          Moved-hearts g.news a.heap d.heap _ _ _ d.hearts
            (λ y. omega (arith, raw.same_car, (raw.points.0 (ap points_car (sym t) ∙ y)).0))
            a.moved);
      moved_cdr = Moved-same d.heap (ap points_cdr t) (a.same_other ∙ raw.same_cdr) refl d.moved;
      bytes = λ e i l. ap (λ (f : ℕ → ℕ). f i) (d.same_bytes ∙ a.same_bytes) ∙ raw.bytes e i l;
    }

-- The object that a round leaves behind takes as many cells as its original.
round_size :
    (g : Snapshot) (ds : List ℕ) (o : ℕ) (ps : List ℕ) (h : Heap)
    → Raw g h o (total g g.start ds)
    → {run run' : Run Heap (Unit {0})}
      (a : Relocates g ds o ps h
        (points_car (type_at h (total g g.start ds)))
        (λ h. car_at h (total g g.start ds))
        (λ h. cdr_at h (total g g.start ds))
        run)
      (d : Relocates g ds o
        (ps ++ a.added)
        a.heap
        (points_cdr (type_at h (total g g.start ds)))
        (λ h. cdr_at h (total g g.start ds))
        (λ h. car_at h (total g g.start ds))
        run')
    → total g g.start ds + object_cells d.heap (type_at h (total g g.start ds)) (total g g.start ds)
      ≡ total g g.start (ds ++ o ∷ [])
round_size g ds o ps h raw a d =
    let scan = total g g.start ds in
    let here = same_size h a.heap d.heap (type_at h scan) scan a.moved d.same_other in
    let orig : object_cells h (type_at h scan) scan ≡ size g o =
      ap₂ (λ (t n : ℕ). if t == t_bytes then bytes_cells n else 1) raw.same_type raw.same_car in
    ap (λ (k : ℕ). scan + k) (here ∙ orig) ∙ sym (total-append g g.start ds (o ∷ []))

-- A round of `gc_loop` at a raw copy keeps the invariant, never meets a broken heart, and brings
-- the work down by one.
pub scan_cell-Advances :
    (g : Snapshot) (ds : List ℕ) (o : ℕ) (ps : List ℕ) (h : Heap)
    → IsWellFormed g
    → Collecting g ds (o ∷ ps) h
    → Advances g ds o ps h (scan_cell (total g g.start ds) h)
unfolding scan_cell
scan_cell-Advances g ds o ps h wf c =
    let scan = total g g.start ds in
    let (raw, rest) = c.pending in
    let t0 = type_at g.heap o in
    let w : Open g ds o ps h = record { space = c.space; done = c.done; pending = rest } in
    let t : type_at h scan ≡ t0 = raw.same_type in
    let alive : (type_at h scan == t_broken_heart) ≡ false = ground (arith, raw.alive) in
    let a = relocate_car-Relocates g ds o ps h wf w (λ y.
      subst (λ k. (k < g.news) × (g.head k ≡ true)) (sym raw.same_car)
        (raw.points.0 (ap points_car (sym t) ∙ y))) in
    let d = relocate_cdr-Relocates (type_at h scan) g ds o (ps ++ a.added) a.heap wf a.opened (λ y.
      subst (λ k. (k < g.news) × (g.head k ≡ true)) (sym (a.same_other ∙ raw.same_cdr))
        (cdr_pointer g o scan raw.points (ap points_cdr (sym t) ∙ y))) in
    let list : ds ++ o ∷ ((ps ++ a.added) ++ d.added)
        ≡ (ds ++ o ∷ []) ++ (ps ++ (a.added ++ d.added)) =
      ap (λ (l : List ℕ). ds ++ o ∷ l) (append_assoc ps a.added d.added)
      ∙ sym (append_assoc ds (o ∷ []) (ps ++ (a.added ++ d.added))) in
    record {
      heap = d.heap;
      added = a.added ++ d.added;
      returns =
          rw (alive, a.returns, d.returns)
            (ap (λ (k : ℕ). ok k d.heap) (round_size g ds o ps h raw a d));
      collecting = record {
        space = subst (λ l. Space g l d.heap) list d.opened.space;
        done =
            Laid-append g (Image g d.heap) g.start ds (o ∷ []) d.opened.done
              (round-Image g ds o ps h raw a d, tt);
        pending =
            subst (λ k. Laid g (Raw g d.heap) k (ps ++ (a.added ++ d.added)))
              (sym (total-append g g.start ds (o ∷ [])))
              (subst (Laid g (Raw g d.heap) (scan + size g o)) (append_assoc ps a.added d.added)
                d.opened.pending);
      };
      hearts =
          λ q l e. d.hearts q l (ap (λ (k : Cell). k.ctype) (a.hearts q l e) ∙ e) ∙ a.hearts q l e;
      work = omega (arith, a.work, d.work, length-append a.added d.added);
    }
