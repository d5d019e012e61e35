-- ===== src/Gc/Open.antt =====
-- The round of `gc_loop` at an object, while its pointers are replaced.
use mes.Base.{
  ℕ, ◌+◌, ◌≤◌, ◌<◌, ◌≡◌, refl, sym, ap, ◌∙◌, subst, ◌≢◌, Bool, true, false, List, ◌∷◌, ◌++◌, arith,
}
use mes.Gc.{points_car, points_cdr}
use mes.Gc.Later.{Moved}
use mes.Gc.Snapshot.{
  Snapshot, is_compound, PointsOld, IsWellFormed, size, copied_cdr, Raw, Image, total, Laid,
  total-append, size-pos, total-le, Laid-map, Laid-append,
}
use mes.Gc.Space.{Space}
use mes.Heap.{Cell, Heap, type_at, car_at, cdr_at}
use mes.Heap.Const.{t_broken_heart}

pub Moved-hearts :
    (news : ℕ) (h h' : Heap) (b : Bool) (old new : ℕ)
    → ((q : ℕ) → q < news → type_at h q ≡ t_broken_heart → h'.cells q ≡ h.cells q)
    → (b ≡ true → old < news)
    → Moved h b old new
    → Moved h' b old new
Moved-hearts news h h' false old new keep below e = e
Moved-hearts news h h' true old new keep below (e, f) =
    let same = keep old (below refl) e in
    (ap (λ (k : Cell). k.ctype) same ∙ e, ap (λ (k : Cell). k.car) same ∙ f)

pub points_cdr-simple : (t : ℕ) → points_cdr t ≡ true → is_compound t ≡ false
unfolding points_cdr
points_cdr-simple t y = ground arith

pub cdr_pointer :
    (g : Snapshot) (o s : ℕ)
    → PointsOld g o
    → points_cdr (type_at g.heap o) ≡ true
    → (copied_cdr g o s < g.news) × (g.head (copied_cdr g o s) ≡ true)
cdr_pointer g o s pts y =
    let e : copied_cdr g o s ≡ cdr_at g.heap o = rw (points_cdr-simple (type_at g.heap o) y) refl in
    subst (λ k. (k < g.news) × (g.head k ≡ true)) (sym e) (pts.1 y)

pub Raw-frame :
    (g : Snapshot) (h h' : Heap) (o s : ℕ)
    → h'.cells s ≡ h.cells s
    → h'.bytes s ≡ h.bytes s
    → Raw g h o s
    → Raw g h' o s
Raw-frame g h h' o s same bytes r = record {
  old = r.old;
  alive = r.alive;
  kind = r.kind;
  points = r.points;
  same_type = ap (λ (k : Cell). k.ctype) same ∙ r.same_type;
  same_car = ap (λ (k : Cell). k.car) same ∙ r.same_car;
  same_cdr = ap (λ (k : Cell). k.cdr) same ∙ r.same_cdr;
  bytes = λ e i l. ap (λ (f : ℕ → ℕ). f i) bytes ∙ r.bytes e i l;
}

pub Image-frame :
    (g : Snapshot) (h h' : Heap) (o s : ℕ)
    → ((q : ℕ) → q < g.news → type_at h q ≡ t_broken_heart → h'.cells q ≡ h.cells q)
    → h'.cells s ≡ h.cells s
    → h'.bytes s ≡ h.bytes s
    → Image g h o s
    → Image g h' o s
Image-frame g h h' o s keep same bytes r = record {
  old = r.old;
  alive = r.alive;
  kind = r.kind;
  points = r.points;
  same_type = ap (λ (k : Cell). k.ctype) same ∙ r.same_type;
  moved_car =
      subst (Moved h' (points_car (type_at g.heap o)) (car_at g.heap o))
        (sym (ap (λ (k : Cell). k.car) same))
        (Moved-hearts g.news h h' _ _ _ keep (λ y. (r.points.0 y).0) r.moved_car);
  moved_cdr =
      subst (Moved h' (points_cdr (type_at g.heap o)) (copied_cdr g o s))
        (sym (ap (λ (k : Cell). k.cdr) same))
        (Moved-hearts g.news h h' _ _ _ keep (λ y. (cdr_pointer g o s r.points y).0) r.moved_cdr);
  bytes = λ e i l. ap (λ (f : ℕ → ℕ). f i) bytes ∙ r.bytes e i l;
}

-- The copies of `ds` are done, that of `o` is being worked on, and those of `ps` are raw.
pub record Open (g : Snapshot) (ds : List ℕ) (o : ℕ) (ps : List ℕ) (h : Heap) : Type 0 where
  pub space : Space g (ds ++ o ∷ ps) h
  pub done : Laid g (Image g h) g.start ds
  pub pending : Laid g (Raw g h) (total g g.start ds + size g o) ps

-- Where the copy of `o` stands.
pub open_bounds :
    (g : Snapshot) (ds : List ℕ) (o : ℕ) (ps : List ℕ) (h : Heap)
    → IsWellFormed g
    → Space g (ds ++ o ∷ ps) h
    → (g.news ≤ total g g.start ds)
      × (total g g.start ds < h.free)
      × (h.free ≡ total g (total g g.start ds + size g o) ps)
open_bounds g ds o ps h wf s =
    let e : h.free ≡ total g (total g g.start ds + size g o) ps =
      s.free_at ∙ total-append g g.start ds (o ∷ ps) in
    let a = total-le g g.start ds in
    let b = total-le g (total g g.start ds + size g o) ps in
    let c = size-pos g o in (omega (arith, wf.news_start, a), omega (arith, b, c, e), e)

-- A change that keeps the addresses of copies, and the new space but for the cell at `scan`.
pub record Touched (g : Snapshot) (scan : ℕ) (h h' : Heap) : Type 0 where
  pub hearts : (q : ℕ) → q < g.news → type_at h q ≡ t_broken_heart → h'.cells q ≡ h.cells q
  pub same : (q : ℕ) → g.news ≤ q → q < h.free → q ≢ scan → h'.cells q ≡ h.cells q
  pub same_bytes : (q : ℕ) → g.news ≤ q → q < h.free → h'.bytes q ≡ h.bytes q

pub Open-Touched :
    (g : Snapshot) (ds : List ℕ) (o : ℕ) (ps qs : List ℕ) (h h' : Heap)
    → IsWellFormed g
    → Open g ds o ps h
    → Touched g (total g g.start ds) h h'
    → Space g (ds ++ o ∷ (ps ++ qs)) h'
    → Laid g (Raw g h') h.free qs
    → Open g ds o (ps ++ qs) h'
Open-Touched g ds o ps qs h h' wf w t s raw =
    let (le, lt, e) = open_bounds g ds o ps h wf w.space in
    let c = size-pos g o in
    record {
      space = s;
      done =
          Laid-map g (Image g h) (Image g h') g.start ds
            (λ o' a b b' i.
              Image-frame g h h' o' a t.hearts
                (t.same a (omega (arith, wf.news_start)) (omega arith) (omega arith))
                (t.same_bytes a (omega (arith, wf.news_start)) (omega arith)) i)
            w.done;
      pending =
          Laid-append g (Raw g h') (total g g.start ds + size g o) ps qs
            (Laid-map g (Raw g h) (Raw g h') (total g g.start ds + size g o) ps
              (λ o' a b b' i.
                Raw-frame g h h' o' a (t.same a (omega arith) (omega (arith, e)) (omega arith))
                  (t.same_bytes a (omega arith) (omega (arith, e))) i)
              w.pending)
            (subst (λ k. Laid g (Raw g h') k qs) e raw);
    }
