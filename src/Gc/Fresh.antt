-- ===== src/Gc/Fresh.antt =====
-- `gc_copy` of an object that was not copied yet, in a collection.
use mes.Base.{
  ℕ, ◌+◌, ◌-◌, ◌≤◌, ◌<◌, ◌≡◌, refl, sym, ap, ◌∙◌, subst, ◌⊎◌, inl, inr, true, false, ◌||◌, List,
  ◌∷◌, ◌++◌, arith, ◌==◌, if◌then◌else◌, ==_iff, Bool-cases,
}
use mes.Gc.{gc_copy}
use mes.Gc.Copy.{element_count, copied_cells, IsObject, Copies}
use mes.Gc.Forward.{cells_from, copied_objects, elements-Laid, elements-Placed}
use mes.Gc.Snapshot.{
  Snapshot, is_compound, IsElement, IsWellFormed, size, Raw, total, Laid, Placed, total-le,
  Placed-append, Placed-after,
}
use mes.Gc.Space.{Home, Space}
use mes.Heap.{Cell, Heap, type_at, car_at, cdr_at}
use mes.Heap.Alloc.{bytes_cells}
use mes.Heap.Const.{t_bytes, t_struct, t_vector}

-- The cell as a function of which the rest is computed.
count_of :
    (g : Snapshot) (h : Heap) (p : ℕ)
    → h.cells p ≡ g.heap.cells p
    → element_count h p ≡ element_count g.heap p
count_of g h p same =
    ap (λ (k : Cell). if (k.ctype == t_struct) || (k.ctype == t_vector) then k.car else 0) same

pub fresh-IsObject :
    (g : Snapshot) (os : List ℕ) (h : Heap) (p : ℕ)
    → IsWellFormed g
    → Space g os h
    → p < g.news
    → g.head p ≡ true
    → h.cells p ≡ g.heap.cells p
    → IsObject h p
fresh-IsObject g os h p wf s lt hd same =
    let t : type_at h p ≡ type_at g.heap p = ap (λ (k : Cell). k.ctype) same in
    let d : cdr_at h p ≡ cdr_at g.heap p = ap (λ (k : Cell). k.cdr) same in
    let n = count_of g h p same in
    let above = total-le g g.start os in
    record {
      below = omega (arith, wf.news_start, s.free_at, above);
      no_heart = λ e. wf.no_heart p lt hd (sym t ∙ e);
      elements = omega (arith, wf.small p lt hd, n);
      elements_below = inside n d (omega (arith, wf.news_start, s.free_at, above));
    }
  where
    inside :
        element_count h p ≡ element_count g.heap p
        → cdr_at h p ≡ cdr_at g.heap p
        → g.news ≤ h.free
        → (element_count h p ≡ 0) ⊎ (cdr_at h p + element_count h p ≤ h.free)
    inside n d le = elim (Bool-cases (element_count h p == 0)) [
      | inl y ↦ inl ((==_iff _ _).0 y)
      | inr z ↦
          let pos : 0 < element_count g.heap p = ground arith in
          let last = wf.elements p (element_count g.heap p - 1) lt hd (omega arith) in
          inr (omega (arith, last.0))
    ]

-- The copy of the object itself.
fresh-Raw :
    (g : Snapshot) (os : List ℕ) (h : Heap) (p : ℕ)
    → IsWellFormed g
    → Space g os h
    → p < g.news
    → g.head p ≡ true
    → h.cells p ≡ g.heap.cells p
    → (r : Copies h p (gc_copy p h)) → Raw g r.heap p h.free
fresh-Raw g os h p wf s lt hd same r =
    let t : type_at h p ≡ type_at g.heap p = ap (λ (k : Cell). k.ctype) same in
    let a : car_at h p ≡ car_at g.heap p = ap (λ (k : Cell). k.car) same in
    record {
      old = lt;
      alive = wf.no_heart p lt hd;
      kind = inl hd;
      points = wf.pointers p lt hd;
      same_type = r.same_type ∙ t;
      same_car = r.same_car ∙ a;
      same_cdr =
          r.cdr_or_elements
          ∙ ap (λ (k : Cell). if is_compound k.ctype then h.free + 1 else k.cdr) same;
      bytes = λ e i l.
          r.copied_bytes i (t ∙ e) (omega arith) ∙ ap (λ (f : ℕ → ℕ). f i) (s.old_bytes p lt);
    }

-- No element is an object of its own, so that none was copied by itself.
element_same :
    (g : Snapshot) (os : List ℕ) (h : Heap) (e : ℕ)
    → Space g os h
    → IsElement g e
    → h.cells e ≡ g.heap.cells e
element_same g os h e s el = elim (s.old e el.0) [
  | inl same ↦ same
  | inr f ↦ absurd (true_false (sym f.1 ∙ el.1))
]
  where
    true_false : true ≡ false → ⊥
    true_false y = cc

fresh_elements :
    (g : Snapshot) (os : List ℕ) (h : Heap) (p : ℕ)
    → IsWellFormed g
    → Space g os h
    → p < g.news
    → g.head p ≡ true
    → h.cells p ≡ g.heap.cells p
    → (r : Copies h p (gc_copy p h)) → (i : ℕ) → i < element_count g.heap p
    → r.heap.cells (h.free + 1 + i) ≡ g.heap.cells (cdr_at g.heap p + i)
fresh_elements g os h p wf s lt hd same r i l =
    let d : cdr_at h p ≡ cdr_at g.heap p = ap (λ (k : Cell). k.cdr) same in
    r.copied i (omega (arith, count_of g h p same))
    ∙ ap (λ (k : ℕ). h.cells (k + i)) d
    ∙ element_same g os h (cdr_at g.heap p + i) s (wf.elements p i lt hd l)

cells_compound :
    (g : Snapshot) (p : ℕ)
    → is_compound (type_at g.heap p) ≡ true
    → copied_cells g.heap p ≡ 1 + element_count g.heap p
cells_compound g p y = let nb : (type_at g.heap p == t_bytes) ≡ false = ground arith in rw nb refl

cells_simple :
    (g : Snapshot) (p : ℕ)
    → is_compound (type_at g.heap p) ≡ false
    → copied_cells g.heap p ≡ size g p
cells_simple g p z = rw z refl

-- What is added is laid out from the old end of the heap to the new one.
pub fresh-Laid :
    (g : Snapshot) (os : List ℕ) (h : Heap) (p : ℕ)
    → IsWellFormed g
    → Space g os h
    → p < g.news
    → g.head p ≡ true
    → h.cells p ≡ g.heap.cells p
    → (r : Copies h p (gc_copy p h))
    → Laid g (Raw g r.heap) h.free (copied_objects g p)
      × (r.heap.free ≡ total g h.free (copied_objects g p))
fresh-Laid g os h p wf s lt hd same r =
    let raw = fresh-Raw g os h p wf s lt hd same r in
    let copied : copied_cells h p ≡ copied_cells g.heap p =
      ap
        (λ (k : Cell).
          if k.ctype == t_bytes
          then bytes_cells k.car
          else 1 + (if is_compound k.ctype then k.car else 0))
        same in
    elim (Bool-cases (is_compound (type_at g.heap p))) [
      | inl y ↦
          let nb : (type_at g.heap p == t_bytes) ≡ false = ground arith in
          let one : size g p ≡ 1 = rw nb refl in
          let (l, e) =
            elements-Laid g r.heap (element_count g.heap p) (cdr_at g.heap p) (h.free + 1)
              (λ i l. wf.elements p i lt hd l) (fresh_elements g os h p wf s lt hd same r) in
          (
            (
              raw,
              subst
                  (λ k.
                    Laid g (Raw g r.heap) (h.free + k)
                      (cells_from (cdr_at g.heap p) (element_count g.heap p)))
                  (sym one) l,
            ),
            r.count
                ∙ ap (λ (k : ℕ). h.free + k) (copied ∙ cells_compound g p y)
                ∙ omega arith
                ∙ sym e
                ∙ ap
                    (λ (k : ℕ).
                      total g (h.free + k) (cells_from (cdr_at g.heap p) (element_count g.heap p)))
                    (sym one),
          )
      | inr z ↦
          let none_left : element_count g.heap p ≡ 0 = rw z refl in
          subst
            (λ n.
              Laid g (Raw g r.heap) h.free (p ∷ cells_from (cdr_at g.heap p) n)
              × (r.heap.free ≡ total g h.free (p ∷ cells_from (cdr_at g.heap p) n)))
            (sym none_left)
            ((raw, tt), r.count ∙ ap (λ (k : ℕ). h.free + k) (copied ∙ cells_simple g p z))
    ]

pub Home-append : (g : Snapshot) (os qs : List ℕ) (p a : ℕ) → Home g os p a → Home g (os ++ qs) p a
Home-append g os qs p a (q, els) =
    (Placed-append g g.start os qs p a q, λ i l. Placed-append g g.start os qs _ _ (els i l))

pub fresh-Home :
    (g : Snapshot) (os : List ℕ) (h : Heap) (p : ℕ)
    → IsWellFormed g
    → Space g os h
    → p < g.news
    → g.head p ≡ true
    → Home g (os ++ copied_objects g p) p h.free
fresh-Home g os h p wf s lt hd = (
  subst (λ k. Placed g g.start (os ++ copied_objects g p) p k) (sym s.free_at)
      (Placed-after g g.start os (copied_objects g p) p (total g g.start os) (inl (refl, refl))),
  λ i l.
      let compound = compound_of i l in
      let nb : (type_at g.heap p == t_bytes) ≡ false = ground arith in
      let one : size g p ≡ 1 = rw nb refl in
      let el =
        elements-Placed g (element_count g.heap p) (cdr_at g.heap p) (h.free + 1) i
          (λ j m. wf.elements p j lt hd m) l in
      Placed-after g g.start os (copied_objects g p) (cdr_at g.heap p + i) (h.free + 1 + i) (
        subst (λ k. Placed g k (copied_objects g p) (cdr_at g.heap p + i) (h.free + 1 + i))
          s.free_at
          (inr (
            subst
              (λ k.
                Placed g (h.free + k) (cells_from (cdr_at g.heap p) (element_count g.heap p))
                  (cdr_at g.heap p + i) (h.free + 1 + i))
              (sym one) el))),
)
  where
    compound_of : (i : ℕ) → i < element_count g.heap p → is_compound (type_at g.heap p) ≡ true
    compound_of i l = elim (Bool-cases (is_compound (type_at g.heap p))) [
      | inl y ↦ y
      | inr z ↦ let none_left : element_count g.heap p ≡ 0 = rw z refl in absurd (omega arith)
    ]
