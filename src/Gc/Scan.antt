-- ===== src/Gc/Scan.antt =====
-- One round of `gc_loop` of src/gc.c.
use mes.Base.{
  ℕ, ◌+◌, ◌≤◌, ◌<◌, ◌≡◌, refl, sym, ap, ◌∙◌, ◌≢◌, ◌⊎◌, inl, inr, Bool, true, false, arith, ◌==◌,
  ==_iff, Bool-cases,
}
use mes.Gc.{points_car, points_cdr, gc_copy, relocate_car, relocate_cdr, object_cells, scan_cell}
use mes.Gc.Copy.{IsObject, Copies, gc_copy-Copies}
use mes.Gc.Later.{
  IsPointer, Moved, Later, Later-refl, Later-trans, IsObject-same, Later-write, Moved-Later,
}
use mes.Heap.{Cell, Heap, Run, ok, type_at, car_at, cdr_at, write_car, write_cdr}
use mes.Heap.Const.{t_bytes, t_broken_heart}

-- A run of `gc_copy` that forwards `old`.
record Forwards (news scan old : ℕ) (h : Heap) (run : Run Heap ℕ) : Type 0 where
  at : ℕ
  heap : Heap
  returns : run ≡ ok at heap
  heart : type_at heap old ≡ t_broken_heart
  address : car_at heap old ≡ at
  scan_same : heap.cells scan ≡ h.cells scan
  later : Later news scan h heap

already :
    (news old : ℕ) (h : Heap) → type_at h old ≡ t_broken_heart → gc_copy old h ≡ ok (car_at h old) h
unfolding gc_copy
already news old h e = rw e refl

pointers_after :
    (news old : ℕ) (h : Heap) {scan : ℕ}
    → IsObject h old
    → news ≤ scan
    → scan < h.free
    → (r : Copies h old (gc_copy old h)) → (p : ℕ) → IsPointer h news p
    → IsPointer r.heap news p
pointers_after news old h o le lt r p (l, i) = (
  l,
  elim (Bool-cases (p == old)) [
    | inl y ↦ inl (rw ((==_iff p old).0 y) (ap (λ (k : Cell). k.ctype) r.heart))
    | inr n ↦
        let same : r.heap.cells p ≡ h.cells p = r.same p (omega arith) (ground arith) in
        either same i
  ],
)
  where
    either :
        r.heap.cells p ≡ h.cells p
        → (type_at h p ≡ t_broken_heart) ⊎ IsObject h p
        → (type_at r.heap p ≡ t_broken_heart) ⊎ IsObject r.heap p
    either same (inl e) = inl (ap (λ (k : Cell). k.ctype) same ∙ e)
    either same (inr q) = inr (IsObject-same p (omega (arith, r.count)) same q)

gc_copy-Forwards :
    (news scan old : ℕ) (h : Heap)
    → news ≤ scan
    → scan < h.free
    → IsPointer h news old
    → Forwards news scan old h (gc_copy old h)
gc_copy-Forwards news scan old h le lt (ol, inl heart) = record {
  at = car_at h old;
  heap = h;
  returns = already news old h heart;
  heart = heart;
  address = refl;
  scan_same = refl;
  later = Later-refl news scan h;
}
gc_copy-Forwards news scan old h le lt (ol, inr o) =
    let r = gc_copy-Copies h old o in
    record {
      at = h.free;
      heap = r.heap;
      returns = r.returns;
      heart = ap (λ (k : Cell). k.ctype) r.heart;
      address = ap (λ (k : Cell). k.car) r.heart;
      scan_same = r.same scan lt (omega arith);
      later = record {
        grows = omega (arith, r.count);
        hearts = λ p l e.
            r.same p (omega arith) (λ q. o.no_heart (ap (λ (k : ℕ). type_at h k) (sym q) ∙ e));
        same = λ p l l' ne. r.same p l' (omega arith);
        pointers = λ p i. pointers_after news old h o le lt r p i;
      };
    }

-- A run of one of the two parts of a round: it moves the pointer in one word of the cell at `scan`,
-- and leaves the type and the other word.
record Part (news scan : ℕ) (h : Heap) (b : Bool) (word other : Heap → ℕ)
    (run : Run Heap (Unit {0})) : Type 0 where
  heap : Heap
  returns : run ≡ ok tt heap
  same_type : type_at heap scan ≡ type_at h scan
  same_other : other heap ≡ other h
  moved : Moved heap b (word h) (word heap)
  later : Later news scan h heap

relocate_car-Part :
    (news scan : ℕ) (h : Heap)
    → news ≤ scan
    → scan < h.free
    → (points_car (type_at h scan) ≡ true → IsPointer h news (car_at h scan))
    → Part news scan h
        (points_car (type_at h scan))
        (λ h. car_at h scan)
        (λ h. cdr_at h scan)
        (relocate_car scan h)
unfolding relocate_car
relocate_car-Part news scan h le lt ptr = elim (Bool-cases (points_car (type_at h scan))) [
  | inl y ↦
      let old = car_at h scan in
      let r = gc_copy-Forwards news scan old h le lt (ptr y) in
      let e1 = ap (λ (k : Cell). k.ctype) r.scan_same in
      let e3 = ap (λ (k : Cell). k.cdr) r.scan_same in
      let apart : (scan == old) ≡ false = ground (arith, (ptr y).0) in
      rw y record {
        heap = write_car r.heap scan r.at;
        returns = rw r.returns refl;
        same_type = ground arith;
        same_other = ground arith;
        moved = (ground (arith, r.heart), ground (arith, r.address));
        later =
            Later-trans r.later (Later-write news scan r.heap _ le (omega (arith, r.later.grows)));
      }
  | inr n ↦ rw n record {
    heap = h;
    returns = refl;
    same_type = refl;
    same_other = refl;
    moved = refl;
    later = Later-refl news scan h;
  }
]

relocate_cdr-Part :
    (t news scan : ℕ) (h : Heap)
    → news ≤ scan
    → scan < h.free
    → (points_cdr t ≡ true → IsPointer h news (cdr_at h scan))
    → Part news scan h
        (points_cdr t)
        (λ h. cdr_at h scan)
        (λ h. car_at h scan)
        (relocate_cdr t scan h)
unfolding relocate_cdr
relocate_cdr-Part t news scan h le lt ptr = elim (Bool-cases (points_cdr t)) [
  | inl y ↦
      let old = cdr_at h scan in
      let r = gc_copy-Forwards news scan old h le lt (ptr y) in
      let e1 = ap (λ (k : Cell). k.ctype) r.scan_same in
      let e3 = ap (λ (k : Cell). k.car) r.scan_same in
      let apart : (scan == old) ≡ false = ground (arith, (ptr y).0) in
      rw y record {
        heap = write_cdr r.heap scan r.at;
        returns = rw r.returns refl;
        same_type = ground arith;
        same_other = ground arith;
        moved = (ground (arith, r.heart), ground (arith, r.address));
        later =
            Later-trans r.later (Later-write news scan r.heap _ le (omega (arith, r.later.grows)));
      }
  | inr n ↦ rw n record {
    heap = h;
    returns = refl;
    same_type = refl;
    same_other = refl;
    moved = refl;
    later = Later-refl news scan h;
  }
]

-- What a round of `gc_loop` at `scan` does: it goes on behind the object, whose pointers have all
-- moved to the new space, and keeps its type.
pub record Scanned (news scan : ℕ) (h : Heap) (run : Run Heap ℕ) : Type 0 where
  pub heap : Heap
  pub returns : run ≡ ok (scan + object_cells h (type_at h scan) scan) heap
  pub same_type : type_at heap scan ≡ type_at h scan
  pub moved_car : Moved heap (points_car (type_at h scan)) (car_at h scan) (car_at heap scan)
  pub moved_cdr : Moved heap (points_cdr (type_at h scan)) (cdr_at h scan) (cdr_at heap scan)
  pub later : Later news scan h heap

-- A word that is the length of bytes is no pointer, so the size of the object is the same.
pub same_size :
    (h a d : Heap) (t scan : ℕ)
    → Moved a (points_car t) (car_at h scan) (car_at a scan)
    → car_at d scan ≡ car_at a scan
    → object_cells d t scan ≡ object_cells h t scan
unfolding points_car
same_size h a d t scan m e = elim (Bool-cases (t == t_bytes)) [
  | inl y ↦
      let b : t ≡ t_bytes = (==_iff _ _).0 y in
      let car : car_at a scan ≡ car_at h scan = (rw (b, points_car) at m) in rw (y, e, car) refl
  | inr n ↦ rw n refl
]

-- A round of `gc_loop` in the new space, on an object whose pointers lead to objects of the old
-- space, copied or not, succeeds. It goes on behind the object, which keeps its type; each pointer
-- in it is now the address that its target left when it was copied, and each other word is the
-- same. Addresses once given stay, and so do all other cells of the new space.
pub scan_cell-Scanned :
    (news scan : ℕ) (h : Heap)
    → news ≤ scan
    → scan < h.free
    → type_at h scan ≢ t_broken_heart
    → (points_car (type_at h scan) ≡ true → IsPointer h news (car_at h scan))
    → (points_cdr (type_at h scan) ≡ true → IsPointer h news (cdr_at h scan))
    → Scanned news scan h (scan_cell scan h)
unfolding scan_cell
scan_cell-Scanned news scan h le lt no_heart pa pd =
    let n : (type_at h scan == t_broken_heart) ≡ false = ground arith in
    let t = type_at h scan in
    let a = relocate_car-Part news scan h le lt pa in
    let d =
      relocate_cdr-Part t news scan a.heap le (omega (arith, a.later.grows))
        (λ y. rw a.same_other (a.later.pointers (cdr_at h scan) (pd y))) in
    record {
      heap = d.heap;
      returns =
          rw (n, a.returns, d.returns)
            (ap (λ (k : ℕ). ok (scan + k) d.heap)
              (same_size h a.heap d.heap t scan a.moved d.same_other));
      same_type = d.same_type ∙ a.same_type;
      moved_car = rw d.same_other (
          Moved-Later (points_car t) (car_at h scan) (car_at a.heap scan) (λ y. (pa y).0) d.later
            a.moved);
      moved_cdr = rw a.same_other at d.moved;
      later = Later-trans a.later d.later;
    }
