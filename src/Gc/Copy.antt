-- ===== src/Gc/Copy.antt =====
-- `gc_copy` of src/gc.c: the new copy of an object and the address that it leaves behind.
use mes.Base.{
  ℕ, ◌+◌, ◌-◌, ◌*◌, ◌^◌, ◌≤◌, ◌<◌, ◌≡◌, refl, ap, ◌∙◌, fun_ext, ◌≢◌, ◌⊎◌, inl, inr, true, false,
  ◌||◌, arith, ◌==◌, if◌then◌else◌, ==_iff, Bool-cases, is_negative,
}
use mes.Gc.{copy_elements, copy_cell_bytes, copy_object, forward, gc_copy}
use mes.Gc.Elements.{copy_of, copy_elements-Appended}
use mes.Heap.{Cell, Heap, Run, ok, type_at, car_at, cdr_at, cell, write}
use mes.Heap.Agree.{grow}
use mes.Heap.Alloc.{bytes_cells}
use mes.Heap.Const.{t_bytes, t_struct, t_vector, t_broken_heart}

-- The cells that hang on the object at `p`: the elements of a struct or a vector.
abbrev pub element_count : Heap → ℕ → ℕ
element_count h p = if (type_at h p == t_struct) || (type_at h p == t_vector) then car_at h p else 0

-- The cells that the object at `p` takes in the new space.
abbrev pub copied_cells : Heap → ℕ → ℕ
copied_cells h p =
    if type_at h p == t_bytes then bytes_cells (car_at h p) else 1 + element_count h p

-- The object at `old` is one that `gc_copy` may be given: its cells stand below `g_free`, and its
-- length is not negative.
pub record IsObject (h : Heap) (old : ℕ) : Type 0 where
  pub below : old < h.free
  pub no_heart : type_at h old ≢ t_broken_heart
  pub elements : element_count h old < 2 ^ 63
  pub elements_below : (element_count h old ≡ 0) ⊎ (cdr_at h old + element_count h old ≤ h.free)

-- A run that copies the object at `old` to the end of the heap, and puts its new address there.
pub record Copies (h : Heap) (old : ℕ) (run : Run Heap ℕ) : Type 0 where
  pub heap : Heap
  pub returns : run ≡ ok h.free heap
  pub heart : heap.cells old ≡ cell t_broken_heart h.free (cdr_at h old)
  pub same_type : type_at heap h.free ≡ type_at h old
  pub same_car : car_at heap h.free ≡ car_at h old
  pub cdr_or_elements : cdr_at heap h.free ≡ (
      if (type_at h old == t_struct) || (type_at h old == t_vector)
      then h.free + 1
      else cdr_at h old)
  pub copied :
      (i : ℕ) → i < element_count h old → heap.cells (h.free + 1 + i) ≡ h.cells (cdr_at h old + i)
  pub copied_bytes :
      (i : ℕ) → type_at h old ≡ t_bytes → i < car_at h old → heap.bytes h.free i ≡ h.bytes old i
  pub same : (p : ℕ) → p < h.free → p ≢ old → heap.cells p ≡ h.cells p
  pub same_bytes : (p : ℕ) → p < h.free → heap.bytes p ≡ h.bytes p
  pub count : heap.free ≡ h.free + copied_cells h old
  -- The header of two words and the bytes fit into the cells, at eight bytes a cell, and into no
  -- fewer.
  pub bytes_fit :
      type_at h old ≡ t_bytes
      → (h.free * 8 + (16 + car_at h old) ≤ heap.free * 8)
        × (heap.free * 8 < h.free * 8 + (16 + car_at h old) + 8)
  pub same_base : heap.base ≡ h.base

-- The same of `copy_object`, before the new address is put at `old`.
record Cloned (h : Heap) (old : ℕ) (h' : Heap) : Type 0 where
  same_type : type_at h' h.free ≡ type_at h old
  same_car : car_at h' h.free ≡ car_at h old
  cdr_or_elements : cdr_at h' h.free ≡ (
      if (type_at h old == t_struct) || (type_at h old == t_vector)
      then h.free + 1
      else cdr_at h old)
  copied :
      (i : ℕ) → i < element_count h old → h'.cells (h.free + 1 + i) ≡ h.cells (cdr_at h old + i)
  copied_bytes :
      (i : ℕ) → type_at h old ≡ t_bytes → i < car_at h old → h'.bytes h.free i ≡ h.bytes old i
  same : (p : ℕ) → p < h.free → h'.cells p ≡ h.cells p
  same_bytes : (p : ℕ) → p < h.free → h'.bytes p ≡ h.bytes p
  count : h'.free ≡ h.free + copied_cells h old
  same_base : h'.base ≡ h.base

with_elements :
    (h : Heap) (old : ℕ)
    → IsObject h old
    → ((type_at h old == t_struct) || (type_at h old == t_vector)) ≡ true
    → Cloned h old (
        copy_elements (car_at h old) (cdr_at h old) (
          write (grow h (copy_of h old)) h.free (cell (type_at h old) (car_at h old) (h.free + 1))))
with_elements h old o y =
    let c = cell (type_at h old) (car_at h old) (h.free + 1) in
    let start = write (grow h (copy_of h old)) h.free c in
    let count : element_count h old ≡ car_at h old = rw y refl in
    let le : (car_at h old ≡ 0) ⊎ (cdr_at h old + car_at h old ≤ start.free) =
      ground (arith, o.elements_below) in
    let r = copy_elements-Appended (car_at h old) (cdr_at h old) start le in
    let old_at : (p : ℕ) → p < h.free → start.cells p ≡ h.cells p = λ p lt. ground arith in
    let head : start.cells h.free ≡ c = ground arith in
    let head' = r.same h.free (omega arith) ∙ head in
    let no_bytes : (type_at h old == t_bytes) ≡ false = ground arith in
    record {
      same_type = ap (λ (k : Cell). k.ctype) head';
      same_car = ap (λ (k : Cell). k.car) head';
      cdr_or_elements = rw y (ap (λ (k : Cell). k.cdr) head');
      copied = λ i lt.
          r.copied i (omega arith) ∙ old_at (cdr_at h old + i) (ground (arith, o.elements_below));
      copied_bytes = λ i e lt. absurd (ground arith);
      same = λ p lt. r.same p (omega arith) ∙ old_at p lt;
      same_bytes = λ p lt. ap (λ (f : ℕ → ℕ → ℕ). f p) r.same_bytes;
      count = rw no_bytes (omega (arith, r.free_at));
      same_base = r.same_base;
    }

with_bytes :
    (h : Heap) (old : ℕ)
    → IsObject h old
    → type_at h old ≡ t_bytes
    → let h' = grow h (copy_of h old) in
      Cloned h old (
        copy_cell_bytes h.free old
          (car_at h old)
          (record h' { free = h.free + 1 + (bytes_cells (car_at h old) - 1) }))
with_bytes h old o e =
    let y : (type_at h old == t_bytes) ≡ true = ground arith in
    let n : ((type_at h old == t_struct) || (type_at h old == t_vector)) ≡ false = ground arith in
    let none_left : element_count h old ≡ 0 = rw n refl in
    record {
      same_type = ground arith;
      same_car = ground arith;
      cdr_or_elements = rw n (ground arith);
      copied = λ i lt. absurd (omega arith);
      copied_bytes = λ i e lt. ground arith;
      same = λ p lt. ground arith;
      same_bytes = λ p lt. fun_ext (λ i. ground arith);
      count = rw y (omega arith);
      same_base = refl;
    }

alone :
    (h : Heap) (old : ℕ)
    → IsObject h old
    → (type_at h old == t_bytes) ≡ false
    → ((type_at h old == t_struct) || (type_at h old == t_vector)) ≡ false
    → Cloned h old (grow h (copy_of h old))
alone h old o b n =
    let none_left : element_count h old ≡ 0 = rw n refl in
    record {
      same_type = ground arith;
      same_car = ground arith;
      cdr_or_elements = rw n (ground arith);
      copied = λ i lt. absurd (omega arith);
      copied_bytes = λ i e lt. absurd (ground arith);
      same = λ p lt. ground arith;
      same_bytes = λ p lt. refl;
      count = rw (b, n) refl;
      same_base = refl;
    }

copy_object-Cloned : (h : Heap) (old : ℕ) → IsObject h old → Cloned h old (copy_object old h)
unfolding copy_object
copy_object-Cloned h old o =
    elim (Bool-cases ((type_at h old == t_struct) || (type_at h old == t_vector))) [
      | inl y ↦
          let count : element_count h old ≡ car_at h old = rw y refl in
          let pos : is_negative (car_at h old) ≡ false = ground (arith, o.elements) in
          rw (y, pos) (with_elements h old o y)
      | inr n ↦ elim (Bool-cases (type_at h old == t_bytes)) [
        | inl b ↦ rw (n, b) (with_bytes h old o ((==_iff _ _).0 b))
        | inr b ↦ rw (n, b) (alone h old o b n)
      ]
    ]

fitting :
    (h : Heap) (old : ℕ) (h' : Heap)
    → type_at h old ≡ t_bytes
    → h'.free ≡ h.free + copied_cells h old
    → (h.free * 8 + (16 + car_at h old) ≤ h'.free * 8)
      × (h'.free * 8 < h.free * 8 + (16 + car_at h old) + 8)
fitting h old h' b e =
    let t : (type_at h old == t_bytes) ≡ true = ground (arith, b) in
    let n : copied_cells h old ≡ bytes_cells (car_at h old) = rw t refl in omega (arith, e, n)

-- `gc_copy` of an object that was not copied yet returns the end of the heap. There stands now a
-- copy of its cell, followed by copies of the elements of a struct or a vector, which it is made
-- to point to, or by the bytes; the heap grows by just these cells. For bytes these are as many as
-- the header of two words and the bytes need, at eight bytes a cell. The old cell becomes
-- a broken heart with the new address, and every other cell of the old heap stays.
pub gc_copy-Copies : (h : Heap) (old : ℕ) → IsObject h old → Copies h old (gc_copy old h)
unfolding gc_copy
gc_copy-Copies h old o =
    let r = copy_object-Cloned h old o in
    let n : (type_at h old == t_broken_heart) ≡ false = ground (arith, o.no_heart) in
    let h' = forward old h.free (copy_object old h) in
    let later : (p : ℕ) → h.free ≤ p → h'.cells p ≡ (copy_object old h).cells p =
      λ p le. ground (arith, o.below) in
    record {
      heap = h';
      returns = rw n refl;
      heart =
          let d = ap (λ (k : Cell). k.cdr) (r.same old o.below) in
          let here : h'.cells old ≡ cell t_broken_heart h.free (cdr_at (copy_object old h) old) =
            ground arith in
          here ∙ ap (λ (x : ℕ). cell t_broken_heart h.free x) d;
      same_type = ap (λ (k : Cell). k.ctype) (later h.free (omega arith)) ∙ r.same_type;
      same_car = ap (λ (k : Cell). k.car) (later h.free (omega arith)) ∙ r.same_car;
      cdr_or_elements = ap (λ (k : Cell). k.cdr) (later h.free (omega arith)) ∙ r.cdr_or_elements;
      copied = λ i lt. later (h.free + 1 + i) (omega arith) ∙ r.copied i lt;
      copied_bytes = r.copied_bytes;
      same = λ p lt ne. ground (arith, r.same p lt);
      same_bytes = r.same_bytes;
      count = r.count;
      bytes_fit = λ b. fitting h old h' b r.count;
      same_base = r.same_base;
    }

-- An object is copied once: `gc_copy` returns for every cell, and a second `gc_copy` of the cell
-- returns the same address and leaves the heap as it is. So objects that shared a part share its
-- copy.
pub gc_copy-shares :
    (h : Heap) (old : ℕ)
    → (new : ℕ) × (h' : Heap) × (gc_copy old h ≡ ok new h') × (gc_copy old h' ≡ ok new h')
unfolding gc_copy
gc_copy-shares h old = elim (Bool-cases (type_at h old == t_broken_heart)) [
  | inl y ↦ (car_at h old, h, rw y refl, rw y refl)
  | inr n ↦ (h.free, forward old h.free (copy_object old h), rw n refl, ground arith)
]
