-- ===== src/Vector/Access.antt =====
-- `vector_ref_` and `vector_set_x_` of src/vector.c.
use mes.Base.{
  ℕ, ◌+◌, ◌^◌, ◌≤◌, ◌<◌, ◌≡◌, refl, ap, ◌∙◌, ◌≢◌, inl, inr, Bool, true, false, not, ◌&&◌, arith,
  ◌==◌, if◌then◌else◌, Bool-cases, slt,
}
use mes.Heap.{Cell, Heap, Run, ok, type_at, car_at, cdr_at, cell, write}
use mes.Heap.Agree.{Room, grow, make_cell_ok, Room-mono}
use mes.Heap.Alloc.{copy_cell}
use mes.Heap.Const.{t_char, t_number, t_ref, t_vector, cell_unspecified}
use mes.Vector.{vector_entry, entry_object, vector_ref_, vector_set_x_}

-- An index of a vector whose elements stand below `g_free`, and whose own cell is no element.
pub record IsSlot (h : Heap) (x i : ℕ) : Type 0 where
  pub vector : type_at h x ≡ t_vector
  pub below : x < h.free
  pub index : i < car_at h x
  pub small : car_at h x < 2 ^ 63
  pub elements : cdr_at h x + car_at h x ≤ h.free
  pub apart : x ≢ cdr_at h x + i

-- Characters and numbers stand in the element itself, other objects behind a `TREF`.
abbrev pub is_boxed : Heap → ℕ → Bool
is_boxed h e = not (type_at h e == t_char) && not (type_at h e == t_number)

-- The element cell for `e`.
abbrev pub element_cell : Heap → ℕ → Cell
element_cell h e =
    if is_boxed h e then cell t_ref e 0 else cell (type_at h e) (car_at h e) (cdr_at h e)

-- The heap after the store.
abbrev pub stored : Heap → ℕ → ℕ → ℕ → Heap
stored h x i e =
    write (if is_boxed h e then grow h (cell t_ref e 0) else h) (cdr_at h x + i) (element_cell h e)

pub vector_set_x_-stored :
    (h : Heap) (x i e : ℕ)
    → IsSlot h x i
    → e < h.free
    → Room 1 h
    → vector_set_x_ x i e h ≡ ok cell_unspecified (stored h x i e)
unfolding vector_set_x_ vector_entry copy_cell
vector_set_x_-stored h x i e s lt r =
    let v : (type_at h x == t_vector) ≡ true = ground (arith, s.vector) in
    let c : slt i (car_at h x) ≡ true = ground (arith, s.index, s.small) in
    elim (Bool-cases (is_boxed h e)) [
      | inl y ↦
          let other : (h.free == x) ≡ false = ground (arith, s.below) in
          let here : (h.free == h.free) ≡ true = ground arith in
          rw (v, c, y, make_cell_ok t_ref e 0 h r) (ground arith)
      | inr n ↦ rw (v, c, n) refl
    ]

-- A run that returns an object like `e`: `e` itself, unless it is a character or a number, and
-- then a cell with the same type and value.
pub record Represents (h : Heap) (e : ℕ) (run : Run Heap ℕ) : Type 0 where
  pub at : ℕ
  pub heap : Heap
  pub returns : run ≡ ok at heap
  pub same_type : type_at heap at ≡ type_at h e
  pub same_value : cdr_at heap at ≡ cdr_at h e
  pub same_cell : (is_boxed h e && not (at == e)) ≡ false

pub entry_object-boxed :
    (h : Heap) (p e : ℕ)
    → h.cells p ≡ cell t_ref e 0
    → is_boxed h e ≡ true
    → entry_object p h ≡ ok e h
unfolding entry_object
entry_object-boxed h p e c y =
    let t : (type_at h p == t_ref) ≡ true = ground arith in
    let a : car_at h p ≡ e = ground arith in
    let nc : (type_at h e == t_char) ≡ false = ground arith in
    let nn : (type_at h e == t_number) ≡ false = ground arith in rw (t, a, nc, nn) refl

entry_object-char :
    (h : Heap) (p : ℕ)
    → type_at h p ≡ t_char
    → Room 1 h
    → entry_object p h ≡ ok h.free (grow h (cell t_char 0 (cdr_at h p)))
unfolding entry_object
entry_object-char h p c r =
    let t : (type_at h p == t_ref) ≡ false = ground arith in
    let nc : (type_at h p == t_char) ≡ true = ground arith in
    let here : (h.free == h.free) ≡ true = ground arith in
    rw (t, nc, make_cell_ok t_char 0 (cdr_at h p) h r) (ground arith)

entry_object-number :
    (h : Heap) (p : ℕ)
    → type_at h p ≡ t_number
    → Room 1 h
    → entry_object p h ≡ ok h.free (grow h (cell t_number 0 (cdr_at h p)))
unfolding entry_object
entry_object-number h p c r =
    let t : (type_at h p == t_ref) ≡ false = ground arith in
    let nc : (type_at h p == t_char) ≡ false = ground arith in
    let nn : (type_at h p == t_number) ≡ true = ground arith in
    rw (t, nc, nn, make_cell_ok t_number 0 (cdr_at h p) h r) refl

pub slot_read :
    (h h' : Heap) (x i : ℕ)
    → IsSlot h x i
    → h'.cells x ≡ h.cells x
    → vector_ref_ x i h' ≡ entry_object (cdr_at h x + i) h'
unfolding vector_ref_
slot_read h h' x i s same =
    let t : (type_at h' x == t_vector) ≡ true = ground (arith, s.vector) in
    let a : car_at h' x ≡ car_at h x = ap (λ (k : Cell). k.car) same in
    let d : cdr_at h' x ≡ cdr_at h x = ap (λ (k : Cell). k.cdr) same in
    let c : slt i (car_at h' x) ≡ true = ground (arith, s.index, s.small) in rw (t, c, d) refl

-- What is read after the store, in both forms of an element.
-- What a read of the slot finds after the store, in both forms of an element. `run` is the read.
stored-boxed :
    (h : Heap) (x i e : ℕ) (run : Run Heap ℕ)
    → cdr_at h x + i < h.free
    → e < h.free
    → e ≢ cdr_at h x + i
    → is_boxed h e ≡ true
    → run ≡ entry_object (cdr_at h x + i) (stored h x i e)
    → Represents h e run
stored-boxed h x i e run inside lt ne y eq =
    let p = cdr_at h x + i in
    let h' = write (grow h (cell t_ref e 0)) p (cell t_ref e 0) in
    let same : h'.cells e ≡ h.cells e = ground arith in
    let here : h'.cells p ≡ cell t_ref e 0 = ground arith in
    let y' : is_boxed h' e ≡ true =
      ap (λ (k : Cell). not (k.ctype == t_char) && not (k.ctype == t_number)) same ∙ y in
    record {
      at = e;
      heap = h';
      returns = (rw y at eq) ∙ entry_object-boxed h' p e here y';
      same_type = ap (λ (k : Cell). k.ctype) same;
      same_value = ap (λ (k : Cell). k.cdr) same;
      same_cell = ground arith;
    }

stored-direct :
    (h : Heap) (x i e : ℕ) (run : Run Heap ℕ)
    → cdr_at h x + i < h.free
    → Room 1 h
    → is_boxed h e ≡ false
    → run ≡ entry_object (cdr_at h x + i) (stored h x i e)
    → Represents h e run
stored-direct h x i e run inside r n eq =
    let p = cdr_at h x + i in
    let h' = write h p (cell (type_at h e) (car_at h e) (cdr_at h e)) in
    let here : h'.cells p ≡ cell (type_at h e) (car_at h e) (cdr_at h e) = ground arith in
    let t : type_at h' p ≡ type_at h e = ap (λ (k : Cell). k.ctype) here in
    let d : cdr_at h' p ≡ cdr_at h e = ap (λ (k : Cell). k.cdr) here in
    let r' : Room 1 h' = record { above = r.above; fits = r.fits; small = r.small } in
    let eq' : run ≡ entry_object p h' = (rw n at eq) in
    elim (Bool-cases (type_at h e == t_char)) [
      | inl c ↦ record {
        at = h.free;
        heap = grow h' (cell t_char 0 (cdr_at h' p));
        returns = eq' ∙ entry_object-char h' p (ground arith) r';
        same_type = ground arith;
        same_value = ground arith;
        same_cell = rw n refl;
      }
      | inr c ↦ record {
        at = h.free;
        heap = grow h' (cell t_number 0 (cdr_at h' p));
        returns = eq' ∙ entry_object-number h' p (ground arith) r';
        same_type = ground arith;
        same_value = ground arith;
        same_cell = rw n refl;
      }
    ]

pub stored-Represents :
    (h : Heap) (x i e : ℕ) (run : Run Heap ℕ)
    → cdr_at h x + i < h.free
    → e < h.free
    → e ≢ cdr_at h x + i
    → Room 1 h
    → run ≡ entry_object (cdr_at h x + i) (stored h x i e)
    → Represents h e run
stored-Represents h x i e run inside lt ne r eq = elim (Bool-cases (is_boxed h e)) [
  | inl y ↦ stored-boxed h x i e run inside lt ne y eq
  | inr n ↦ stored-direct h x i e run inside r n eq
]

-- The store leaves the vector itself alone.
pub stored-same :
    (h : Heap) (x i e : ℕ) → x < h.free → x ≢ cdr_at h x + i → (stored h x i e).cells x ≡ h.cells x
stored-same h x i e lt ne = ground arith

-- A vector element that was set is read back. For an index in range, an object that is no element
-- cell of its own, and room for two cells, `vector_set_x_` succeeds; `vector_ref_` then returns the
-- object itself, or for a character or a number a cell of the same type and value.
pub vector_ref_-set_x_ :
    (h : Heap) (x i e : ℕ)
    → IsSlot h x i
    → e < h.free
    → e ≢ cdr_at h x + i
    → Room 2 h
    → (h' : Heap) × (vector_set_x_ x i e h ≡ ok cell_unspecified h')
      × Represents h e (vector_ref_ x i h')
vector_ref_-set_x_ h x i e s lt ne r =
    let one : Room 1 h = Room-mono (omega arith) r in
    (
      stored h x i e,
      vector_set_x_-stored h x i e s lt one,
      stored-Represents h x i e (vector_ref_ x i (stored h x i e))
          (omega (arith, s.index, s.elements)) lt ne one
          (slot_read h (stored h x i e) x i s (stored-same h x i e s.below s.apart)),
    )
