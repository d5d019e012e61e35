-- ===== src/Struct/Access.antt =====
-- `struct_ref_` and `struct_set_x_` of src/struct.c.
use mes.Base.{
  ℕ, ◌+◌, ◌^◌, ◌≤◌, ◌<◌, ◌≡◌, refl, ap, ◌≢◌, inl, inr, true, false, arith, ◌==◌, Bool-cases, slt,
}
use mes.Heap.{Cell, Heap, ok, type_at, car_at, cdr_at}
use mes.Heap.Agree.{Room, make_cell_ok, Room-mono}
use mes.Heap.Alloc.{copy_cell}
use mes.Heap.Const.{t_ref, t_struct, cell_unspecified}
use mes.Struct.{struct_ref_, struct_set_x_}
use mes.Vector.{vector_entry, entry_object}
use mes.Vector.Access.{is_boxed, stored, Represents, stored-Represents, stored-same}

-- A field of a struct whose elements stand below `g_free`, and whose own cell is none of them.
pub record IsField (h : Heap) (x i : ℕ) : Type 0 where
  pub is_struct : type_at h x ≡ t_struct
  pub below : x < h.free
  pub index : i < car_at h x
  pub small : car_at h x < 2 ^ 63
  pub elements : cdr_at h x + car_at h x ≤ h.free
  pub apart : x ≢ cdr_at h x + i

struct_set_x_-stored :
    (h : Heap) (x i e : ℕ)
    → IsField h x i
    → e < h.free
    → Room 1 h
    → struct_set_x_ x i e h ≡ ok cell_unspecified (stored h x i e)
unfolding struct_set_x_ vector_entry copy_cell
struct_set_x_-stored h x i e s lt r =
    let v : (type_at h x == t_struct) ≡ true = ground (arith, s.is_struct) in
    let c : slt i (car_at h x) ≡ true = ground (arith, s.index, s.small) in
    elim (Bool-cases (is_boxed h e)) [
      | inl y ↦
          let other : (h.free == x) ≡ false = ground (arith, s.below) in
          let here : (h.free == h.free) ≡ true = ground arith in
          rw (v, c, y, make_cell_ok t_ref e 0 h r) (ground arith)
      | inr n ↦ rw (v, c, n) refl
    ]

field_read :
    (h h' : Heap) (x i : ℕ)
    → IsField h x i
    → h'.cells x ≡ h.cells x
    → struct_ref_ x i h' ≡ entry_object (cdr_at h x + i) h'
unfolding struct_ref_
field_read h h' x i s same =
    let t : (type_at h' x == t_struct) ≡ true = ground (arith, s.is_struct) in
    let a : car_at h' x ≡ car_at h x = ap (λ (k : Cell). k.car) same in
    let d : cdr_at h' x ≡ cdr_at h x = ap (λ (k : Cell). k.cdr) same in
    let c : slt i (car_at h' x) ≡ true = ground (arith, s.index, s.small) in rw (t, c, d) refl

-- A struct field that was set is read back. For an index in range, an object that is no element
-- cell of its own, and room for two cells, `struct_set_x_` succeeds; `struct_ref_` then returns the
-- object itself, or for a character or a number a cell of the same type and value.
pub struct_ref_-set_x_ :
    (h : Heap) (x i e : ℕ)
    → IsField h x i
    → e < h.free
    → e ≢ cdr_at h x + i
    → Room 2 h
    → (h' : Heap) × (struct_set_x_ x i e h ≡ ok cell_unspecified h')
      × Represents h e (struct_ref_ x i h')
struct_ref_-set_x_ h x i e s lt ne r =
    let one : Room 1 h = Room-mono (omega arith) r in
    (
      stored h x i e,
      struct_set_x_-stored h x i e s lt one,
      stored-Represents h x i e (struct_ref_ x i (stored h x i e))
          (omega (arith, s.index, s.elements)) lt ne one
          (field_read h (stored h x i e) x i s (stored-same h x i e s.below s.apart)),
    )
