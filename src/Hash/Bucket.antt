-- ===== src/Hash/Bucket.antt =====
-- A bucket of a hash table of src/hash.c, and the heap after an insertion into it.
use mes.Base.{ℕ, ◌+◌, ◌^◌, ◌<◌, ◌≡◌, refl, ap, ◌∙◌, ◌≢◌, Bool, true, not, ◌&&◌, arith, ◌==◌, slt}
use mes.Hash.{get_bucket}
use mes.Heap.{Cell, Heap, ok, type_at, car_at, cdr_at, cell, write}
use mes.Heap.Agree.{Room, grow, make_cell_ok, Room-grow}
use mes.Heap.Alloc.{acons}
use mes.Heap.Const.{t_char, t_number, t_pair, t_ref, t_struct}
use mes.Struct.{struct_ref_}
use mes.Vector.Access.{IsSlot, is_boxed, entry_object-boxed, slot_read}

-- The vector of buckets of a table, and the bucket at an index.
pub record IsBucket (h : Heap) (table buckets i bucket : ℕ) : Type 0 where
  pub is_struct : type_at h table ≡ t_struct
  pub fields : 4 < car_at h table
  pub fields_small : car_at h table < 2 ^ 63
  pub field : h.cells (cdr_at h table + 4) ≡ cell t_ref buckets 0
  pub slot : IsSlot h buckets i
  pub element : h.cells (cdr_at h buckets + i) ≡ cell t_ref bucket 0
  pub bucket_boxed : is_boxed h bucket ≡ true

struct_ref_-boxed :
    (h : Heap) (x i e : ℕ)
    → type_at h x ≡ t_struct
    → i < car_at h x
    → car_at h x < 2 ^ 63
    → h.cells (cdr_at h x + i) ≡ cell t_ref e 0
    → is_boxed h e ≡ true
    → struct_ref_ x i h ≡ ok e h
unfolding struct_ref_
struct_ref_-boxed h x i e ts lt small c y =
    let s : (type_at h x == t_struct) ≡ true = ground arith in
    let f : slt i (car_at h x) ≡ true = ground arith in
    rw (s, f) (entry_object-boxed h (cdr_at h x + i) e c y)

pub get_bucket-ok :
    (h : Heap) (table buckets i bucket : ℕ)
    → IsBucket h table buckets i bucket
    → get_bucket table i h ≡ ok (buckets, bucket) h
unfolding get_bucket
get_bucket-ok h table buckets i bucket b =
    let boxed : is_boxed h buckets ≡ true = ground (arith, b.slot.vector) in
    let e = struct_ref_-boxed h table 4 buckets b.is_struct b.fields b.fields_small b.field boxed in
    let v =
      slot_read h h buckets i b.slot refl
      ∙ entry_object-boxed h (cdr_at h buckets + i) bucket b.element b.bucket_boxed in
    rw (e, v) refl

-- The heap with two more cells, the new entry and the new head of the bucket.
abbrev pub entered : Heap → ℕ → ℕ → ℕ → Heap
entered h key value list = grow (grow h (cell t_pair key value)) (cell t_pair h.free list)

pub acons_ok :
    (h : Heap) (key value list : ℕ)
    → Room 2 h
    → acons key value list h ≡ ok (h.free + 1) (entered h key value list)
acons_ok h key value list r =
    let one = make_cell_ok t_pair key value h r in
    let two = make_cell_ok t_pair h.free list (grow h (cell t_pair key value)) (Room-grow h _ r) in
    rw one two

-- The cells of the table and of the entry's slot do not meet.
pub record IsApart (h : Heap) (table buckets i : ℕ) : Type 0 where
  pub table_below : table < h.free
  pub table_slot : table ≢ cdr_at h buckets + i
  pub field_below : cdr_at h table + 4 < h.free
  pub field_slot : cdr_at h table + 4 ≢ cdr_at h buckets + i

abbrev pub inserted : Heap → ℕ → ℕ → ℕ → ℕ → ℕ → Heap
inserted h buckets i key value list =
    let h1 = entered h key value list in
    write (grow h1 (cell t_ref (h.free + 1) 0)) (cdr_at h buckets + i) (cell t_ref (h.free + 1) 0)

-- What the insertion leaves alone.
pub inserted-same :
    (h : Heap) (buckets i key value list p : ℕ)
    → p < h.free
    → p ≢ cdr_at h buckets + i
    → (inserted h buckets i key value list).cells p ≡ h.cells p
inserted-same h buckets i key value list p lt ne = ground arith

pub inserted-slot :
    (h : Heap) (buckets i key value list : ℕ)
    → (inserted h buckets i key value list).cells (cdr_at h buckets + i) ≡ cell t_ref (h.free + 1) 0
inserted-slot h buckets i key value list = ground arith

pub inserted-head :
    (h : Heap) (buckets i key value list : ℕ)
    → cdr_at h buckets + i < h.free
    → (inserted h buckets i key value list).cells (h.free + 1) ≡ cell t_pair h.free list
inserted-head h buckets i key value list lt = ground arith

pub inserted-entry :
    (h : Heap) (buckets i key value list : ℕ)
    → cdr_at h buckets + i < h.free
    → (inserted h buckets i key value list).cells h.free ≡ cell t_pair key value
inserted-entry h buckets i key value list lt = ground arith

abbrev pub is_pair_boxed : Cell → Bool
is_pair_boxed k = not (k.ctype == t_char) && not (k.ctype == t_number)

pub inserted-IsBucket :
    (h : Heap) (table buckets i bucket key value list : ℕ)
    → IsBucket h table buckets i bucket
    → IsApart h table buckets i
    → IsBucket (inserted h buckets i key value list) table buckets i (h.free + 1)
inserted-IsBucket h table buckets i bucket key value list b a =
    let h' = inserted h buckets i key value list in
    let t : h'.cells table ≡ h.cells table =
      inserted-same h buckets i key value list table a.table_below a.table_slot in
    let v : h'.cells buckets ≡ h.cells buckets =
      inserted-same h buckets i key value list buckets b.slot.below b.slot.apart in
    let t1 : type_at h' table ≡ type_at h table = ap (λ (k : Cell). k.ctype) t in
    let t2 : car_at h' table ≡ car_at h table = ap (λ (k : Cell). k.car) t in
    let t3 : cdr_at h' table ≡ cdr_at h table = ap (λ (k : Cell). k.cdr) t in
    let v1 : type_at h' buckets ≡ type_at h buckets = ap (λ (k : Cell). k.ctype) v in
    let v2 : car_at h' buckets ≡ car_at h buckets = ap (λ (k : Cell). k.car) v in
    let v3 : cdr_at h' buckets ≡ cdr_at h buckets = ap (λ (k : Cell). k.cdr) v in
    let f : h'.cells (cdr_at h table + 4) ≡ h.cells (cdr_at h table + 4) =
      inserted-same h buckets i key value list (cdr_at h table + 4) a.field_below a.field_slot in
    record {
      is_struct = t1 ∙ b.is_struct;
      fields = omega (arith, b.fields);
      fields_small = omega (arith, b.fields_small);
      field = ap (λ (k : ℕ). h'.cells (k + 4)) t3 ∙ f ∙ b.field;
      slot = record {
        vector = v1 ∙ b.slot.vector;
        below = omega (arith, b.slot.below);
        index = omega (arith, b.slot.index);
        small = omega (arith, b.slot.small);
        elements = omega (arith, b.slot.elements);
        apart = λ e. b.slot.apart (omega arith);
      };
      element = ap (λ (k : ℕ). h'.cells (k + i)) v3 ∙ inserted-slot h buckets i key value list;
      bucket_boxed =
          ap is_pair_boxed (
            inserted-head h buckets i key value list
              (omega (arith, b.slot.index, b.slot.elements)));
    }
