-- ===== src/Hash/Insert.antt =====
-- `hash_set_x_` of src/hash.c, and the lookup of the key after it.
use mes.Base.{
  ℕ, suc, ◌+◌, ◌<◌, ◌≡◌, refl, ap, ◌∙◌, ◌≢◌, ◌⊎◌, inl, inr, true, false, ◌||◌, arith, ◌==◌,
}
use mes.Core.{assq_loop, assq}
use mes.Hash.{get_bucket, bucket_list, hash_set_x_}
use mes.Hash.Bucket.{
  IsBucket, get_bucket-ok, entered, acons_ok, IsApart, inserted, inserted-same, inserted-head,
  inserted-entry, is_pair_boxed, inserted-IsBucket,
}
use mes.Heap.{Cell, Heap, ok, type_at, car_at, cdr_at, cell, write}
use mes.Heap.Agree.{Room, grow, Room-grow, Room-mono}
use mes.Heap.Const.{t_pair, t_ref, t_special, t_symbol, cell_nil, cell_unspecified}
use mes.Vector.{vector_set_x_}
use mes.Vector.Access.{IsSlot, is_boxed, stored, vector_set_x_-stored}

stored-boxed_at :
    (h : Heap) (x i e v : ℕ)
    → is_boxed h e ≡ true
    → cdr_at h x ≡ v
    → stored h x i e ≡ write (grow h (cell t_ref e 0)) (v + i) (cell t_ref e 0)
stored-boxed_at h x i e v y c = rw (y, c) refl

assq-first :
    (h : Heap) (k key p e list value : ℕ)
    → p ≢ cell_nil
    → ((type_at h key == t_symbol) || (type_at h key == t_special)) ≡ true
    → h.cells p ≡ cell t_pair e list
    → h.cells e ≡ cell t_pair key value
    → assq (suc k) key p h ≡ ok e h
unfolding assq assq_loop
assq-first h k key p e list value ne kind head entry =
    let t : (type_at h p == t_pair) ≡ true = ground arith in
    let n : (p == cell_nil) ≡ false = ground arith in
    let c : car_at h p ≡ e = ap (λ (c : Cell). c.car) head in
    let f : car_at h e ≡ key = ap (λ (c : Cell). c.car) entry in
    let same : (key == key) ≡ true = ground arith in rw (t, kind, n, c, f, same) refl

-- `vector_set_x_` of the new head.
set_head :
    (h : Heap) (buckets i key value list : ℕ)
    → IsSlot h buckets i
    → Room 3 h
    → vector_set_x_ buckets i (h.free + 1) (entered h key value list)
      ≡ ok cell_unspecified (inserted h buckets i key value list)
set_head h buckets i key value list s r =
    let h1 = entered h key value list in
    let v : h1.cells buckets ≡ h.cells buckets = ground (arith, s.below) in
    let v1 : type_at h1 buckets ≡ type_at h buckets = ap (λ (k : Cell). k.ctype) v in
    let v2 : car_at h1 buckets ≡ car_at h buckets = ap (λ (k : Cell). k.car) v in
    let v3 : cdr_at h1 buckets ≡ cdr_at h buckets = ap (λ (k : Cell). k.cdr) v in
    let slot : IsSlot h1 buckets i = record {
      vector = v1 ∙ s.vector;
      below = omega (arith, s.below);
      index = omega (arith, s.index);
      small = omega (arith, s.small);
      elements = omega (arith, s.elements);
      apart = λ e. s.apart (omega arith);
    } in
    let head : h1.cells (h.free + 1) ≡ cell t_pair h.free list = ground arith in
    let boxed : is_boxed h1 (h.free + 1) ≡ true = ap is_pair_boxed head in
    let room : Room 1 h1 = Room-grow _ _ (Room-grow h _ r) in
    let run = vector_set_x_-stored h1 buckets i (h.free + 1) slot (omega arith) room in
    run
    ∙ ap (λ (g : Heap). ok cell_unspecified g)
        (stored-boxed_at h1 buckets i (h.free + 1) (cdr_at h buckets) boxed v3)

-- `hash_set_x_` with any key puts an entry in front of a bucket. The table is a struct whose field 4
-- refers to the vector of buckets, and the bucket at an index in range a reference to an object
-- that is no number and no character; neither the struct and its field 4 nor the vector's own cell
-- is the slot of the bucket. With room for three cells it returns the value; the bucket at the
-- index is then a pair of a new entry, which holds the key and the value, and the old bucket, or
-- `()` if that was no list. No cell from before changes but the slot of the bucket.
pub hash_set_x_-entry :
    (h : Heap) (table buckets i bucket key value : ℕ)
    → IsBucket h table buckets i bucket
    → IsApart h table buckets i
    → Room 3 h
    → (h' : Heap) × (hash_set_x_ table i key value h ≡ ok value h')
      × (get_bucket table i h' ≡ ok (buckets, h.free + 1) h')
      × (type_at h' (h.free + 1) ≡ t_pair)
      × (car_at h' (h.free + 1) ≡ h.free)
      × (cdr_at h' (h.free + 1) ≡ bucket_list h bucket)
      × (h'.cells h.free ≡ cell t_pair key value)
      × ((p : ℕ) → p < h.free → p ≢ cdr_at h buckets + i → h'.cells p ≡ h.cells p)
unfolding hash_set_x_
hash_set_x_-entry h table buckets i bucket key value b a r =
    let list = bucket_list h bucket in
    let h' = inserted h buckets i key value list in
    let inside : cdr_at h buckets + i < h.free = omega (arith, b.slot.index, b.slot.elements) in
    let head = inserted-head h buckets i key value list inside in
    (
      h',
      rw
          (
            get_bucket-ok h table buckets i bucket b,
            acons_ok h key value list (Room-mono (omega arith) r),
            set_head h buckets i key value list b.slot r,
          )
          refl,
      get_bucket-ok h' table buckets i (h.free + 1)
          (inserted-IsBucket h table buckets i bucket key value list b a),
      ap (λ (c : Cell). c.ctype) head,
      ap (λ (c : Cell). c.car) head,
      ap (λ (c : Cell). c.cdr) head,
      inserted-entry h buckets i key value list inside,
      inserted-same h buckets i key value list,
    )

-- With a key that is a symbol or a special object `assq` finds what `hash_set_x_` puts in front of
-- a bucket of a table as above: with room for three cells it returns the value; the bucket at the
-- index is then a pair of a new entry, which holds the key and the value, and the old bucket, or
-- `()` if that was no list; `assq` of the key in it, with one round or more, is this entry. The key
-- is below `g_free` and not the slot of the bucket, and no other cell from before changes than this
-- slot.
pub assq-hash_set_x_ :
    (h : Heap) (k table buckets i bucket key value : ℕ)
    → IsBucket h table buckets i bucket
    → IsApart h table buckets i
    → key < h.free
    → key ≢ cdr_at h buckets + i
    → (type_at h key ≡ t_symbol) ⊎ (type_at h key ≡ t_special)
    → cell_nil < h.free
    → Room 3 h
    → (h' : Heap) × (hash_set_x_ table i key value h ≡ ok value h')
      × (get_bucket table i h' ≡ ok (buckets, h.free + 1) h')
      × (assq (suc k) key (h.free + 1) h' ≡ ok h.free h')
      × (h'.cells h.free ≡ cell t_pair key value)
      × (cdr_at h' (h.free + 1) ≡ bucket_list h bucket)
      × ((p : ℕ) → p < h.free → p ≢ cdr_at h buckets + i → h'.cells p ≡ h.cells p)
unfolding hash_set_x_
assq-hash_set_x_ h k table buckets i bucket key value b a lt ne ty nil r =
    let list = bucket_list h bucket in
    let h' = inserted h buckets i key value list in
    let inside : cdr_at h buckets + i < h.free = omega (arith, b.slot.index, b.slot.elements) in
    let head = inserted-head h buckets i key value list inside in
    let entry = inserted-entry h buckets i key value list inside in
    (
      h',
      rw
          (
            get_bucket-ok h table buckets i bucket b,
            acons_ok h key value list (Room-mono (omega arith) r),
            set_head h buckets i key value list b.slot r,
          )
          refl,
      get_bucket-ok h' table buckets i (h.free + 1)
          (inserted-IsBucket h table buckets i bucket key value list b a),
      assq-first h' k key (h.free + 1) h.free list value (omega arith) (kind ty) head entry,
      entry,
      ap (λ (c : Cell). c.cdr) head,
      inserted-same h buckets i key value list,
    )
  where
    same_kind : type_at (inserted h buckets i key value (bucket_list h bucket)) key ≡ type_at h key
    same_kind =
        ap (λ (c : Cell). c.ctype)
          (inserted-same h buckets i key value (bucket_list h bucket) key lt ne)

    kind :
        (type_at h key ≡ t_symbol) ⊎ (type_at h key ≡ t_special)
        → ((type_at (inserted h buckets i key value (bucket_list h bucket)) key == t_symbol)
            || (type_at (inserted h buckets i key value (bucket_list h bucket)) key == t_special))
          ≡ true
    kind (inl e) = ground (arith, same_kind)
    kind (inr e) = ground (arith, same_kind)
