-- ===== src/Tests/Hash.antt =====
-- src/hash.c and the bytevectors of src/lib.c on the sample heap.
use mes.Base.{
  ℕ, ◌+◌, ◌*◌, ◌%◌, ◌^◌, ◌<◌, ◌≡◌, refl, ◌≢◌, inl, true, [], ◌∷◌, arith, ◌==◌, if◌then◌else◌,
  is_negative,
}
use mes.Bytevector.{bytevector_u8_ref, bytevector_u8_set_x}
use mes.Bytevector.Access.{bytevector_u8_ref-set_x}
use mes.Core.{assq}
use mes.Hash.{hash_cstring, as_unsigned, get_bucket, hash_set_x_}
use mes.Hash.Bucket.{IsBucket, IsApart}
use mes.Hash.Index.{hash_cstring-negative}
use mes.Hash.Insert.{hash_set_x_-entry, assq-hash_set_x_}
use mes.Heap.{Heap, ok, abort, type_at, car_at, cdr_at, cell}
use mes.Heap.Agree.{grow}
use mes.Heap.Const.{
  t_number, t_pair, t_ref, t_struct, t_symbol, t_vector, cell_nil, cell_unspecified,
}
use mes.Struct.{struct_ref_, struct_set_x_}
use mes.Struct.Access.{IsField, struct_ref_-set_x_}
use mes.Tests.{cells_of, sample, sample-Room}
use mes.Vector.{vector_ref_}
use mes.Vector.Access.{Represents}

hash_cstring-negative_example :
    (i : ℕ) × (hash_cstring (λ k. if k == 0 then 233 else 0) 2 sample ≡ ok i sample)
    × (i + 23 * 37 % 2 ≡ 2 ^ 64)
    × (is_negative i ≡ true)
    × (vector_ref_ 37 (as_unsigned i) sample ≡ abort)
hash_cstring-negative_example =
    hash_cstring-negative (λ k. if k == 0 then 233 else 0) 2 37 sample (omega arith) (omega arith)
      refl (omega arith) (omega arith) (omega arith) refl refl

bytevector_u8_ref-set_x_example :
    (h' : Heap) × (bytevector_u8_set_x 38 39 20 sample ≡ ok cell_unspecified h')
    × (bytevector_u8_ref 38 39 h' ≡ ok 50 (grow h' (cell t_number 0 7)))
bytevector_u8_ref-set_x_example =
    bytevector_u8_ref-set_x sample 38 39 20 39 (refl, refl, omega arith, omega arith)
      (refl, refl, omega arith, omega arith) refl (omega arith) (omega arith)
      (sample-Room (omega arith))

-- A table at 14 with the vector of two buckets at 15, both never written, and a symbol at 12.
abbrev table_heap : Heap
table_heap = record {
  cells = cells_of (
      (12, cell t_symbol 1 0)
      ∷ (14, cell t_struct 5 20)
      ∷ (15, cell t_vector 2 30)
      ∷ (23, cell t_number 0 2)
      ∷ (24, cell t_ref 15 0)
      ∷ (30, cell t_ref 9 0)
      ∷ (31, cell t_ref 9 0)
      ∷ []);
  bytes = λ p i. 0;
  free = 40;
  base = 2;
  arena_size = 100;
  max_string = 1000;
}

abbrev bucket_1 : IsBucket table_heap 14 15 1 9
bucket_1 = record {
  is_struct = refl;
  fields = omega arith;
  fields_small = omega arith;
  field = refl;
  slot = record {
    vector = refl;
    below = omega arith;
    index = omega arith;
    small = omega arith;
    elements = omega arith;
    apart = omega arith;
  };
  element = refl;
  bucket_boxed = refl;
}

abbrev table_apart : IsApart table_heap 14 15 1
table_apart = record {
  table_below = omega arith;
  table_slot = omega arith;
  field_below = omega arith;
  field_slot = omega arith;
}

assq-hash_set_x__example :
    (h' : Heap) × (hash_set_x_ 14 1 12 5 table_heap ≡ ok 5 h')
    × (get_bucket 14 1 h' ≡ ok (15, 41) h')
    × (assq 3 12 41 h' ≡ ok 40 h')
    × (h'.cells 40 ≡ cell t_pair 12 5)
    × (cdr_at h' 41 ≡ cell_nil)
    × ((p : ℕ) → p < 40 → p ≢ 31 → h'.cells p ≡ table_heap.cells p)
assq-hash_set_x__example =
    assq-hash_set_x_ table_heap 2 14 15 1 9 12 5 bucket_1 table_apart (omega arith) (omega arith)
      (inl refl) (omega arith)
      (record { above = omega arith; fits = omega arith; small = omega arith })

hash_set_x_-entry_example :
    (h' : Heap) × (hash_set_x_ 14 1 12 5 table_heap ≡ ok 5 h')
    × (get_bucket 14 1 h' ≡ ok (15, 41) h')
    × (type_at h' 41 ≡ t_pair)
    × (car_at h' 41 ≡ 40)
    × (cdr_at h' 41 ≡ cell_nil)
    × (h'.cells 40 ≡ cell t_pair 12 5)
    × ((p : ℕ) → p < 40 → p ≢ 31 → h'.cells p ≡ table_heap.cells p)
hash_set_x_-entry_example =
    hash_set_x_-entry table_heap 14 15 1 9 12 5 bucket_1 table_apart
      (record { above = omega arith; fits = omega arith; small = omega arith })

abbrev field_3 : IsField table_heap 14 3
field_3 = record {
  is_struct = refl;
  below = omega arith;
  index = omega arith;
  small = omega arith;
  elements = omega arith;
  apart = omega arith;
}

struct_ref_-set_x__example :
    (h' : Heap) × (struct_set_x_ 14 3 12 table_heap ≡ ok cell_unspecified h')
    × Represents table_heap 12 (struct_ref_ 14 3 h')
struct_ref_-set_x__example =
    struct_ref_-set_x_ table_heap 14 3 12 field_3 (omega arith) (omega arith)
      (record { above = omega arith; fits = omega arith; small = omega arith })
