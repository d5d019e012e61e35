-- ===== src/Bytevector/Access.antt =====
-- Reading and writing bytes.
use Prim.Native.String.{String}
use mes.Base.{
  ℕ, ◌%◌, ◌^◌, ◌<◌, ◌≡◌, inl, inr, true, false, ◌||◌, arith, leb, ◌==◌, if◌then◌else◌, Bool-cases,
  is_negative, add_word, sub_word, sle,
}
use mes.Bytevector.{
  check_index, ref_name, set_name, bytevector_u8_ref, store_byte, bytevector_u8_set_x,
}
use mes.Heap.{Heap, ok, type_at, car_at, cdr_at, cell}
use mes.Heap.Agree.{Room, grow, make_cell_ok}
use mes.Heap.Const.{t_bytes, t_number, cell_unspecified}
use mes.Libc.Memory.{char_word}

abbrev pub IsIndex : Heap → ℕ → ℕ → Type 0
IsIndex h bv k =
    (type_at h bv ≡ t_bytes)
    × (type_at h k ≡ t_number)
    × (cdr_at h k < car_at h bv)
    × (car_at h bv < 2 ^ 63)

check_index-ok :
    (name text : String) (bv k : ℕ) (h : Heap)
    → IsIndex h bv k
    → check_index name text bv k h ≡ ok tt h
unfolding check_index
check_index-ok name text bv k h (tb, tk, lt, small) =
    let t : (type_at h bv == t_bytes) ≡ true = ground arith in
    let t' : (type_at h k == t_number) ≡ true = ground arith in
    let r : (is_negative (cdr_at h k) || sle (car_at h bv) (cdr_at h k)) ≡ false = ground arith in
    rw (t, t', r)

-- A read makes a number of the byte.
bytevector_u8_ref-ok :
    (bv k c : ℕ) (h : Heap)
    → IsIndex h bv k
    → h.bytes bv (cdr_at h k) ≡ c
    → c < 256
    → Room 1 h
    → bytevector_u8_ref bv k h ≡ ok h.free (grow h (cell t_number 0 c))
unfolding bytevector_u8_ref
bytevector_u8_ref-ok bv k c h i e lt r =
    let n : is_negative (char_word c) ≡ leb 128 c = ground arith in
    elim (Bool-cases (leb 128 c)) [
      | inl high ↦
          let a : add_word 256 (char_word c) ≡ c = ground arith in
          rw
            (
              check_index-ok ref_name "bytevector-u8-ref: index out of range" bv k h i,
              e,
              n,
              a,
              high,
            )
            (make_cell_ok t_number 0 c h r)
      | inr low ↦
          let a : char_word c ≡ c = ground arith in
          rw
            (check_index-ok ref_name "bytevector-u8-ref: index out of range" bv k h i, e, n, a, low)
            (make_cell_ok t_number 0 c h r)
    ]

-- With a bytevector, an index in its range and a byte value, `bytevector-u8-set!` succeeds, and
-- `bytevector-u8-ref` then reads, in a new number, the value at this index and at every other
-- index the byte that was there before.
pub bytevector_u8_ref-set_x :
    (h : Heap) (bv k value j : ℕ)
    → IsIndex h bv k
    → IsIndex h bv j
    → type_at h value ≡ t_number
    → cdr_at h value < 256
    → h.bytes bv (cdr_at h j) < 256
    → Room 1 h
    → (h' : Heap) × (bytevector_u8_set_x bv k value h ≡ ok cell_unspecified h')
      × (bytevector_u8_ref bv j h'
          ≡ ok h.free (
              grow h' (
                cell t_number 0
                  (if cdr_at h j == cdr_at h k then cdr_at h value else h.bytes bv (cdr_at h j)))))
unfolding bytevector_u8_set_x
bytevector_u8_ref-set_x h bv k value j ik ij tv lt old r =
    let v = if leb 128 (cdr_at h value) then sub_word (cdr_at h value) 256 else cdr_at h value in
    let h' = store_byte bv (cdr_at h k) (v % 256) h in
    let t : (type_at h value == t_number) ≡ true = ground arith in
    let b : (is_negative (cdr_at h value) || sle 256 (cdr_at h value)) ≡ false = ground arith in
    let m : v % 256 ≡ cdr_at h value = ground arith in
    (
      h',
      rw (check_index-ok set_name "bytevector-u8-set!: index out of range" bv k h ik, t, b),
      bytevector_u8_ref-ok bv j
          (if cdr_at h j == cdr_at h k then cdr_at h value else h.bytes bv (cdr_at h j)) h' ij
          (ground arith) (ground arith)
          (record { above = r.above; fits = r.fits; small = r.small }),
    )
