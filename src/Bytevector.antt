-- ===== src/Bytevector.antt =====
-- The bytevectors of src/lib.c. A `char` is a byte; the code takes care of its sign, so that the
-- value of a byte is a number below 256.
pub mod Access
use Prim.Native.String.{String}
use mes.Base.{
  ℕ, ◌%◌, not, ◌&&◌, ◌||◌, Option, none, some, ltb, leb, ◌==◌, if◌then◌else◌, is_negative, add_word,
  sub_word, sle,
}
use mes.Heap.{
  Heap, system_error, wrong_type_arg, wrong_number_of_args, object, named, message, both, Run, ok,
  ◌>>=◌, ◌>>◌, error, type_at, car_at, cdr_at,
}
use mes.Heap.Alloc.{make_bytes, make_number}
use mes.Heap.Const.{t_bytes, t_number, t_pair, cell_nil, cell_unspecified}
use mes.Libc.Memory.{char_word}

-- The bounds check of the accessors, and the check that the index is a number.
unfoldable pub check_index : String → String → ℕ → ℕ → Heap → Run Heap (Unit {0})
check_index name text bv k h =
    if not (type_at h bv == t_bytes)
    then error wrong_type_arg (both (object bv) (named name)) h
    else if not (type_at h k == t_number)
    then error wrong_type_arg (both (object k) (named name)) h
    else if is_negative (cdr_at h k) || sle (car_at h bv) (cdr_at h k)
    then error system_error (both (message text) (object k)) h
    else ok tt h

abbrev pub ref_name : String
ref_name = "bytevector-u8-ref"

abbrev pub set_name : String
set_name = "bytevector-u8-set!"

unfoldable pub bytevector_u8_ref : ℕ → ℕ → Heap → Run Heap ℕ
bytevector_u8_ref bv k = do
  check_index ref_name "bytevector-u8-ref: index out of range" bv k
  λ h.
      let i = char_word (h.bytes bv (cdr_at h k)) in
      if is_negative i then make_number (add_word 256 i) h else make_number i h

abbrev pub store_byte : ℕ → ℕ → ℕ → Heap → Heap
store_byte p i c h = record h { bytes = λ q j. if (q == p) && (j == i) then c else h.bytes q j }

-- A `char` is signed here: a value of 128 or more is stored as the `char` 256 below it, which has
-- the same bits.
unfoldable pub bytevector_u8_set_x : ℕ → ℕ → ℕ → Heap → Run Heap ℕ
bytevector_u8_set_x bv k value = do
  check_index set_name "bytevector-u8-set!: index out of range" bv k
  λ h.
      if not (type_at h value == t_number)
      then error wrong_type_arg (both (object value) (named set_name)) h
      else if is_negative (cdr_at h value) || sle 256 (cdr_at h value)
      then error system_error
          (both (message "bytevector-u8-set!: value out of range") (object value)) h
      else let v = cdr_at h value in
        ok cell_unspecified
          (store_byte bv (cdr_at h k) ((if leb 128 v then sub_word v 256 else v) % 256) h)

abbrev pub make_name : String
make_name = "make-bytevector"

-- The optional second argument of `make-bytevector`, and what is left of the arguments.
unfoldable pub initial_byte : ℕ → ℕ → Heap → Run Heap (Option ℕ × ℕ)
initial_byte size args h =
    let init = car_at h args in
    if not (type_at h args == t_pair)
    then ok (none, args) h
    else if not (type_at h init == t_number)
    then error wrong_type_arg (both (object size) (named make_name)) h
    else if is_negative (cdr_at h init) || sle 256 (cdr_at h init)
    then error system_error (both (message "make-bytevector: value out of range") (object init)) h
    else ok (some (cdr_at h init), cdr_at h args) h

-- The bytes of a new bytevector: filled, or what the memory held.
abbrev pub fill_bytes : ℕ → ℕ → Option ℕ → Heap → Heap
fill_bytes p size none h = if size == 0 then store_byte p 0 0 h else h
fill_bytes p size (some v) h =
    if size == 0
    then store_byte p 0 0 h
    else record h { bytes = λ q j. if (q == p) && ltb j size then v % 256 else h.bytes q j }

unfoldable pub make_bytevector : ℕ → Heap → Run Heap ℕ
make_bytevector args h =
    let size = car_at h args in
    if not (type_at h args == t_pair)
    then error wrong_number_of_args (named make_name) h
    else if not (type_at h size == t_number)
    then error wrong_type_arg (both (object size) (named make_name)) h
    else (do
      (init, rest) ← initial_byte size (cdr_at h args)
      λ h.
          if not (rest == cell_nil)
          then error wrong_number_of_args (named make_name) h
          else (do
            result ← make_bytes (cdr_at h size)
            λ h. ok result (fill_bytes result (cdr_at h size) init h))
              h)
        h
