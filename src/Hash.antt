-- ===== src/Hash.antt =====
-- src/hash.c: hash tables of association lists. A table is a struct whose element 3 is the number
-- of buckets and element 4 the vector of buckets; a bucket that was never written holds
-- `*unspecified*`.
pub mod Index
pub mod Bucket
pub mod Insert
use mes.Base.{
  ℕ, zero, suc, ◌%◌, ◌^◌, true, false, not, ◌&&◌, ◌||◌, ◌==◌, if◌then◌else◌, is_negative, add_word,
  mul_word, neg_word,
}
use mes.Core.{values, assq}
use mes.Heap.{
  Heap, not_a_number, system_error, object, message, both, Run, ok, abort, out_of_fuel, and_then,
  ◌>>=◌, ◌>>◌, pure, error, type_at, car_at, cdr_at, write_cdr,
}
use mes.Heap.Alloc.{cons, acons, make_number}
use mes.Heap.Const.{
  t_number, t_pair, t_special, t_string, t_symbol, cell_nil, cell_f, cell_t, cell_unspecified,
}
use mes.Libc.Memory.{char_word}
use mes.Library.{equal2_p, assoc}
use mes.Strings.{text_of}
use mes.Struct.{make_struct, struct_ref_, struct_set_x_}
use mes.Vector.{make_vector_, vector_ref_, vector_set_x_}

-- `a % b` on `long`, for `b` above 0: the remainder has the sign of `a`.
abbrev pub rem_word : ℕ → ℕ → ℕ
rem_word a b = if is_negative a then neg_word (neg_word a % b) else a % b

-- The `int` result as a word; `s` is the text.
unfoldable pub hash_cstring : (ℕ → ℕ) → ℕ → Heap → Run Heap ℕ
hash_cstring s size h =
    let first = mul_word (char_word (s 0)) 37 in
    let hash =
      if not (s 0 == 0) && not (s 1 == 0)
      then add_word first (mul_word (char_word (s 1)) 43)
      else first in
    if size == 0 then abort else ok (rem_word hash size) h

unfoldable pub hashq_ : ℕ → ℕ → Heap → Run Heap ℕ
hashq_ x size h =
    if (type_at h x == t_special) || (type_at h x == t_symbol)
    then hash_cstring (text_of h x) size h
    else error system_error (both (message "hashq_: not a symbol") (object x)) h

unfoldable pub hash_ : ℕ → ℕ → Heap → Run Heap ℕ
hash_ x size h = if type_at h x == t_string then hash_cstring (text_of h x) size h else ok 0 h

-- The conversion from `int` to `unsigned`.
abbrev pub as_unsigned : ℕ → ℕ
as_unsigned w = w % 2 ^ 32

-- `struct_ref_ (table, 3)->value` and the index of the key's bucket.
unfoldable pub bucket_index : (ℕ → ℕ → Heap → Run Heap ℕ) → ℕ → ℕ → Heap → Run Heap ℕ
bucket_index hash table key = do
  s ← struct_ref_ table 3
  λ h. (do i ← hash key (cdr_at h s); pure (as_unsigned i)) h

-- The vector of buckets and the bucket at `i`.
unfoldable pub get_bucket : ℕ → ℕ → Heap → Run Heap (ℕ × ℕ)
get_bucket table i = do
  buckets ← struct_ref_ table 4
  bucket ← vector_ref_ buckets i
  pure (buckets, bucket)

unfoldable pub hashq_get_handle : ℕ → ℕ → ℕ → Heap → Run Heap ℕ
hashq_get_handle k table key = do
  i ← bucket_index hashq_ table key
  (_, bucket) ← get_bucket table i
  λ h. if type_at h bucket == t_pair then assq k key bucket h else ok cell_f h

unfoldable pub hashq_ref_ : ℕ → ℕ → ℕ → ℕ → Heap → Run Heap ℕ
hashq_ref_ k table key dflt = do
  x ← hashq_get_handle k table key
  λ h. if x == cell_f then ok dflt h else ok (cdr_at h x) h

unfoldable pub hash_ref_ : ℕ → ℕ → ℕ → ℕ → ℕ → Heap → Run Heap ℕ
hash_ref_ depth k table key dflt = do
  i ← bucket_index hash_ table key
  (_, bucket) ← get_bucket table i
  λ h.
      if type_at h bucket == t_pair
      then (do
        x ← assoc depth k key bucket
        λ h. if x == cell_f then ok dflt h else ok (cdr_at h x) h)
          h
      else ok dflt h

-- A bucket that is no list counts as empty.
abbrev pub bucket_list : Heap → ℕ → ℕ
bucket_list h bucket = if type_at h bucket == t_pair then bucket else cell_nil

-- The new entry goes in front of the bucket, whether the key has an entry or not.
unfoldable pub hash_set_x_ : ℕ → ℕ → ℕ → ℕ → Heap → Run Heap ℕ
hash_set_x_ table hash key value = do
  (buckets, bucket) ← get_bucket table hash
  λ h.
      (do
        bucket' ← acons key value (bucket_list h bucket)
        _ ← vector_set_x_ buckets hash bucket'
        pure value)
        h

unfoldable pub hashq_set_x : ℕ → ℕ → ℕ → Heap → Run Heap ℕ
hashq_set_x table key value = do i ← bucket_index hashq_ table key; hash_set_x_ table i key value

unfoldable pub hash_set_x : ℕ → ℕ → ℕ → Heap → Run Heap ℕ
hash_set_x table key value = do i ← bucket_index hash_ table key; hash_set_x_ table i key value

unfoldable pub create_handle_x : ℕ → ℕ → ℕ → ℕ → ℕ → Heap → Run Heap ℕ
create_handle_x k table key index init = do
  (buckets, bucket) ← get_bucket table index
  λ h.
      let list = bucket_list h bucket in
      (do
        handle ← assq k key list
        λ h.
            if handle == cell_f
            then (do
              handle' ← cons key init
              bucket' ← cons handle' list
              _ ← vector_set_x_ buckets index bucket'
              pure handle')
                h
            else ok handle h)
        h

unfoldable pub hashq_create_handle_x : ℕ → ℕ → ℕ → ℕ → Heap → Run Heap ℕ
hashq_create_handle_x k table key init = do
  i ← bucket_index hashq_ table key
  create_handle_x k table key i init

unfoldable pub hash_create_handle_x : ℕ → ℕ → ℕ → ℕ → Heap → Run Heap ℕ
hash_create_handle_x k table key init = do
  i ← bucket_index hash_ table key
  create_handle_x k table key i init

-- The entries of `key` at the front of the bucket are skipped.
unfoldable pub skip_key : ℕ → ℕ → ℕ → ℕ → Heap → Run Heap ℕ
skip_key depth zero key bucket h = out_of_fuel
skip_key depth (suc k) key bucket h =
    let rest = skip_key depth k key (cdr_at h bucket) in
    if bucket == cell_nil
    then ok bucket h
    else and_then (equal2_p depth key (car_at h (car_at h bucket)) h)
        (λ r h'. elim (r == cell_t) [ true ↦ rest h' | false ↦ ok bucket h' ])

-- Those behind the pair `p` are unlinked; `b` is the pair looked at.
unfoldable pub unlink_key : ℕ → ℕ → ℕ → ℕ → ℕ → Heap → Run Heap (Unit {0})
unlink_key depth zero key p b h = out_of_fuel
unlink_key depth (suc k) key p b h =
    let unlinked =
      λ (h' : Heap). unlink_key depth k key p (cdr_at h' b) (write_cdr h' p (cdr_at h' b)) in
    let kept = λ (h' : Heap). unlink_key depth k key b (cdr_at h' b) h' in
    if b == cell_nil
    then ok tt h
    else and_then (equal2_p depth key (car_at h (car_at h b)) h)
        (λ r h'. elim (r == cell_t) [ true ↦ unlinked h' | false ↦ kept h' ])

unfoldable pub hash_remove_x : ℕ → ℕ → ℕ → ℕ → Heap → Run Heap ℕ
hash_remove_x depth k table key = do
  i ← bucket_index hash_ table key
  (buckets, first) ← get_bucket table i
  bucket ← skip_key depth k key first
  (λ h. if bucket == cell_nil then ok tt h else unlink_key depth k key bucket (cdr_at h bucket) h)
  _ ← vector_set_x_ buckets i bucket
  pure cell_unspecified

-- `make_hash_table_` with the type of hash tables at hand; `names` are the symbols
-- `<hashq-table>`, and `k` bounds the length of the field list.
unfoldable pub make_hash_table_ : ℕ → ℕ → ℕ → ℕ → Heap → Run Heap ℕ
make_hash_table_ k table_type hashq_table size =
    let size' = if size == 0 then 100 else size in
    (do
      buckets ← make_vector_ size' cell_unspecified
      values ← cons buckets cell_nil
      n ← make_number size'
      values ← cons n values
      values ← cons hashq_table values
      make_struct k table_type values cell_unspecified)

unfoldable pub make_hash_table : ℕ → ℕ → ℕ → ℕ → Heap → Run Heap ℕ
make_hash_table k table_type hashq_table x h =
    let n = car_at h x in
    if not (type_at h x == t_pair)
    then make_hash_table_ k table_type hashq_table 0 h
    else if type_at h n == t_number
    then make_hash_table_ k table_type hashq_table (cdr_at h n) h
    else error not_a_number (object n) h

unfoldable pub hash_buckets : ℕ → Heap → Run Heap ℕ
hash_buckets table = struct_ref_ table 4

unfoldable pub hash_clear_x : ℕ → Heap → Run Heap ℕ
hash_clear_x table = do
  s ← struct_ref_ table 3
  λ h.
      (do
        buckets ← make_vector_ (cdr_at h s) cell_unspecified
        _ ← struct_set_x_ table 4 buckets
        pure cell_unspecified)
        h
