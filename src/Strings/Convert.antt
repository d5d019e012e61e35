-- ===== src/Strings/Convert.antt =====
-- Conversions of strings and lists, and `string-append`, in src/string.c. The buffer `g_buf` is a
-- function from the offset to the byte, and its bytes from before are not read.
use mes.Base.{ℕ, zero, suc, ◌+◌, ◌-◌, ◌%◌, not, ◌&&◌, List, ltb, leb, ◌==◌, if◌then◌else◌, length}
use mes.Core.{car, cdr}
use mes.Gc.Snapshot.{size}
use mes.Heap.{
  Heap, Key, object, message, both, Run, ok, abort, out_of_fuel, ◌>>=◌, ◌>>◌, pure, error, type_at,
  car_at, cdr_at, update,
}
use mes.Heap.Alloc.{cons, make_char, make_string}
use mes.Heap.Const.{t_char, t_number, t_string, cell_nil, cell_f, cell_unspecified}
use mes.Strings.{text_of}
use mes.Symbols.{literal}

-- The loop of `bytes_to_list` with `i` bytes still to be consed.
unfoldable pub bytes_to_list : (ℕ → ℕ) → ℕ → ℕ → Heap → Run Heap ℕ
bytes_to_list s zero p = pure p
bytes_to_list s (suc i) p = do
  c ← make_char ((256 + s i) % 256)
  p' ← cons c p
  bytes_to_list s i p'

unfoldable pub string_to_list : ℕ → Heap → Run Heap ℕ
string_to_list string h = bytes_to_list (text_of h string) (car_at h string) cell_nil h

-- A text that stands in the source.
unfoldable pub cstring_to_list : List ℕ → Heap → Run Heap ℕ
cstring_to_list s = bytes_to_list (literal s) (length s) cell_nil

unfoldable pub assert_max_string : ℕ → Heap → Run Heap (Unit {0})
assert_max_string i h =
    if ltb h.max_string i then error Key.system_error (object cell_f) h else ok tt h

-- The characters of a list, with a zero byte behind them, and their number.
unfoldable pub list_to_cstring : ℕ → (ℕ → ℕ) → ℕ → ℕ → Heap → Run Heap ((ℕ → ℕ) × ℕ)
list_to_cstring zero buf i list h = out_of_fuel
list_to_cstring (suc k) buf i list h =
    let rest = list_to_cstring k in
    if list == cell_nil
    then ok (update buf i 0, i) h
    else (do
      assert_max_string i
      x ← car list
      d ← cdr list
      λ h. rest (update buf i (cdr_at h x % 256)) (i + 1) d h)
        h

unfoldable pub list_to_string : ℕ → ℕ → Heap → Run Heap ℕ
list_to_string k list = do (buf, size) ← list_to_cstring k (λ i. 0) 0 list; make_string buf size

-- `memcpy` of `n` bytes of `s` to the offset `at` of the buffer.
abbrev pub paste : (ℕ → ℕ) → ℕ → (ℕ → ℕ) → ℕ → ℕ → ℕ
paste buf at s n i = if leb at i && ltb i (at + n) then s (i - at) else buf i

-- The loop of `string_append`. A string is copied before the length is tested.
unfoldable pub append_loop : ℕ → (ℕ → ℕ) → ℕ → ℕ → Heap → Run Heap ((ℕ → ℕ) × ℕ)
append_loop zero buf size x h = out_of_fuel
append_loop (suc k) buf size x h =
    let string = car_at h x in
    let n = car_at h string in
    let rest = append_loop k (paste buf size (text_of h string) (n + 1)) (size + n) (cdr_at h x) in
    if x == cell_nil
    then ok (buf, size) h
    else if not (type_at h string == t_string)
    then abort
    else (do assert_max_string (size + n); rest) h

unfoldable pub string_append : ℕ → ℕ → Heap → Run Heap ℕ
string_append k x = do (buf, size) ← append_loop k (λ i. 0) 0 x; make_string buf size

unfoldable pub string_set_x : ℕ → ℕ → ℕ → Heap → Run Heap ℕ
string_set_x str k c h =
    let v = cdr_at h str in
    if not (type_at h str == t_string)
    then abort
    else if not (type_at h k == t_number)
    then abort
    else if not (type_at h c == t_char)
    then abort
    else if ltb (car_at h str) (cdr_at h k)
    then error Key.system_error (both (message "value out of range") (object k)) h
    else ok cell_unspecified
        (record h { bytes = update h.bytes v (update (h.bytes v) (cdr_at h k) (cdr_at h c % 256)) })
