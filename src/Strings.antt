-- ===== src/Strings.antt =====
-- Strings, symbols and keywords of src/string.c.
pub mod Convert
pub mod Append
use mes.Base.{ℕ, Bool, not, ◌&&◌, ◌||◌, ltb, ◌==◌, if◌then◌else◌}
use mes.Heap.{
  Heap, Key, system_error, object, message, both, Run, ok, abort, error, type_at, car_at, cdr_at,
}
use mes.Heap.Alloc.{make_cell, make_char, make_number}
use mes.Heap.Const.{t_keyword, t_number, t_string, cell_f, cell_t}
use mes.Libc.Memory.{char_word, memcmp}

-- The bytes of a string, a symbol or a keyword.
abbrev pub text_of : Heap → ℕ → ℕ → ℕ
text_of h x = h.bytes (cdr_at h x)

unfoldable pub same_text : Heap → ℕ → ℕ → Bool
same_text h a b =
    (a == b)
    || ((cdr_at h a == cdr_at h b)
        || (((car_at h a == 0) && (car_at h b == 0))
            || ((car_at h a == car_at h b)
                && (memcmp (text_of h a) (text_of h b) (car_at h a) == 0))))

unfoldable pub string_equal_p : ℕ → ℕ → Heap → Run Heap ℕ
string_equal_p a b h =
    if ((type_at h a == t_string) && (type_at h b == t_string))
      || ((type_at h a == t_keyword) || (type_at h b == t_keyword))
    then ok (if same_text h a b then cell_t else cell_f) h
    else abort

unfoldable pub symbol_to_string : ℕ → Heap → Run Heap ℕ
symbol_to_string symbol h = make_cell t_string (car_at h symbol) (cdr_at h symbol) h

unfoldable pub symbol_to_keyword : ℕ → Heap → Run Heap ℕ
symbol_to_keyword symbol h = make_cell t_keyword (car_at h symbol) (cdr_at h symbol) h

unfoldable pub keyword_to_string : ℕ → Heap → Run Heap ℕ
keyword_to_string keyword h = make_cell t_string (car_at h keyword) (cdr_at h keyword) h

unfoldable pub string_length : ℕ → Heap → Run Heap ℕ
string_length string h =
    if type_at h string == t_string then make_number (car_at h string) h else abort

-- `p[i]` is a `char`, which is signed on x86.
unfoldable pub string_ref : ℕ → ℕ → Heap → Run Heap ℕ
string_ref str k h =
    if not (type_at h str == t_string)
    then abort
    else if not (type_at h k == t_number)
    then abort
    else if ltb (car_at h str) (cdr_at h k)
    then error Key.system_error (both (message "value out of range") (object k)) h
    else make_char (char_word (text_of h str (cdr_at h k))) h
