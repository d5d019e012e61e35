-- ===== src/Reader/Radix.antt =====
-- Numbers in base 2, 8 and 16, in src/reader.c.
use mes.Base.{
  ℕ, zero, suc, ◌+◌, ◌-◌, ◌^◌, Bool, ◌||◌, leb, ◌==◌, if◌then◌else◌, add_word, mul_word, neg_word,
}
use mes.Heap.{Run, ok, out_of_fuel, ◌>>=◌}
use mes.Heap.Alloc.{make_number}
use mes.Reader.{readchar, Reader, in_heap, next_char, peeked, between}

-- The loop that the three functions share: the test of a digit and its value differ, and so does
-- the number of bits.
unfoldable pub radix_loop : ℕ → (ℕ → Bool) → (ℕ → ℕ) → ℕ → ℕ → Reader → Run Reader ℕ
radix_loop zero digit_p value bits n r = out_of_fuel
radix_loop (suc k) digit_p value bits n r =
    let c = next_char r.input in
    let rest = radix_loop k digit_p value bits in
    if digit_p c
    then (do _ ← readchar; rest (add_word (mul_word n (2 ^ bits)) (value c))) r
    else ok n (peeked r)

unfoldable pub read_radix : ℕ → (ℕ → Bool) → (ℕ → ℕ) → ℕ → Reader → Run Reader ℕ
read_radix k digit_p value bits r =
    if next_char r.input == b'-'
    then (do
      _ ← readchar
      n ← radix_loop k digit_p value bits 0
      in_heap (make_number (neg_word n)))
        r
    else (do n ← radix_loop k digit_p value bits 0; in_heap (make_number n)) r

abbrev pub decimal_value : ℕ → ℕ
decimal_value c = c - b'0'

abbrev pub hex_value : ℕ → ℕ
hex_value c = if leb b'a' c then c - b'a' + 10 else if leb b'A' c then c - b'A' + 10 else c - b'0'

unfoldable pub reader_read_binary : ℕ → Reader → Run Reader ℕ
reader_read_binary k = read_radix k (between b'0' b'1') decimal_value 1

unfoldable pub reader_read_octal : ℕ → Reader → Run Reader ℕ
reader_read_octal k = read_radix k (between b'0' b'7') decimal_value 3

unfoldable pub is_hex_digit : ℕ → Bool
is_hex_digit c = between b'0' b'9' c || (between b'A' b'F' c || between b'a' b'f' c)

unfoldable pub reader_read_hex : ℕ → Reader → Run Reader ℕ
reader_read_hex k = read_radix k is_hex_digit hex_value 4
