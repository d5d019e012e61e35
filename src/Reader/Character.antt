-- ===== src/Reader/Character.antt =====
-- Characters and strings in src/reader.c.
use mes.Base.{
  ℕ, zero, suc, ◌+◌, ◌-◌, ◌*◌, ◌%◌, Bool, true, false, ◌&&◌, ◌||◌, List, [], ◌∷◌, ◌++◌, ltb, ◌==◌,
  if◌then◌else◌,
}
use mes.Heap.{Key, message, Run, ok, throw, out_of_fuel, ◌>>=◌, ◌>>◌, pure, cdr_at, update}
use mes.Heap.Alloc.{make_char, make_string}
use mes.Reader.{readchar, peekchar, Reader, eof, in_heap, next_char, peeked, between}
use mes.Reader.Radix.{reader_read_hex}
use mes.Strings.Convert.{assert_max_string}

-- An `int` as a `long`.
abbrev pub long_of : ℕ → ℕ
long_of c = if ltb c 2147483648 then c else c + 18446744069414584320

unfoldable pub octal_loop : ℕ → ℕ → Reader → Run Reader ℕ
octal_loop zero c r = out_of_fuel
octal_loop (suc k) c r =
    let rest = octal_loop k in
    if between b'0' b'7' (next_char r.input)
    then (do d ← readchar; rest ((c * 8 + d - b'0') % 4294967296)) r
    else ok c (peeked r)

abbrev pub name_char : ℕ → Bool
name_char c = between b'a' b'z' c || (c == b'*')

unfoldable pub name_loop : ℕ → List ℕ → Reader → Run Reader (List ℕ)
name_loop zero buf r = out_of_fuel
name_loop (suc k) buf r =
    let rest = name_loop k in
    if name_char (next_char r.input)
    then (do c ← readchar; rest (buf ++ c ∷ [])) r
    else ok buf (peeked r)

abbrev pub char_names : List (List ℕ × ℕ)
char_names =
    (b'*' ∷ b'e' ∷ b'o' ∷ b'f' ∷ b'*' ∷ [], eof)
    ∷ (b'n' ∷ b'u' ∷ b'l' ∷ [], 0)
    ∷ (b'a' ∷ b'l' ∷ b'a' ∷ b'r' ∷ b'm' ∷ [], 7)
    ∷ (b'b' ∷ b'a' ∷ b'c' ∷ b'k' ∷ b's' ∷ b'p' ∷ b'a' ∷ b'c' ∷ b'e' ∷ [], 8)
    ∷ (b't' ∷ b'a' ∷ b'b' ∷ [], 9)
    ∷ (b'l' ∷ b'i' ∷ b'n' ∷ b'e' ∷ b'f' ∷ b'e' ∷ b'e' ∷ b'd' ∷ [], 10)
    ∷ (b'n' ∷ b'e' ∷ b'w' ∷ b'l' ∷ b'i' ∷ b'n' ∷ b'e' ∷ [], 10)
    ∷ (b'v' ∷ b't' ∷ b'a' ∷ b'b' ∷ [], 11)
    ∷ (b'p' ∷ b'a' ∷ b'g' ∷ b'e' ∷ [], 12)
    ∷ (b'r' ∷ b'e' ∷ b't' ∷ b'u' ∷ b'r' ∷ b'n' ∷ [], 13)
    ∷ (b'e' ∷ b's' ∷ b'c' ∷ [], 27)
    ∷ (b's' ∷ b'p' ∷ b'a' ∷ b'c' ∷ b'e' ∷ [], 32)
    ∷ (b'b' ∷ b'e' ∷ b'l' ∷ [], 7)
    ∷ (b'b' ∷ b's' ∷ [], 8)
    ∷ (b'h' ∷ b't' ∷ [], 9)
    ∷ (b'n' ∷ b'l' ∷ [], 10)
    ∷ (b'v' ∷ b't' ∷ [], 11)
    ∷ (b'n' ∷ b'p' ∷ [], 12)
    ∷ (b'c' ∷ b'r' ∷ [], 13)
    ∷ (b'f' ∷ b's' ∷ [], 28)
    ∷ []

abbrev pub same_name : List ℕ → List ℕ → Bool
same_name [] [] = true
same_name [] (d ∷ ds) = false
same_name (c ∷ cs) [] = false
same_name (c ∷ cs) (d ∷ ds) = (c == d) && same_name cs ds

unfoldable pub find_name : List (List ℕ × ℕ) → List ℕ → Reader → Run Reader ℕ
find_name [] name r = throw Key.system_error (message "char not supported") r
find_name ((s, c) ∷ names) name r = if same_name s name then ok c r else find_name names name r

-- The letters of a hexadecimal digit are tested as the source has them: `F` only.
unfoldable pub reader_read_character : ℕ → Reader → Run Reader ℕ
reader_read_character k = do
  c ← readchar
  p ← peekchar
  λ r.
      (do
        code ←
            (if between b'0' b'7' c && between b'0' b'7' p
              then octal_loop k (c - b'0')
              else if (c == b'x') && (between b'0' b'9' p || (between b'a' b'f' p || (p == b'F')))
              then (do n ← reader_read_hex k; λ r. ok (cdr_at r.heap n % 4294967296) r)
              else if name_char c && name_char p
              then (do name ← name_loop k (c ∷ []); find_name char_names name)
              else pure c)
        in_heap (make_char (long_of code)))
        r

-- The character that stands for an escape, `\x` left aside.
abbrev pub escape : ℕ → ℕ
escape c =
    if c == b'0'
    then 0
    else if c == b'a'
    then 7
    else if c == b'b'
    then 8
    else if c == b't'
    then 9
    else if c == b'n'
    then 10
    else if c == b'v'
    then 11
    else if c == b'f'
    then 12
    else if c == b'r'
    then 13
    else if c == b'e'
    then 27
    else c

unfoldable pub read_escape : ℕ → Reader → Run Reader ℕ
read_escape k = do
  c ← readchar
  λ r.
      if c == b'x'
      then (do n ← reader_read_hex k; λ r. ok (cdr_at r.heap n) r) r
      else ok (escape c) r

-- The loop of `reader_read_string`.
unfoldable pub string_loop : ℕ → (ℕ → ℕ) → ℕ → Reader → Run Reader ((ℕ → ℕ) × ℕ)
string_loop zero buf i r = out_of_fuel
string_loop (suc k) buf i r =
    let rest = string_loop k in
    (do
      in_heap (assert_max_string i)
      c ← readchar
      λ r.
          if c == 34
          then ok (update buf i 0, i) r
          else (do
            c' ← (if c == 92 then read_escape k else pure c)
            rest (update buf i (c' % 256)) (i + 1))
              r)
      r

unfoldable pub reader_read_string : ℕ → Reader → Run Reader ℕ
reader_read_string k = do (buf, i) ← string_loop k (λ i. 0) 0; in_heap (make_string buf i)
