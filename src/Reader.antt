-- ===== src/Reader.antt =====
-- The reader of src/reader.c, on a file descriptor. Its input is the list of the bytes to come: `readchar` takes one, or
-- is EOF at the end, and `unreadchar` gives one back. The environment that the functions of the
-- source pass on is never read and left out.
pub mod Character
pub mod Radix
pub mod Sexp
pub mod Value
pub mod Digits
use mes.Base.{
  ℕ, zero, suc, Bool, true, false, not, ◌&&◌, ◌||◌, List, [], ◌∷◌, ◌++◌, ltb, leb, ◌==◌,
  if◌then◌else◌, drop, add_word, sub_word, mul_word, neg_word,
}
use mes.Heap.{
  Heap, Key, system_error, message, Run, ok, throw, abort, out_of_fuel, ◌>>=◌, ◌>>◌, pure,
}
use mes.Heap.Alloc.{make_number}
use mes.Heap.Const.{cell_unspecified}
use mes.Libc.Ctype.{isdigit, isspace}
use mes.Modules.{Limits}
use mes.Symbols.{cstring_to_symbol}

pub record Reader : Type 0 where
  pub heap : Heap
  pub input : List ℕ
  pub unread : Bool

-- A character is an `int`; EOF is -1.
abbrev pub eof : ℕ
eof = 4294967295

abbrev pub in_heap : {A : Type 0} → (Heap → Run Heap A) → Reader → Run Reader A
in_heap f r = elim (f r.heap) [
  | ok a h ↦ ok a (record r { heap = h })
  | throw key x h ↦ throw key x (record r { heap = h })
  | abort ↦ abort
  | out_of_fuel ↦ out_of_fuel
]

unfoldable pub next_char : List ℕ → ℕ
next_char [] = eof
next_char (c ∷ cs) = c

-- A character that is not EOF has been read and given back.
abbrev pub peeked : Reader → Reader
peeked r = record r { unread = not (next_char r.input == eof) }

unfoldable pub peekchar : Reader → Run Reader ℕ
peekchar r = ok (next_char r.input) (peeked r)

unfoldable pub readchar : Reader → Run Reader ℕ
readchar r = ok (next_char r.input) (record r { input = drop 1 r.input; unread = false })

unfoldable pub unreadchar : ℕ → Reader → Run Reader (Unit {0})
unreadchar c r =
    if c == eof
    then ok tt r
    else if r.unread
    then abort
    else ok tt (record r { input = c ∷ r.input; unread = true })

abbrev pub between : ℕ → ℕ → ℕ → Bool
between a b c = leb a c && leb c b

-- A loop takes the number of characters that it may read as its first argument.
unfoldable pub reader_read_line_comment : ℕ → ℕ → Reader → Run Reader ℕ
reader_read_line_comment zero c r = out_of_fuel
reader_read_line_comment (suc k) c r =
    let rest = reader_read_line_comment k in
    if c == eof
    then throw Key.system_error (message "reader_read_line_comment") r
    else if c == 10
    then ok c r
    else (do c' ← readchar; rest c') r

unfoldable pub reader_read_block_comment : ℕ → ℕ → ℕ → Reader → Run Reader ℕ
reader_read_block_comment zero s c r = out_of_fuel
reader_read_block_comment (suc k) s c r =
    let rest = reader_read_block_comment k s in
    if (c == s) && (next_char r.input == b'#')
    then (do _ ← readchar; pure cell_unspecified) r
    else (do c' ← readchar; rest c') r

unfoldable pub reader_identifier_p : ℕ → Bool
reader_identifier_p c =
    (ltb 32 c && leb c 126)
    && (not (c == 34) && (not (c == 59) && (not (c == 40) && (not (c == 41) && not (c == eof)))))

unfoldable pub reader_end_of_word_p : ℕ → Bool
reader_end_of_word_p c =
    (c == 34) || ((c == 59) || ((c == 40) || ((c == 41) || (isspace c || (c == eof)))))

-- The digits from `c` on: the text and the number with them, and the character behind.
unfoldable pub read_digits : ℕ → ℕ → List ℕ → ℕ → Reader → Run Reader (ℕ × List ℕ × ℕ)
read_digits zero c buf n r = out_of_fuel
read_digits (suc k) c buf n r =
    let rest = read_digits k in
    if isdigit c
    then (do c' ← readchar; rest c' (buf ++ c ∷ []) (sub_word (add_word (mul_word n 10) c) b'0')) r
    else ok (c, buf, n) r

-- The rest of a word from `c` on.
unfoldable pub read_word : ℕ → ℕ → List ℕ → Reader → Run Reader (ℕ × List ℕ)
read_word zero c buf r = out_of_fuel
read_word (suc k) c buf r =
    let rest = read_word k in
    if reader_end_of_word_p c then ok (c, buf) r else (do c' ← readchar; rest c' (buf ++ c ∷ [])) r

-- A text in `g_buf` ends at its first zero byte.
abbrev pub until_zero : List ℕ → List ℕ
until_zero [] = []
until_zero (c ∷ cs) = if c == 0 then [] else c ∷ until_zero cs

-- A sign is dropped where a digit follows it.
unfoldable pub skip_sign : ℕ → Reader → Run Reader (Bool × ℕ)
skip_sign c r =
    if c == b'+'
    then (if isdigit (next_char r.input)
        then (do c' ← readchar; skip_minus c') r
        else skip_minus c (peeked r))
    else skip_minus c r
  where
    skip_minus : ℕ → Reader → Run Reader (Bool × ℕ)
    skip_minus c r =
        if c == b'-'
        then (if isdigit (next_char r.input)
            then (do c' ← readchar; pure (true, c')) r
            else ok (false, c) (peeked r))
        else ok (false, c) r

-- `k` bounds the characters, `l` the loops of the symbol table `symbols`.
unfoldable pub reader_read_identifier_or_number : ℕ → Limits → ℕ → ℕ → Reader → Run Reader ℕ
reader_read_identifier_or_number k l symbols c = do
  (negative_p, c) ← skip_sign c
  (c, buf, n) ← read_digits k c [] 0
  λ r.
      if reader_end_of_word_p c
      then (do unreadchar c; in_heap (make_number (if negative_p then neg_word n else n))) r
      else (do
        (c, buf) ← read_word k c buf
        unreadchar c
        in_heap (cstring_to_symbol l.depth l.rounds symbols (until_zero buf)))
          r
