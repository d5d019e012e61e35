-- ===== src/Reader/Sexp.antt =====
-- S-expressions in src/reader.c. The three functions that call each other are told apart by a
-- constructor of `Part`; their bodies take the function itself, on fewer rounds, as `read`.
use mes.Base.{ℕ, zero, suc, not, ◌||◌, List, [], ◌∷◌, ◌==◌, if◌then◌else◌}
use mes.Heap.{
  Key, not_a_pair, object, message, both, Run, ok, throw, out_of_fuel, ◌>>=◌, type_at, car_at,
}
use mes.Heap.Alloc.{cons}
use mes.Heap.Const.{t_number, cell_nil, cell_f, cell_t, cell_dot}
use mes.Heap.Symbols.{
  cell_symbol_quote, cell_symbol_quasiquote, cell_symbol_unquote, cell_symbol_unquote_splicing,
  cell_symbol_syntax, cell_symbol_quasisyntax, cell_symbol_unsyntax, cell_symbol_unsyntax_splicing,
}
use mes.Libc.Ctype.{isspace}
use mes.Modules.{Limits}
use mes.Reader.{
  readchar, Reader, eof, in_heap, next_char, peeked, reader_read_line_comment,
  reader_read_block_comment, reader_identifier_p, reader_read_identifier_or_number,
}
use mes.Reader.Character.{reader_read_character, reader_read_string}
use mes.Reader.Radix.{reader_read_binary, reader_read_octal, reader_read_hex}
use mes.Strings.{symbol_to_keyword}
use mes.Symbols.{make_string0}
use mes.Vector.{list_to_vector}

pub data Part : Type 0 where
  sexp_part list_part hash_part : Part

abbrev pub Parser : Type 0
Parser = Part → ℕ → Reader → Run Reader ℕ

-- `(name datum)` for a prefix.
unfoldable pub read_prefixed : Parser → ℕ → Reader → Run Reader ℕ
read_prefixed read name = do
  c ← readchar
  x ← read sexp_part c
  tail ← in_heap (cons x cell_nil)
  in_heap (cons name tail)

-- A prefix `,` with or without `@`.
unfoldable pub read_unquote : Parser → ℕ → ℕ → Reader → Run Reader ℕ
read_unquote read plain splicing r =
    if next_char r.input == b'@'
    then (do _ ← readchar; read_prefixed read splicing) r
    else read_prefixed read plain r

unfoldable pub next_sexp : Parser → Reader → Run Reader ℕ
next_sexp read = do c ← readchar; read sexp_part c

unfoldable pub reader_read_sexp_ : ℕ → Limits → ℕ → Parser → ℕ → Reader → Run Reader ℕ
reader_read_sexp_ k l symbols read c r =
    if c == eof
    then ok cell_nil r
    else if c == 59
    then (do c' ← reader_read_line_comment k c; read sexp_part c') r
    else if (c == 32) || ((c == 9) || ((c == 10) || (c == 12)))
    then next_sexp read r
    else if c == 40
    then (do c' ← readchar; read list_part c') r
    else if c == 41
    then ok cell_nil r
    else if c == b'#'
    then (do c' ← readchar; read hash_part c') r
    else if c == 96
    then read_prefixed read cell_symbol_quasiquote r
    else if c == 44
    then read_unquote read cell_symbol_unquote cell_symbol_unquote_splicing r
    else if c == 39
    then read_prefixed read cell_symbol_quote r
    else if c == 34
    then reader_read_string k r
    else if c == 46
    then (if reader_identifier_p (next_char r.input)
        then reader_read_identifier_or_number k l symbols c (peeked r)
        else ok cell_dot (peeked r))
    else reader_read_identifier_or_number k l symbols c r

unfoldable pub skip_spaces_from : ℕ → ℕ → Reader → Run Reader ℕ
skip_spaces_from zero c r = out_of_fuel
skip_spaces_from (suc k) c r =
    let rest = skip_spaces_from k in if isspace c then (do c' ← readchar; rest c') r else ok c r

-- What starts at `c` behind the white space: a comment, or else the character itself.
unfoldable pub reader_eat_whitespace : ℕ → ℕ → Reader → Run Reader ℕ
reader_eat_whitespace zero c r = out_of_fuel
reader_eat_whitespace (suc k) c r =
    let rest = reader_eat_whitespace k in
    (do
      c ← skip_spaces_from k c
      λ r.
          let p = next_char r.input in
          if c == 59
          then (do c' ← reader_read_line_comment k c; rest c') r
          else if not (c == b'#')
          then ok c r
          else if (p == b'!') || (p == b'|')
          then (do
            s ← readchar
            c' ← readchar
            _ ← reader_read_block_comment k s c'
            c'' ← readchar
            rest c'')
              r
          else ok c (peeked r))
      r

unfoldable pub reader_read_list : ℕ → Parser → ℕ → Reader → Run Reader ℕ
reader_read_list k read c = do
  c ← reader_eat_whitespace k c
  λ r.
      if c == 41
      then ok cell_nil r
      else if c == eof
      then throw not_a_pair (message "EOF in list") r
      else (do
        s ← read sexp_part c
        c' ← readchar
        rest ← read list_part c'
        λ r. if s == cell_dot then ok (car_at r.heap rest) r else in_heap (cons s rest) r)
          r

-- A text that `reader_read_hash` makes before it is needed.
abbrev keyword_message : List ℕ
keyword_message =
    b'k' ∷ b'e' ∷ b'y' ∷ b'w' ∷ b'o' ∷ b'r' ∷ b'd' ∷ 32 ∷ b'p' ∷ b'e' ∷ b'r' ∷ b'i' ∷ b'f' ∷ b'x'
    ∷ 32 ∷ 39 ∷ 58 ∷ 39 ∷ 32 ∷ b'n' ∷ b'o' ∷ b't' ∷ 32 ∷ b'f' ∷ b'o' ∷ b'l' ∷ b'l' ∷ b'o' ∷ b'w'
    ∷ b'e' ∷ b'd' ∷ 32 ∷ b'b' ∷ b'y' ∷ 32 ∷ b'a' ∷ 32 ∷ b's' ∷ b'y' ∷ b'm' ∷ b'b' ∷ b'o' ∷ b'l' ∷ 58
    ∷ 32 ∷ []

-- A keyword: its name is no number.
unfoldable pub read_keyword : ℕ → Limits → ℕ → Reader → Run Reader ℕ
read_keyword k l symbols = do
  c ← readchar
  x ← reader_read_identifier_or_number k l symbols c
  _ ← in_heap (make_string0 keyword_message)
  λ r.
      if type_at r.heap x == t_number
      then throw Key.system_error
          (both (message "keyword perifx ':' not followed by a symbol: ") (object x)) r
      else in_heap (symbol_to_keyword x) r

unfoldable pub reader_read_hash : ℕ → Limits → ℕ → Parser → ℕ → Reader → Run Reader ℕ
reader_read_hash k l symbols read c r =
    if (c == b'!') || (c == b'|')
    then (do c' ← readchar; _ ← reader_read_block_comment k c c'; next_sexp read) r
    else if c == b'f'
    then ok cell_f r
    else if c == b't'
    then ok cell_t r
    else if c == 44
    then read_unquote read cell_symbol_unsyntax cell_symbol_unsyntax_splicing r
    else if c == 39
    then read_prefixed read cell_symbol_syntax r
    else if c == 96
    then read_prefixed read cell_symbol_quasisyntax r
    else if c == b':'
    then read_keyword k l symbols r
    else if c == b'b'
    then reader_read_binary k r
    else if c == b'o'
    then reader_read_octal k r
    else if c == b'x'
    then reader_read_hex k r
    else if c == 92
    then reader_read_character k r
    else if c == 40
    then (do c' ← readchar; x ← read list_part c'; in_heap (list_to_vector l.rounds x)) r
    else if c == 59
    then (do _ ← next_sexp read; next_sexp read) r
    else next_sexp read r

unfoldable pub read_part : ℕ → Limits → ℕ → Parser
read_part zero l symbols part c r = out_of_fuel
read_part (suc k) l symbols part c r =
    let read = read_part k l symbols in
    elim part [
      | sexp_part ↦ reader_read_sexp_ k l symbols read c r
      | list_part ↦ reader_read_list k read c r
      | hash_part ↦ reader_read_hash k l symbols read c r
    ]

unfoldable pub read_env : ℕ → Limits → ℕ → Reader → Run Reader ℕ
read_env k l symbols = next_sexp (read_part k l symbols)

-- `read_input_file_env_` stops at the first datum that is `()`, which the end of the input is too.
-- A datum is read before the rest and consed after it.
unfoldable pub read_input_file_env_ : ℕ → Limits → ℕ → ℕ → Reader → Run Reader ℕ
read_input_file_env_ zero l symbols e r = out_of_fuel
read_input_file_env_ (suc k) l symbols e r =
    let rest = read_input_file_env_ k l symbols in
    if e == cell_nil
    then ok e r
    else (do e' ← read_env k l symbols; tail ← rest e'; in_heap (cons e tail)) r

unfoldable pub read_input_file_env : ℕ → Limits → ℕ → Reader → Run Reader ℕ
read_input_file_env k l symbols = do e ← read_env k l symbols; read_input_file_env_ k l symbols e
