-- ===== src/Ports.antt =====
-- The input of src/posix.c: file descriptors, and string ports, which have negative numbers. A
-- `char` of a string is signed, as it is on x86; an `int` is its bit pattern, and EOF is -1.
pub mod Unread
use mes.Base.{
  ℕ, zero, suc, ◌+◌, ◌-◌, ◌%◌, ◌&&◌, List, [], ◌∷◌, ltb, ◌==◌, if◌then◌else◌, length, is_negative,
  sub_word, neg_word,
}
use mes.Core.{list_length}
use mes.Heap.{
  Heap, Run, ok, throw, abort, out_of_fuel, ◌>>=◌, ◌>>◌, pure, type_at, car_at, cdr_at, update,
  write_cdr,
}
use mes.Heap.Alloc.{make_pointer_cell, cons, make_char, make_number, copy_bytes, make_string}
use mes.Heap.Const.{t_number, t_pair, t_port}
use mes.Reader.{eof}
use mes.Reader.Character.{long_of}
use mes.Strings.{text_of}
use mes.Strings.Convert.{assert_max_string}

-- `__stdin` is kept as a `long`. `files` are the bytes that `read` will still give for a file
-- descriptor, `ungetc` the buffer of lib/mes/fdgetc.c, whose entries are EOF when they are empty.
pub record Ports : Type 0 where
  pub heap : Heap
  pub ports : ℕ
  pub stdin : ℕ
  pub files : ℕ → List ℕ
  pub ungetc : ℕ → ℕ

abbrev pub on_cells : {A : Type 0} → (Heap → Run Heap A) → Ports → Run Ports A
on_cells f p = elim (f p.heap) [
  | ok a h ↦ ok a (record p { heap = h })
  | throw key x h ↦ throw key x (record p { heap = h })
  | abort ↦ abort
  | out_of_fuel ↦ out_of_fuel
]

unfoldable pub take_byte : ℕ → Ports → List ℕ → Run Ports ℕ
take_byte fd p [] = ok eof p
take_byte fd p (c ∷ cs) = ok c (record p { files = λ q. if q == fd then cs else p.files q })

unfoldable pub fdgetc : ℕ → Ports → Run Ports ℕ
fdgetc fd p =
    let i = p.ungetc fd in
    if ltb i 2147483648
    then ok i (record p { ungetc = update p.ungetc fd eof })
    else take_byte fd p (p.files fd)

-- `abort` is the overflow of the buffer.
unfoldable pub fdungetc : ℕ → ℕ → Ports → Run Ports ℕ
fdungetc c fd p =
    if c == eof
    then ok c p
    else if ltb (p.ungetc fd) 2147483648
    then abort
    else ok c (record p { ungetc = update p.ungetc fd c })

-- The loop of `current_input_port`. `abort` is the access to the null pointer at its end.
unfoldable pub find_port : ℕ → ℕ → Ports → Run Ports ℕ
find_port zero x p = out_of_fuel
find_port (suc k) x p =
    let rest = find_port k (cdr_at p.heap x) p in
    let a = car_at p.heap x in
    if x == 0 then abort else if car_at p.heap a == p.stdin then ok a p else rest

unfoldable pub current_input_port : ℕ → Ports → Run Ports ℕ
current_input_port k p =
    if is_negative p.stdin then find_port k p.ports p else on_cells (make_number p.stdin) p

-- A `char` as an `int`.
abbrev pub char_int : ℕ → ℕ
char_int c = if ltb c 128 then c else c + 4294967040

-- The first character of the port is taken: the rest becomes its string.
unfoldable pub take_char : ℕ → Ports → Run Ports ℕ
take_char port p =
    let string = cdr_at p.heap port in
    let text = text_of p.heap string in
    let length = car_at p.heap string in
    if length == 0
    then ok eof p
    else (do
      s ← on_cells (make_string (λ i. text (i + 1)) (length - 1))
      λ p. ok (char_int (text 0)) (record p { heap = write_cdr p.heap port s }))
        p

unfoldable pub readchar : ℕ → Ports → Run Ports ℕ
readchar k p =
    if is_negative p.stdin
    then (do port ← current_input_port k; take_char port) p
    else fdgetc p.stdin p

-- The byte that stands in front of the text is copied with it and overwritten.
unfoldable pub give_back : ℕ → ℕ → Ports → Run Ports ℕ
give_back c port p =
    let string = cdr_at p.heap port in
    let text = text_of p.heap string in
    (do
      s ←
          on_cells
            (make_string (λ i. if i == 0 then 0 else text (i - 1)) (car_at p.heap string + 1))
      on_cells (λ h. copy_bytes (cdr_at h s) (λ i. c % 256) 1 h)
      λ p. ok c (record p { heap = write_cdr p.heap port s }))
      p

unfoldable pub unreadchar : ℕ → ℕ → Ports → Run Ports ℕ
unreadchar k c p =
    if is_negative p.stdin
    then (if c == eof then ok c p else (do port ← current_input_port k; give_back c port) p)
    else fdungetc c p.stdin p

unfoldable pub first_char : ℕ → Ports → Run Ports ℕ
first_char port p =
    let string = cdr_at p.heap port in
    ok (if car_at p.heap string == 0 then eof else char_int (text_of p.heap string 0)) p

unfoldable pub peekchar : ℕ → Ports → Run Ports ℕ
peekchar k p =
    if is_negative p.stdin
    then (do port ← current_input_port k; first_char port) p
    else (do c ← readchar k; _ ← unreadchar k c; pure c) p

unfoldable pub peek_byte : ℕ → Ports → Run Ports ℕ
peek_byte k = do c ← peekchar k; on_cells (make_number (long_of c))

unfoldable pub read_byte : ℕ → Ports → Run Ports ℕ
read_byte k = do c ← readchar k; on_cells (make_number (long_of c))

-- The argument of `unreadchar` is an `int`.
unfoldable pub unread_byte : ℕ → ℕ → Ports → Run Ports ℕ
unread_byte k i p = (do _ ← unreadchar k (cdr_at p.heap i % 4294967296); pure i) p

unfoldable pub peek_char : ℕ → Ports → Run Ports ℕ
peek_char k = do c ← peekchar k; on_cells (make_char (long_of c))

unfoldable pub unread_char : ℕ → ℕ → Ports → Run Ports ℕ
unread_char k i p = (do _ ← unreadchar k (cdr_at p.heap i % 4294967296); pure i) p

-- `__stdin` while the first of the arguments, if it is a number, is read from.
unfoldable pub chosen_input : ℕ → Ports → ℕ
chosen_input port p =
    let h = p.heap in
    if (type_at h port == t_pair) && (type_at h (car_at h port) == t_number)
    then long_of (cdr_at h (car_at h port) % 4294967296)
    else p.stdin

unfoldable pub read_char : ℕ → ℕ → Ports → Run Ports ℕ
read_char k port p =
    let fd = p.stdin in
    (do
      c ← (λ p. readchar k (record p { stdin = chosen_input port p }))
      x ← on_cells (make_char (long_of c))
      λ p. ok x (record p { stdin = fd }))
      p

-- The loop of `read_string`; the buffer has one byte more than `MAX_STRING`.
unfoldable pub read_string_loop : ℕ → (ℕ → ℕ) → ℕ → ℕ → Ports → Run Ports ((ℕ → ℕ) × ℕ)
read_string_loop zero buf i c p = out_of_fuel
read_string_loop (suc k) buf i c p =
    let rest = read_string_loop k in
    if c == eof
    then ok (update buf i 0, i) p
    else (do
      on_cells (assert_max_string i)
      c' ← readchar k
      rest (update buf i (c % 256)) (i + 1) c')
        p

unfoldable pub read_string : ℕ → ℕ → Ports → Run Ports ℕ
read_string k port p =
    let fd = p.stdin in
    (do
      c ← (λ p. readchar k (record p { stdin = chosen_input port p }))
      (buf, i) ← read_string_loop k (λ i. 0) 0 c
      λ p. on_cells (make_string buf i) (record p { stdin = fd }))
      p

-- The number of a string port is below that of the ports before it, and below -1.
unfoldable pub make_string_port : ℕ → ℕ → Ports → Run Ports ℕ
make_string_port k x p =
    (do
      n ← on_cells (list_length k p.ports)
      on_cells (make_pointer_cell t_port (sub_word (neg_word n) 2) x))
      p

unfoldable pub open_input_string : ℕ → ℕ → Ports → Run Ports ℕ
open_input_string k string = do
  port ← make_string_port k string
  λ p. (do l ← on_cells (cons port p.ports); λ p. ok port (record p { ports = l })) p

unfoldable pub set_current_input_port : ℕ → ℕ → Ports → Run Ports ℕ
set_current_input_port k port = do
  prev ← current_input_port k
  λ p.
      let h = p.heap in
      ok prev (
        if type_at h port == t_number
        then record p { stdin = long_of (cdr_at h port % 4294967296) }
        else if type_at h port == t_port
        then record p { stdin = long_of (car_at h port % 4294967296) }
        else p)
