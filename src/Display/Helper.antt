-- ===== src/Display/Helper.antt =====
-- `display_helper` of src/display.c and the functions that call it. `show` is the call of
-- `display_helper` itself with an object, `cont`, `sep` and `write_p`.
use mes.Base.{
  ℕ, zero, suc, ◌+◌, ◌-◌, ◌%◌, Bool, true, false, not, ◌&&◌, ◌||◌, none, some, List, [], ◌∷◌, ◌++◌,
  ◌==◌, if◌then◌else◌, length, is_negative,
}
use mes.Display.{Output, Surroundings, fdputs, fdputc, fdwrite_char, fdwrite_string}
use mes.Eval.{builtin_p}
use mes.Heap.{Heap, Run, ok, throw, abort, out_of_fuel, ◌>>=◌, ◌>>◌, type_at, car_at, cdr_at}
use mes.Heap.Alloc.{cell_ref, cons}
use mes.Heap.Const.{
  t_char, t_closure, t_keyword, t_macro, t_number, t_pair, t_port, t_ref, t_special, t_string,
  t_struct, t_symbol, t_binding, t_vector, cell_nil, cell_unspecified, cell_closure, cell_circular,
}
use mes.Libc.Number.{ltoa}
use mes.Libc.Text.{strlen}
use mes.Strings.{text_of}
use mes.Struct.{struct_ref_}

abbrev pub Show : Type 0
Show = ℕ → Bool → List ℕ → Bool → Output → Run Output (Unit {0})

abbrev pub in_output : {A : Type 0} → (Heap → Run Heap A) → Output → Run Output A
in_output f o = elim (f o.heap) [
  | ok a h ↦ ok a (record o { heap = h })
  | throw key x h ↦ throw key x (record o { heap = h })
  | abort ↦ abort
  | out_of_fuel ↦ out_of_fuel
]

-- `fdisplay_`, which sets the depth anew.
unfoldable pub fdisplay_ : Show → ℕ → Bool → Output → Run Output (Unit {0})
fdisplay_ show x write_p o = show x false [] write_p (record o { depth = 5 })

-- `fdputs (ltoa (n))`.
unfoldable pub put_number : ℕ → Output → Run Output (Unit {0})
put_number n o = elim (ltoa n) [ none ↦ abort | some s ↦ fdputs s o ]

unfoldable pub display_char : ℕ → Bool → Output → Run Output (Unit {0})
display_char v write_p =
    if write_p then (do fdputs (b'#' ∷ []); fdwrite_char (v % 256)) else fdputc v

unfoldable pub display_closure : Show → ℕ → Output → Run Output (Unit {0})
display_closure show x o =
    let h = o.heap in
    let circ = car_at h (cdr_at h x) in
    let name = car_at h (cdr_at h circ) in
    let args = car_at h (cdr_at h (cdr_at h x)) in
    (do
      fdputs (b'#' ∷ b'<' ∷ b'c' ∷ b'l' ∷ b'o' ∷ b's' ∷ b'u' ∷ b'r' ∷ b'e' ∷ b' ' ∷ [])
      show (car_at h name) false [] false
      fdputc b' '
      show args false [] false
      fdputs (b'>' ∷ []))
      o

unfoldable pub display_macro : Show → ℕ → Bool → Output → Run Output (Unit {0})
display_macro show x cont o =
    (do
      fdputs (b'#' ∷ b'<' ∷ b'm' ∷ b'a' ∷ b'c' ∷ b'r' ∷ b'o' ∷ b' ' ∷ [])
      show (cdr_at o.heap x) cont [] false
      fdputs (b'>' ∷ []))
      o

unfoldable pub display_binding : Show → ℕ → Bool → Output → Run Output (Unit {0})
display_binding show x cont o =
    (do
      fdputs (b'#' ∷ b'<' ∷ b'b' ∷ b'i' ∷ b'n' ∷ b'd' ∷ b'i' ∷ b'n' ∷ b'g' ∷ b' ' ∷ [])
      show (car_at o.heap (car_at o.heap x)) cont [] false
      fdputs (b'>' ∷ []))
      o

-- The loop over an environment, for at most `n` entries.
unfoldable pub circular_loop : Show → Bool → ℕ → ℕ → Output → Run Output (Unit {0})
circular_loop show write_p zero x o = ok tt o
circular_loop show write_p (suc n) x o =
    let rest = circular_loop show write_p n in
    if x == cell_nil
    then ok tt o
    else (do
      fdisplay_ show (car_at o.heap (car_at o.heap x)) write_p
      fdputs (b' ' ∷ [])
      λ o. rest (cdr_at o.heap x) o)
        o

-- What follows the first element of a list.
unfoldable pub display_rest : Show → ℕ → Bool → Output → Run Output (Unit {0})
display_rest show x write_p o =
    let d = cdr_at o.heap x in
    if not (d == 0) && (type_at o.heap d == t_pair)
    then show d true (b' ' ∷ []) write_p o
    else if not (d == 0) && not (d == cell_nil)
    then (do
      if type_at o.heap d == t_pair then ok tt else fdputs (b' ' ∷ b'.' ∷ b' ' ∷ [])
      λ o. fdisplay_ show (cdr_at o.heap x) write_p o)
        o
    else ok tt o

unfoldable pub display_elements : Show → ℕ → Bool → Output → Run Output (Unit {0})
display_elements show x write_p o =
    let h = o.heap in
    if (car_at h x == cell_circular) && not (car_at h (cdr_at h x) == cell_closure)
    then (do
      fdputs (b'(' ∷ b'*' ∷ b'c' ∷ b'i' ∷ b'r' ∷ b'c' ∷ b'*' ∷ b' ' ∷ b'.' ∷ b' ' ∷ [])
      circular_loop show write_p 10 (cdr_at h x)
      fdputs (b' ' ∷ b'.' ∷ b'.' ∷ b'.' ∷ b')' ∷ []))
        o
    else (do
      if not (x == 0) && not (x == cell_nil) then fdisplay_ show (car_at h x) write_p else ok tt
      display_rest show x write_p)
        o

unfoldable pub display_pair : Show → ℕ → Bool → Bool → Output → Run Output (Unit {0})
display_pair show x cont write_p = do
  if cont then ok tt else fdputs (b'(' ∷ [])
  display_elements show x write_p
  if cont then ok tt else fdputs (b')' ∷ [])

-- A text between quotes.
unfoldable pub put_quoted : ℕ → Output → Run Output (Unit {0})
put_quoted x o = (do fdputc 34; fdwrite_string (text_of o.heap x) (car_at o.heap x); fdputc 34) o

unfoldable pub display_port : ℕ → Output → Run Output (Unit {0})
display_port x o =
    (do
      fdputs (b'#' ∷ b'<' ∷ b'p' ∷ b'o' ∷ b'r' ∷ b't' ∷ b' ' ∷ [])
      put_number (car_at o.heap x)
      fdputs (b' ' ∷ [])
      put_quoted (cdr_at o.heap x)
      fdputs (b'>' ∷ []))
      o

unfoldable pub display_keyword : ℕ → Output → Run Output (Unit {0})
display_keyword x o =
    (do fdputs (b'#' ∷ b':' ∷ []); fdwrite_string (text_of o.heap x) (car_at o.heap x)) o

-- The first `n` bytes.
unfoldable pub first_bytes : (ℕ → ℕ) → ℕ → List ℕ
first_bytes s zero = []
first_bytes s (suc n) = s 0 ∷ first_bytes (λ i. s (i + 1)) n

-- `fdputs` writes the bytes in front of the first zero byte, for which `k` are searched.
unfoldable pub display_string : ℕ → ℕ → Bool → Output → Run Output (Unit {0})
display_string k x write_p o =
    if write_p then put_quoted x o else elim (strlen k (text_of o.heap x) 0) [
      | none ↦ out_of_fuel
      | some n ↦ fdputs (first_bytes (text_of o.heap x) n) o
    ]

-- The elements from the cell `p + i` on, `n` of them; the flag says whether a space stands in front
-- of the first.
unfoldable pub slots_loop : Show → Bool → ℕ → ℕ → ℕ → Bool → Output → Run Output (Unit {0})
slots_loop show write_p zero p i space o = ok tt o
slots_loop show write_p (suc n) p i space o =
    let rest = slots_loop show write_p n p (i + 1) true in
    (do if space then fdputc b' ' else ok tt; fdisplay_ show (cell_ref p i) write_p; rest) o

-- What a signed length counts.
abbrev pub signed_count : ℕ → ℕ
signed_count length = if is_negative length then 0 else length

unfoldable pub display_vector : Show → ℕ → Bool → Output → Run Output (Unit {0})
display_vector show x write_p o =
    (do
      fdputs (b'#' ∷ b'(' ∷ [])
      slots_loop show write_p (signed_count (car_at o.heap x)) (cdr_at o.heap x) 0 false
      fdputc b')')
      o

unfoldable pub display_fields : Show → ℕ → Bool → Output → Run Output (Unit {0})
display_fields show x write_p o =
    (do
      fdputs (b'#' ∷ b'<' ∷ [])
      fdisplay_ show (cdr_at o.heap x) write_p
      slots_loop show write_p (signed_count (car_at o.heap x) - 2) (cdr_at o.heap x) 2 true
      fdputc b'>')
      o

unfoldable pub call_printer : Surroundings → ℕ → ℕ → Output → Run Output (Unit {0})
call_printer s printer x = do l ← in_output (cons x cell_nil); _ ← s.apply_printer printer l; ok tt

-- Field 1 of a struct is its printer.
unfoldable pub display_struct : Surroundings → Show → ℕ → Bool → Output → Run Output (Unit {0})
display_struct s show x write_p = do
  printer ← in_output (struct_ref_ x 1)
  λ o.
      let printer = if type_at o.heap printer == t_ref then car_at o.heap printer else printer in
      (do
        own ←
            (if type_at o.heap printer == t_closure then ok true else in_output (builtin_p printer))
        if own then call_printer s printer x else display_fields show x write_p)
        o

unfoldable pub display_other : Surroundings → ℕ → Output → Run Output (Unit {0})
display_other s x o =
    (do
      fdputs (b'<' ∷ [])
      put_number (type_at o.heap x)
      fdputs (b':' ∷ [])
      put_number (s.address x)
      fdputs (b'>' ∷ []))
      o

-- The chain of tests of the type.
unfoldable pub display_object :
    Surroundings → Show → ℕ → ℕ → Bool → Bool → Output → Run Output (Unit {0})
display_object s show k x cont write_p o =
    let h = o.heap in
    let t = type_at h x in
    if t == t_char
    then display_char (cdr_at h x) write_p o
    else if t == t_closure
    then display_closure show x o
    else if t == t_macro
    then display_macro show x cont o
    else if t == t_binding
    then display_binding show x cont o
    else if t == t_number
    then put_number (cdr_at h x) o
    else if t == t_pair
    then display_pair show x cont write_p o
    else if t == t_port
    then display_port x o
    else if t == t_keyword
    then display_keyword x o
    else if t == t_string
    then display_string k x write_p o
    else if (t == t_special) || (t == t_symbol)
    then fdwrite_string (text_of h x) (car_at h x) o
    else if t == t_ref
    then fdisplay_ show (car_at h x) write_p o
    else if t == t_struct
    then display_struct s show x write_p o
    else if t == t_vector
    then display_vector show x write_p o
    else display_other s x o

-- The calls within one another are bounded by the second argument.
unfoldable pub display_helper : Surroundings → ℕ → Show
display_helper s zero x cont sep write_p o = out_of_fuel
display_helper s (suc k) x cont sep write_p o =
    let show = display_helper s k in
    let o = record o { written = o.written ++ sep } in
    if o.depth == 0
    then ok tt o
    else display_object s show k x cont write_p (record o { depth = o.depth - 1 })

-- `display_`, `display_error_` and `display_port_` differ in the file descriptor, and so do the
-- functions for `write`.
unfoldable pub display_ : Surroundings → ℕ → ℕ → Output → Run Output ℕ
display_ s k x = do fdisplay_ (display_helper s k) x false; ok cell_unspecified

unfoldable pub write_ : Surroundings → ℕ → ℕ → Output → Run Output ℕ
write_ s k x = do fdisplay_ (display_helper s k) x true; ok cell_unspecified

unfoldable pub write_port_ : Surroundings → ℕ → ℕ → ℕ → Output → Run Output ℕ
write_port_ s k x p o = if type_at o.heap p == t_number then write_ s k x o else abort

unfoldable pub display_port_ : Surroundings → ℕ → ℕ → ℕ → Output → Run Output ℕ
display_port_ s k x p o = if type_at o.heap p == t_number then display_ s k x o else abort
