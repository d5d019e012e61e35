-- ===== src/Display.antt =====
-- The printer of src/display.c. What is written to the file descriptor is a list of bytes, to which
-- `fdputc` and `fdputs` append; the file descriptor itself is left out.
pub mod Helper
pub mod ReadBack
use mes.Base.{ℕ, zero, suc, ◌+◌, ◌%◌, ◌&&◌, List, [], ◌∷◌, ◌++◌, leb, ◌==◌, if◌then◌else◌, length}
use mes.Heap.{Heap, Run, ok}

pub record Output : Type 0 where
  pub heap : Heap
  pub depth : ℕ
  pub written : List ℕ

-- What the printer asks of the evaluator and of the machine: the call of the printer of a struct,
-- and the address of a cell as a number.
pub record Surroundings : Type 0 where
  pub apply_printer : ℕ → ℕ → Output → Run Output ℕ
  pub address : ℕ → ℕ

abbrev pub fdputs : List ℕ → Output → Run Output (Unit {0})
fdputs s o = ok tt (record o { written = o.written ++ s })

abbrev pub fdputc : ℕ → Output → Run Output (Unit {0})
fdputc v = fdputs (v % 256 ∷ [])

-- What `fdwrite_char` writes for a `char`.
unfoldable pub char_text : ℕ → List ℕ
char_text v =
    if v == 0
    then b'\\' ∷ b'n' ∷ b'u' ∷ b'l' ∷ []
    else if v == 7
    then b'\\' ∷ b'a' ∷ b'l' ∷ b'a' ∷ b'r' ∷ b'm' ∷ []
    else if v == 8
    then b'\\' ∷ b'b' ∷ b'a' ∷ b'c' ∷ b'k' ∷ b's' ∷ b'p' ∷ b'a' ∷ b'c' ∷ b'e' ∷ []
    else if v == 9
    then b'\\' ∷ b't' ∷ b'a' ∷ b'b' ∷ []
    else if v == 10
    then b'\\' ∷ b'n' ∷ b'e' ∷ b'w' ∷ b'l' ∷ b'i' ∷ b'n' ∷ b'e' ∷ []
    else if v == 11
    then b'\\' ∷ b'v' ∷ b't' ∷ b'a' ∷ b'b' ∷ []
    else if v == 12
    then b'\\' ∷ b'p' ∷ b'a' ∷ b'g' ∷ b'e' ∷ []
    else if v == 13
    then b'\\' ∷ b'r' ∷ b'e' ∷ b't' ∷ b'u' ∷ b'r' ∷ b'n' ∷ []
    else if v == 32
    then b'\\' ∷ b's' ∷ b'p' ∷ b'a' ∷ b'c' ∷ b'e' ∷ []
    else if leb 32 v && leb v 127
    then b'\\' ∷ v ∷ []
    else v ∷ []

abbrev pub fdwrite_char : ℕ → Output → Run Output (Unit {0})
fdwrite_char v = fdputs (char_text v)

-- What `fdwrite_string_char` writes for a `char`.
unfoldable pub string_char_text : ℕ → List ℕ
string_char_text v =
    if v == 0
    then b'\\' ∷ b'0' ∷ []
    else if v == 7
    then b'\\' ∷ b'a' ∷ []
    else if v == 8
    then b'\\' ∷ b'b' ∷ []
    else if v == 9
    then b'\\' ∷ b't' ∷ []
    else if v == 11
    then b'\\' ∷ b'v' ∷ []
    else if v == 10
    then b'\\' ∷ b'n' ∷ []
    else if v == 12
    then b'\\' ∷ b'f' ∷ []
    else if v == 13
    then b'\\' ∷ b'r' ∷ []
    else if v == 27
    then b'\\' ∷ b'e' ∷ []
    else if v == b'\\'
    then b'\\' ∷ b'\\' ∷ []
    else if v == 34
    then b'\\' ∷ 34 ∷ []
    else v ∷ []

-- The loop of `fdwrite_string`, for `n` characters from index `i` on.
unfoldable pub string_text : (ℕ → ℕ) → ℕ → ℕ → List ℕ
string_text s zero i = []
string_text s (suc n) i = string_char_text (s i) ++ string_text s n (i + 1)

-- `length` is an `int`, which the length of a string is known to fit.
unfoldable pub fdwrite_string : (ℕ → ℕ) → ℕ → Output → Run Output (Unit {0})
fdwrite_string s length = fdputs (string_text s length 0)
