-- ===== src/Symbols.antt =====
-- Interning in src/string.c. The table `g_symbols` maps the text of a symbol to the symbol.
use mes.Base.{ℕ, List, ◌==◌, if◌then◌else◌, length, get_or}
use mes.Hash.{hash_ref_, hash_set_x}
use mes.Heap.{Heap, Run, ◌>>=◌, pure, car_at, cdr_at}
use mes.Heap.Alloc.{make_pointer_cell, make_string}
use mes.Heap.Const.{t_symbol, cell_f}

-- The bytes of a text that stands in the source, with its zero byte.
abbrev pub literal : List ℕ → ℕ → ℕ
literal s i = get_or s i 0

-- A text in the source has no zero byte, so that `strlen` is its length.
unfoldable pub make_string0 : List ℕ → Heap → Run Heap ℕ
make_string0 s = make_string (literal s) (length s)

unfoldable pub make_symbol : ℕ → ℕ → Heap → Run Heap ℕ
make_symbol symbols string h =
    (do
      x ← make_pointer_cell t_symbol (car_at h string) (cdr_at h string)
      _ ← hash_set_x symbols string x
      pure x)
      h

-- `depth` and `k` bound the search in the bucket.
unfoldable pub string_to_symbol : ℕ → ℕ → ℕ → ℕ → Heap → Run Heap ℕ
string_to_symbol depth k symbols string = do
  x ← hash_ref_ depth k symbols string cell_f
  if x == cell_f then make_symbol symbols string else pure x

unfoldable pub cstring_to_symbol : ℕ → ℕ → ℕ → List ℕ → Heap → Run Heap ℕ
cstring_to_symbol depth k symbols s = do
  string ← make_string0 s
  string_to_symbol depth k symbols string
