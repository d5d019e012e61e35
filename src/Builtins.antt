-- ===== src/Builtins.antt =====
-- Builtins as structs, in src/builtins.c: their type, their fields and their entry in the list of
-- names. The table of the functions itself is not here.
use mes.Base.{ℕ, List, [], ◌∷◌}
use mes.Heap.{Heap, Run, ok, ◌>>=◌, cdr_at}
use mes.Heap.Alloc.{cons, acons, make_number}
use mes.Heap.Const.{cell_nil, cell_unspecified}
use mes.Heap.Symbols.{cell_symbol_builtin, cell_symbol_record_type}
use mes.Modules.{Limits}
use mes.Strings.{symbol_to_string}
use mes.Struct.{make_struct, struct_ref_}
use mes.Symbols.{cstring_to_symbol}

unfoldable pub make_builtin_type : Limits → ℕ → Heap → Run Heap ℕ
make_builtin_type l symbols = do
  address ←
      cstring_to_symbol l.depth l.rounds symbols
        (b'a' ∷ b'd' ∷ b'd' ∷ b'r' ∷ b'e' ∷ b's' ∷ b's' ∷ [])
  fields ← cons address cell_nil
  arity ← cstring_to_symbol l.depth l.rounds symbols (b'a' ∷ b'r' ∷ b'i' ∷ b't' ∷ b'y' ∷ [])
  fields ← cons arity fields
  name ← cstring_to_symbol l.depth l.rounds symbols (b'n' ∷ b'a' ∷ b'm' ∷ b'e' ∷ [])
  fields ← cons name fields
  fields ← cons fields cell_nil
  fields ← cons cell_symbol_builtin fields
  make_struct l.rounds cell_symbol_record_type fields cell_unspecified

abbrev builtin_printer_name : List ℕ
builtin_printer_name =
    b'b' ∷ b'u' ∷ b'i' ∷ b'l' ∷ b't' ∷ b'i' ∷ b'n' ∷ b'-' ∷ b'p' ∷ b'r' ∷ b'i' ∷ b'n' ∷ b't' ∷ b'e'
    ∷ b'r' ∷ []

unfoldable pub make_builtin : Limits → ℕ → ℕ → ℕ → ℕ → ℕ → Heap → Run Heap ℕ
make_builtin l symbols builtin_type name arity function = do
  fields ← cons function cell_nil
  fields ← cons arity fields
  fields ← cons name fields
  fields ← cons cell_symbol_builtin fields
  printer ← cstring_to_symbol l.depth l.rounds symbols builtin_printer_name
  make_struct l.rounds builtin_type fields printer

unfoldable pub builtin_name : ℕ → Heap → Run Heap ℕ
builtin_name builtin = struct_ref_ builtin 3

-- The address of the function.
unfoldable pub builtin_function : ℕ → Heap → Run Heap ℕ
builtin_function builtin = do x ← struct_ref_ builtin 5; λ h. ok (cdr_at h x) h

-- `arity` is a word, and `function` the address of the function.
unfoldable pub init_builtin : Limits → ℕ → ℕ → List ℕ → ℕ → ℕ → ℕ → Heap → Run Heap ℕ
init_builtin l symbols builtin_type name arity function a = do
  s ← cstring_to_symbol l.depth l.rounds symbols name
  string ← symbol_to_string s
  n ← make_number arity
  f ← make_number function
  builtin ← make_builtin l symbols builtin_type string n f
  acons s builtin a
