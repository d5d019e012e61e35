-- ===== src/Stack.antt =====
-- Backtraces, src/stack.c: the frames of the stack as structs in a vector.
use mes.Base.{ℕ, zero, suc, ◌+◌, ◌-◌, ◌*◌, ◌/◌, List, [], ◌∷◌, ◌==◌, if◌then◌else◌}
use mes.Core.{values}
use mes.Heap.{Heap, Run, ◌>>=◌, ◌>>◌, pure}
use mes.Heap.Alloc.{cons}
use mes.Heap.Const.{gc_frame_size, cell_nil, cell_f, cell_unspecified}
use mes.Heap.Symbols.{
  cell_symbol_frame, cell_symbol_procedure, cell_symbol_record_type, cell_symbol_stack,
}
use mes.Machine.{Machine, on_heap}
use mes.Modules.{Limits}
use mes.Struct.{make_struct, struct_ref_}
use mes.Symbols.{cstring_to_symbol}
use mes.Vector.{make_vector_, vector_length, vector_ref, vector_set_x_}

abbrev frame_printer_name : List ℕ
frame_printer_name =
    b'f' ∷ b'r' ∷ b'a' ∷ b'm' ∷ b'e' ∷ b'-' ∷ b'p' ∷ b'r' ∷ b'i' ∷ b'n' ∷ b't' ∷ b'e' ∷ b'r' ∷ []

unfoldable pub make_frame_type : Limits → Heap → Run Heap ℕ
make_frame_type l = do
  fields ← cons cell_symbol_procedure cell_nil
  fields ← cons fields cell_nil
  fields ← cons cell_symbol_frame fields
  make_struct l.rounds cell_symbol_record_type fields cell_unspecified

-- The procedure that is noted in the frame `index`, counted from the oldest; 0 is none.
abbrev pub frame_procedure : Machine → ℕ → ℕ
frame_procedure m index =
    let array_index = m.stack_size - index * gc_frame_size in
    let procedure = if index == 0 then 0 else m.stack_array (array_index + 4) in
    if procedure == 0 then cell_f else procedure

unfoldable pub make_frame : Limits → ℕ → Machine → Run Machine ℕ
make_frame l index m =
    (do
      frame_type ← on_heap (make_frame_type l)
      values ← on_heap (cons (frame_procedure m index) cell_nil)
      values ← on_heap (cons cell_symbol_frame values)
      printer ← (λ m. on_heap (cstring_to_symbol l.depth l.rounds m.symbols frame_printer_name) m)
      on_heap (make_struct l.rounds frame_type values printer))
      m

unfoldable pub make_stack_type : Limits → Machine → Run Machine ℕ
make_stack_type l m =
    (do
      frames ← on_heap (
          cstring_to_symbol l.depth l.rounds m.symbols
            (b'f' ∷ b'r' ∷ b'a' ∷ b'm' ∷ b'e' ∷ b's' ∷ []))
      fields ← on_heap (cons frames cell_nil)
      fields ← on_heap (cons fields cell_nil)
      fields ← on_heap (cons cell_symbol_stack fields)
      on_heap (make_struct l.rounds cell_symbol_record_type fields cell_unspecified))
      m

-- The frames from `i` on, `n` of them.
unfoldable pub frames_loop : ℕ → Limits → ℕ → ℕ → Machine → Run Machine (Unit {0})
frames_loop zero l frames i = pure tt
frames_loop (suc n) l frames i = do
  frame ← make_frame l i
  _ ← on_heap (vector_set_x_ frames i frame)
  frames_loop n l frames (i + 1)

unfoldable pub make_stack : Limits → Machine → Run Machine ℕ
make_stack l m =
    let size = (m.stack_size - m.stack) / gc_frame_size in
    (do
      stack_type ← make_stack_type l
      frames ← on_heap (make_vector_ size cell_unspecified)
      frames_loop size l frames 0
      values ← on_heap (cons frames cell_nil)
      values ← on_heap (cons cell_symbol_stack values)
      on_heap (make_struct l.rounds stack_type values cell_unspecified))
      m

unfoldable pub stack_length : ℕ → Heap → Run Heap ℕ
stack_length stack = do frames ← struct_ref_ stack 3; vector_length frames

unfoldable pub stack_ref : ℕ → ℕ → Heap → Run Heap ℕ
stack_ref stack index = do frames ← struct_ref_ stack 3; vector_ref frames index
