-- ===== src/Heap/Const.antt =====
-- The cell types and frame sizes of include/mes/constants.h, and the first of the symbols that
-- `init_symbols_` of src/symbol.c lays out one after another from `cell_nil` on. The arena starts
-- at cell 1, so that 0 is the null pointer: `cell_arena` is 1, `g_cells` 2 and `cell_nil` 3.
use mes.Base.{ℕ}

abbrev pub t_char : ℕ
t_char = 0

abbrev pub t_bytes : ℕ
t_bytes = 1

abbrev pub t_closure : ℕ
t_closure = 2

abbrev pub t_continuation : ℕ
t_continuation = 3

abbrev pub t_keyword : ℕ
t_keyword = 4

abbrev pub t_macro : ℕ
t_macro = 5

abbrev pub t_number : ℕ
t_number = 6

abbrev pub t_pair : ℕ
t_pair = 7

abbrev pub t_port : ℕ
t_port = 8

abbrev pub t_ref : ℕ
t_ref = 9

abbrev pub t_special : ℕ
t_special = 10

abbrev pub t_string : ℕ
t_string = 11

abbrev pub t_struct : ℕ
t_struct = 12

abbrev pub t_symbol : ℕ
t_symbol = 13

abbrev pub t_values : ℕ
t_values = 14

abbrev pub t_binding : ℕ
t_binding = 15

abbrev pub t_vector : ℕ
t_vector = 16

abbrev pub t_broken_heart : ℕ
t_broken_heart = 17

abbrev pub gc_frame_size : ℕ
gc_frame_size = 5

abbrev pub gc_frame_procedure : ℕ
gc_frame_procedure = 4

abbrev pub cell_nil : ℕ
cell_nil = 3

abbrev pub cell_f : ℕ
cell_f = 4

abbrev pub cell_t : ℕ
cell_t = 5

abbrev pub cell_dot : ℕ
cell_dot = 6

abbrev pub cell_arrow : ℕ
cell_arrow = 7

abbrev pub cell_undefined : ℕ
cell_undefined = 8

abbrev pub cell_unspecified : ℕ
cell_unspecified = 9

abbrev pub cell_closure : ℕ
cell_closure = 10

abbrev pub cell_circular : ℕ
cell_circular = 11
