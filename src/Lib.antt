-- ===== src/Lib.antt =====
-- GNU Mes: the interpreter's heap and primitives, and parts of the Mes C library.
--
-- Mes is a Scheme interpreter in C that bootstraps a C compiler. This library models the code that
-- runs on its heap of cells, and routines of its C library that have no operating system below
-- them. The parts, and the files that model them:
--
-- * Cells and allocation, src/gc.c and include/mes/mes.h: Heap. A `struct scm` is a `Cell` of three
--   words, a pointer the number of its cell, and the arena a map from numbers to cells; the bytes
--   that `cell_bytes` points to are kept beside the cell, not in the words that they overlay.
--   `alloc`, `make_cell` and the other `make_*` functions are in Heap/Alloc, the constants of
--   include/mes/constants.h and of src/symbol.c in Heap/Const.
-- * The registers R0 to R3, the stack of frames and the roots, src/gc.c and `push_cc` of
--   src/eval-apply.c: Machine. An operation of the heap is run on the machine by `on_heap`.
-- * The copying collector, src/gc.c: Gc, with `gc_copy`, a round of `gc_loop` as `scan_cell`, the
--   loop as `scan_loop`, `gc_cellcpy` and `gc_flip`; Gc/Drive for `gc_`, `gc`, `gc_check` and the
--   growth of the arena. Gc/Snapshot says what a well-formed old space and the copies in the new
--   one are, Gc/Space what holds between two calls of `gc_copy`; Gc/Forward, Gc/Fresh and Gc/Step
--   follow one call, Gc/Open, Gc/Relocate and Gc/Loop one round, Gc/Collect the loop; Gc/Roots,
--   Gc/Registers and Gc/Gather the copies of the roots and all of `gc_` up to the flip, Gc/Shift,
--   Gc/Flip and Gc/Carry the move in `gc_flip`, Gc/Preserve `gc_` and Gc/Whole `gc`.
-- * The list primitives of src/core.c: Core. `length__` is `list_length`, `length` is `length_p`,
--   `reverse_x_` is `reverse_x`; the others keep their names.
-- * The library primitives and bytevectors of src/lib.c: Library, with `assoc` of src/core.c, which
--   uses `equal2_p`, and Bytevector.
-- * Arithmetic, src/math.c: Math. The loops that differ in one operator share a definition that
--   takes it as an argument.
-- * Vectors, structs, strings and hash tables, src/vector.c, src/struct.c, src/string.c, src/hash.c:
--   Vector, Struct, Strings, Hash. A hash table is a struct that holds a vector of lists of pairs,
--   and its operations are composed from theirs.
-- * The conversions of strings and lists are in Strings/Convert, backtraces, src/stack.c, in Stack, the
--   structs of src/builtins.c in Builtins.
-- * The reader, src/reader.c, on a file descriptor whose bytes are a list: Reader, Reader/Radix,
--   Reader/Character and Reader/Sexp; Reader/Digits has the numbers in digits, and what they
--   stand for. `unread` says that the slot of `fdungetc` is taken.
-- * The printer, src/display.c, whose output is a list of bytes: Display and Display/Helper. Input
--   ports, src/posix.c and lib/mes/fdgetc.c: Ports.
-- * Symbols, variables and modules, src/string.c, src/variable.c, src/module.c: Symbols and Modules.
-- * The evaluator, src/eval-apply.c: Eval for environments, bindings, macros and closures,
--   Eval/Expand for `expand_variable`, and the register machine of `eval_apply`. Its goto labels are
--   the constructors of `Label` in Eval/Label; the code at each label is a block in Eval/Apply,
--   Eval/Expr, Eval/Define, Eval/Macro, Eval/Begin and Eval/Control, a step of the machine, which
--   says where it jumps; Eval/Step puts them together as `step`, `run_from`, `eval_apply` and
--   `apply`. Eval/Semantics is a big-step meaning of the core language that knows no label, stack or
--   register; Eval/Reaches, Eval/Runs, Eval/Forms, Eval/Sequences, Eval/Calls, Eval/Applications and
--   Eval/Correct relate the two.
-- * The C library: Libc/Division for lib/mes/div.c, Libc/Number for lib/mes/ntoab.c and
--   lib/mes/abtol.c, Libc/Ctype for lib/ctype, Libc/Memory and Libc/Text for lib/string,
--   Libc/Search for memmem, strstr and strrchr,
--   Libc/Sort for lib/stdlib/qsort.c.
--
-- Base holds the library names that are passed on, Boolean tests, lists, machine words and masks;
-- Heap/Agree the lemmas on allocation and on lists in the heap, Heap/Text those on new strings.
-- Tests holds sample heaps and the theorems applied to them.
--
-- An operation is a function from a heap to a `Run`: `ok` with a result and a heap; `throw`, a call
-- of `error`, with its key and the terms of its irritants; `abort`, a failed `assert_msg`; or
-- `out_of_fuel`. A loop takes the number of rounds that it may run as its first argument. The
-- theorems on loops say how many rounds are enough, in most cases one more than the elements of the
-- list, and that the result is then `ok` or an error of the code. A word is its bit pattern, a
-- number below 2 ^ 64; additions, products and negations wrap, and comparisons of `long` flip the
-- sign bit, as Base/Word has it.
--
-- The evaluator runs on a number of steps, the steps of the calls of `apply` within them included.
-- What a builtin does and what `realloc` returns are parameters, the fields of `Platform`, and so is
-- the procedure `apply` in the operations that call it back. The printer takes the call of the
-- printer of a struct, and the address of a cell as a number, from `Surroundings`.
--
-- Not modelled: `primitive_load` and the table of builtins; the set-up of the constants and of the
-- arena; system calls other than the reading of bytes; streams and formatted output of the C
-- library; and the compiler in Scheme. The texts that a debugging level prints are left out, and
-- the clock.
pub mod Base
pub mod Heap
pub mod Libc
pub mod Strings
pub mod Core
pub mod Vector
pub mod Math
pub mod Struct
pub mod Library
pub mod Bytevector
pub mod Hash
pub mod Machine
pub mod Symbols
pub mod Modules
pub mod Stack
pub mod Builtins
pub mod Reader
pub mod Display
pub mod Ports
pub mod Eval
pub mod Gc
mod Tests
