-- ===== src/Heap/Symbols.antt =====
-- More of the symbols that `init_symbols_` of src/symbol.c lays out from `cell_nil` on, in its order.
use mes.Base.{ℕ}

abbrev pub cell_vm_apply : ℕ
cell_vm_apply = 12

abbrev pub cell_vm_apply2 : ℕ
cell_vm_apply2 = 13

abbrev pub cell_vm_begin : ℕ
cell_vm_begin = 14

abbrev pub cell_vm_begin_eval : ℕ
cell_vm_begin_eval = 15

abbrev pub cell_vm_begin_expand : ℕ
cell_vm_begin_expand = 16

abbrev pub cell_vm_begin_expand_eval : ℕ
cell_vm_begin_expand_eval = 17

abbrev pub cell_vm_begin_expand_macro : ℕ
cell_vm_begin_expand_macro = 18

abbrev pub cell_vm_call_with_current_continuation2 : ℕ
cell_vm_call_with_current_continuation2 = 20

abbrev pub cell_vm_call_with_values2 : ℕ
cell_vm_call_with_values2 = 21

abbrev pub cell_vm_eval : ℕ
cell_vm_eval = 22

abbrev pub cell_vm_eval2 : ℕ
cell_vm_eval2 = 23

abbrev pub cell_vm_eval_check_func : ℕ
cell_vm_eval_check_func = 24

abbrev pub cell_vm_eval_define : ℕ
cell_vm_eval_define = 25

abbrev pub cell_vm_eval_macro_expand_eval : ℕ
cell_vm_eval_macro_expand_eval = 26

abbrev pub cell_vm_eval_macro_expand_expand : ℕ
cell_vm_eval_macro_expand_expand = 27

abbrev pub cell_vm_eval_set_x : ℕ
cell_vm_eval_set_x = 28

abbrev pub cell_vm_evlis : ℕ
cell_vm_evlis = 29

abbrev pub cell_vm_evlis2 : ℕ
cell_vm_evlis2 = 30

abbrev pub cell_vm_evlis3 : ℕ
cell_vm_evlis3 = 31

abbrev pub cell_vm_if : ℕ
cell_vm_if = 32

abbrev pub cell_vm_if_expr : ℕ
cell_vm_if_expr = 33

abbrev pub cell_vm_macro_expand : ℕ
cell_vm_macro_expand = 34

abbrev pub cell_vm_macro_expand_car : ℕ
cell_vm_macro_expand_car = 35

abbrev pub cell_vm_macro_expand_cdr : ℕ
cell_vm_macro_expand_cdr = 36

abbrev pub cell_vm_macro_expand_define : ℕ
cell_vm_macro_expand_define = 37

abbrev pub cell_vm_macro_expand_define_macro : ℕ
cell_vm_macro_expand_define_macro = 38

abbrev pub cell_vm_macro_expand_lambda : ℕ
cell_vm_macro_expand_lambda = 39

abbrev pub cell_vm_macro_expand_set_x : ℕ
cell_vm_macro_expand_set_x = 40

abbrev pub cell_vm_return : ℕ
cell_vm_return = 41

abbrev pub cell_symbol_lambda : ℕ
cell_symbol_lambda = 42

abbrev pub cell_symbol_begin : ℕ
cell_symbol_begin = 43

abbrev pub cell_symbol_if : ℕ
cell_symbol_if = 44

abbrev pub cell_symbol_quote : ℕ
cell_symbol_quote = 45

abbrev pub cell_symbol_define : ℕ
cell_symbol_define = 46

abbrev pub cell_symbol_define_macro : ℕ
cell_symbol_define_macro = 47

abbrev pub cell_symbol_set_x : ℕ
cell_symbol_set_x = 55

abbrev pub cell_symbol_macro_expand : ℕ
cell_symbol_macro_expand = 57

abbrev pub cell_symbol_portable_macro_expand : ℕ
cell_symbol_portable_macro_expand = 58

abbrev pub cell_symbol_sc_expander_alist : ℕ
cell_symbol_sc_expander_alist = 59

abbrev pub cell_symbol_call_with_values : ℕ
cell_symbol_call_with_values = 60

abbrev pub cell_symbol_call_with_current_continuation : ℕ
cell_symbol_call_with_current_continuation = 61

abbrev pub cell_symbol_current_environment : ℕ
cell_symbol_current_environment = 62

abbrev pub cell_symbol_builtin : ℕ
cell_symbol_builtin = 73

abbrev pub cell_symbol_frame : ℕ
cell_symbol_frame = 74

abbrev pub cell_symbol_procedure : ℕ
cell_symbol_procedure = 76

abbrev pub cell_symbol_record_type : ℕ
cell_symbol_record_type = 77

abbrev pub cell_symbol_stack : ℕ
cell_symbol_stack = 79

abbrev pub cell_symbol_variable : ℕ
cell_symbol_variable = 86

abbrev pub cell_symbol_standard_eval_closure : ℕ
cell_symbol_standard_eval_closure = 87

abbrev pub cell_symbol_standard_interface_eval_closure : ℕ
cell_symbol_standard_interface_eval_closure = 88

abbrev pub cell_symbol_hashq_table : ℕ
cell_symbol_hashq_table = 75

abbrev pub cell_symbol_quasiquote : ℕ
cell_symbol_quasiquote = 48

abbrev pub cell_symbol_unquote : ℕ
cell_symbol_unquote = 49

abbrev pub cell_symbol_unquote_splicing : ℕ
cell_symbol_unquote_splicing = 50

abbrev pub cell_symbol_syntax : ℕ
cell_symbol_syntax = 51

abbrev pub cell_symbol_quasisyntax : ℕ
cell_symbol_quasisyntax = 52

abbrev pub cell_symbol_unsyntax : ℕ
cell_symbol_unsyntax = 53

abbrev pub cell_symbol_unsyntax_splicing : ℕ
cell_symbol_unsyntax_splicing = 54
