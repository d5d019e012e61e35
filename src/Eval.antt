-- ===== src/Eval.antt =====
-- The evaluator of src/eval-apply.c: environments, bindings, closures and macros. The registers and
-- the stack are those of the machine; the expansion of variables and the register machine itself
-- are in the child modules.
pub mod Expand
pub mod Label
pub mod Apply
pub mod Expr
pub mod Define
pub mod Macro
pub mod Begin
pub mod Control
pub mod Step
pub mod Semantics
pub mod Reaches
pub mod Runs
pub mod Forms
pub mod Sequences
pub mod Calls
pub mod Applications
pub mod Correct
use mes.Base.{ℕ, zero, suc, Bool, false, not, ◌&&◌, ◌||◌, List, ◌==◌, if◌then◌else◌, minus_one}
use mes.Core.{car, cdr, list_length, assq}
use mes.Hash.{hashq_get_handle, hashq_set_x}
use mes.Heap.{
  Heap, Key, not_a_pair, wrong_type_arg, wrong_number_of_args, unbound_variable, Irritant, object,
  named, message, both, Run, ok, throw, out_of_fuel, ◌>>=◌, ◌>>◌, pure, error, type_at, car_at,
  cdr_at, cell, write_car, write_cdr,
}
use mes.Heap.Alloc.{make_cell, cons}
use mes.Heap.Const.{
  t_char, t_closure, t_number, t_pair, t_string, t_struct, t_symbol, t_binding, t_broken_heart,
  cell_nil, cell_f, cell_t, cell_undefined, cell_unspecified, cell_closure, cell_circular,
}
use mes.Heap.Symbols.{cell_symbol_builtin}
use mes.Machine.{Machine, on_heap}
use mes.Modules.{Limits, variable_ref, variable_set_x, current_module_variable}
use mes.Struct.{struct_ref_}

-- What the evaluator calls and does not define: `realloc`, and the functions that the builtins
-- hold, called with the builtin and its arguments.
pub record Platform : Type 0 where
  pub realloc : ℕ → ℕ → ℕ
  pub call : ℕ → List ℕ → Machine → Run Machine ℕ
  pub limits : Limits

-- The procedure `apply` of the evaluator: a function, its arguments and an environment.
abbrev pub Applier : Type 0
Applier = ℕ → ℕ → ℕ → Machine → Run Machine ℕ

abbrev pub fail : {A : Type 0} → Key → Irritant → Machine → Run Machine A
fail key x m = throw key x m

unfoldable pub assert_defined : ℕ → ℕ → Machine → Run Machine ℕ
assert_defined x e m = if e == cell_undefined then fail unbound_variable (object x) m else ok e m

-- The number of formals, or -1 for a rest argument.
unfoldable pub formals_length : Limits → ℕ → Heap → Run Heap ℕ
formals_length l formals h =
    if type_at h formals == t_number
    then ok (cdr_at h formals) h
    else list_length l.rounds formals h

unfoldable pub check_formals : Limits → ℕ → ℕ → ℕ → Heap → Run Heap ℕ
check_formals l f formals args = do
  flen ← formals_length l formals
  alen ← list_length l.rounds args
  λ h.
      if not (alen == flen) && (not (alen == minus_one) && not (flen == minus_one))
      then error wrong_number_of_args
          (both (message "apply: wrong number of arguments; expected: ") (object f)) h
      else ok cell_unspecified h

-- `builtin_p` and `builtin_arity` of src/builtins.c.
unfoldable pub builtin_p : ℕ → Heap → Run Heap Bool
builtin_p x h =
    if type_at h x == t_struct
    then (do t ← struct_ref_ x 2; pure (t == cell_symbol_builtin)) h
    else ok false h

unfoldable pub builtin_arity : ℕ → Heap → Run Heap ℕ
builtin_arity builtin = struct_ref_ builtin 4

-- The objects that are no procedures whatever a struct may be.
unfoldable pub never_applies : Heap → ℕ → Bool
never_applies h f =
    ((f == cell_f) || (f == cell_t))
    || (((f == cell_nil) || ((f == cell_unspecified) || (f == cell_undefined)))
        || ((type_at h f == t_char)
            || ((type_at h f == t_number)
                || ((type_at h f == t_string) || (type_at h f == t_broken_heart)))))

unfoldable pub check_apply : ℕ → Heap → Run Heap ℕ
check_apply f h =
    (do
      b ← builtin_p f
      λ h'.
          if never_applies h f || ((type_at h f == t_struct) && not b)
          then error wrong_type_arg (both (message "cannot apply: ") (object f)) h'
          else ok cell_unspecified h')
      h

-- The pair of the heads is made before the rest.
unfoldable pub pairlis : ℕ → ℕ → ℕ → ℕ → Heap → Run Heap ℕ
pairlis zero x y a h = out_of_fuel
pairlis (suc k) x y a h =
    let rest = pairlis k in
    if x == cell_nil
    then ok a h
    else if not (type_at h x == t_pair)
    then (do p ← cons x y; cons p a) h
    else (do
      ax ← car x
      ay ← car y
      p ← cons ax ay
      dx ← cdr x
      dy ← cdr y
      r ← rest dx dy a
      cons p r)
        h

unfoldable pub set_car_x : ℕ → ℕ → Heap → Run Heap ℕ
set_car_x x e h =
    if type_at h x == t_pair
    then ok cell_unspecified (write_car h x e)
    else error not_a_pair (both (object x) (named "set-car!")) h

unfoldable pub set_cdr_x : ℕ → ℕ → Heap → Run Heap ℕ
set_cdr_x x e h =
    if type_at h x == t_pair
    then ok cell_unspecified (write_cdr h x e)
    else error not_a_pair (both (object x) (named "set-cdr!")) h

-- `lexical_p` is the second word.
unfoldable pub make_binding_ : ℕ → ℕ → Heap → Run Heap ℕ
make_binding_ handle lexical_p = do
  binding ← make_cell t_binding handle 0
  λ h. ok binding (write_cdr h binding lexical_p)

unfoldable pub make_binding : ℕ → ℕ → Heap → Run Heap ℕ
make_binding name variable = do handle ← cons name variable; make_binding_ handle 0

unfoldable pub make_closure_ : ℕ → ℕ → ℕ → Heap → Run Heap ℕ
make_closure_ args body a = do
  c ← cons cell_circular a
  d ← cons args body
  closure ← cons c d
  make_cell t_closure cell_f closure

unfoldable pub macro_get_handle : Limits → ℕ → Machine → Run Machine ℕ
macro_get_handle l name m =
    if type_at m.heap name == t_symbol
    then on_heap (hashq_get_handle l.rounds m.macros name) m
    else ok cell_f m

unfoldable pub get_macro : Limits → ℕ → Machine → Run Machine ℕ
get_macro l name = do
  entry ← macro_get_handle l name
  λ m. if entry == cell_f then ok cell_f m else ok (car_at m.heap (cdr_at m.heap entry)) m

unfoldable pub macro_set_x : ℕ → ℕ → Machine → Run Machine ℕ
macro_set_x name value m = on_heap (hashq_set_x m.macros name value) m

unfoldable pub call_lambda : ℕ → ℕ → Machine → Run Machine ℕ
call_lambda e x = do
  c ← on_heap (cons cell_closure x)
  cl ← on_heap (cons c x)
  λ m. ok cell_unspecified (record m { r1 = e; r0 = cl })

unfoldable pub lookup_binding : Applier → Limits → ℕ → ℕ → Machine → Run Machine ℕ
lookup_binding applier l name define_p = do
  handle ← (λ m. on_heap (assq l.rounds name m.r0) m)
  λ m.
      if not (handle == cell_f)
      then on_heap (make_binding_ handle 1) m
      else (do
        variable ← current_module_variable applier l name define_p
        if not (variable == cell_f) then on_heap (make_binding name variable) else pure cell_f)
          m

-- The value of the binding that stands in a `TBINDING`.
unfoldable pub binding_value : ℕ → Heap → Run Heap ℕ
binding_value binding h =
    let cell = cdr_at h (car_at h binding) in
    if not (cdr_at h binding == 0) then ok cell h else variable_ref cell h

unfoldable pub lookup_value : Applier → Limits → ℕ → Machine → Run Machine ℕ
lookup_value applier l name = do
  binding ← lookup_binding applier l name cell_f
  if binding == cell_f then pure cell_undefined else on_heap (binding_value binding)

-- The assignment once the binding is found.
unfoldable pub set_binding : ℕ → ℕ → ℕ → ℕ → Heap → Run Heap ℕ
set_binding x binding e define_p h =
    let entry = car_at h binding in
    if binding == cell_f
    then error unbound_variable (object x) h
    else if not (cdr_at h binding == 0)
    then set_cdr_x entry e h
    else (do
      old ← (if define_p == 0 then variable_ref (cdr_at h entry) else pure cell_unspecified)
      _ ← (λ h'.
          if (define_p == 0) && (old == cell_undefined)
          then error unbound_variable (object (car_at h' entry)) h'
          else variable_set_x (cdr_at h' entry) e h')
      pure cell_unspecified)
        h

unfoldable pub set_x : Applier → Limits → ℕ → ℕ → ℕ → Machine → Run Machine ℕ
set_x applier l x e define_p m =
    (do
      binding ←
          (if type_at m.heap x == t_binding then pure x else lookup_binding applier l x cell_f)
      on_heap (set_binding x binding e define_p))
      m
