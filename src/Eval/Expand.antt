-- ===== src/Eval/Expand.antt =====
-- `expand_variable` of src/eval-apply.c: the free variables of a form are replaced by bindings.
use mes.Base.{ℕ, zero, suc, Bool, true, false, not, ◌&&◌, ◌||◌, ◌==◌, if◌then◌else◌}
use mes.Eval.{Applier, lookup_binding}
use mes.Heap.{Heap, Run, ok, out_of_fuel, ◌>>=◌, ◌>>◌, pure, type_at, car_at, cdr_at, write_car}
use mes.Heap.Alloc.{cons}
use mes.Heap.Const.{t_pair, t_symbol, cell_nil, cell_f, cell_t, cell_unspecified}
use mes.Heap.Symbols.{
  cell_symbol_lambda, cell_symbol_quote, cell_symbol_define, cell_symbol_define_macro,
  cell_symbol_current_environment,
}
use mes.Machine.{Machine, on_heap, gc_push_frame, gc_pop_frame}
use mes.Modules.{Limits}

unfoldable pub add_formals : ℕ → ℕ → ℕ → Heap → Run Heap ℕ
add_formals zero formals x h = out_of_fuel
add_formals (suc k) formals x h =
    let rest = add_formals k in
    if type_at h x == t_pair
    then (do more ← cons (car_at h x) formals; λ h. rest more (cdr_at h x) h) h
    else if type_at h x == t_symbol
    then cons x formals h
    else ok formals h

-- Whether the walk stops at a pair that holds `x`, and if not, at the symbol `x`.
unfoldable pub formal_loop : ℕ → ℕ → ℕ → Heap → Run Heap Bool
formal_loop zero x formals h = out_of_fuel
formal_loop (suc k) x formals h =
    let rest = formal_loop k x (cdr_at h formals) h in
    if type_at h formals == t_pair
    then (if car_at h formals == x then ok true h else rest)
    else ok ((type_at h formals == t_symbol) && (x == formals)) h

unfoldable pub formal_p : ℕ → ℕ → ℕ → Heap → Run Heap Bool
formal_p k x formals h =
    if type_at h formals == t_symbol then ok (x == formals) h else formal_loop k x formals h

abbrev defines : ℕ → Bool
defines a = (a == cell_symbol_define) || (a == cell_symbol_define_macro)

-- The internal definitions are added to the formals in `R2`.
unfoldable pub internal_defines : ℕ → ℕ → Machine → Run Machine (Unit {0})
internal_defines zero v m = out_of_fuel
internal_defines (suc k) v m =
    let h = m.heap in
    let a = car_at h v in
    let name = car_at h (cdr_at h a) in
    let name = if type_at h name == t_pair then car_at h name else name in
    let rest = internal_defines k in
    if not (type_at h v == t_pair) || (a == cell_symbol_quote)
    then ok tt m
    else if (type_at h a == t_pair) && defines (car_at h a)
    then (do r2 ← on_heap (cons name m.r2); λ m. rest (cdr_at m.heap v) (record m { r2 = r2 })) m
    else rest (cdr_at h v) m

-- What a name stands for: the binding there is, or that of a definition made for it.
unfoldable pub bind_name : Applier → Limits → ℕ → Machine → Run Machine ℕ
bind_name applier l a = do
  v ← lookup_binding applier l a cell_f
  λ m. if not (v == cell_f) then ok v m else lookup_binding applier l a cell_t m

-- The formals that the element `a` of the form in `R1` adds, if it is a head that binds.
unfoldable pub bound_formals : Bool → Machine → ℕ
bound_formals top_p m =
    let h = m.heap in
    let f = car_at h (cdr_at h m.r1) in
    if (car_at h m.r1 == cell_symbol_lambda) || not top_p
    then f
    else if type_at h f == t_pair
    then cdr_at h f
    else cell_nil

-- One element of the form in `R1`, which is no quote: pairs are put off on the list in `R3`.
unfoldable pub expand_element : Applier → Limits → Bool → Machine → Run Machine (Unit {0})
expand_element applier l top_p m =
    let h = m.heap in
    let a = car_at h m.r1 in
    if type_at h a == t_pair
    then (do
      p ← on_heap (cons a m.r2)
      r3 ← on_heap (cons p m.r3)
      λ m. ok tt (record m { r3 = r3 }))
        m
    else if (a == cell_symbol_lambda) || defines a
    then (do
      r2 ← on_heap (add_formals l.rounds m.r2 (bound_formals top_p m))
      λ m. ok tt (record m { r2 = r2; r1 = cdr_at m.heap m.r1 }))
        m
    else if (type_at h a == t_symbol) && not (a == cell_symbol_current_environment)
    then (do
      bound ← on_heap (formal_p l.rounds a m.r2)
      λ m.
          if bound
          then ok tt m
          else (do
            v ← bind_name applier l a
            λ m. ok tt (record m { heap = write_car m.heap m.r1 v }))
              m)
        m
    else ok tt m

unfoldable pub expand_loop : ℕ → Applier → Limits → Bool → Machine → Run Machine (Unit {0})
expand_loop zero applier l top_p m = out_of_fuel
expand_loop (suc k) applier l top_p m =
    let a = car_at m.heap m.r1 in
    let quoted = (a == cell_symbol_quote) && not (type_at m.heap a == t_pair) in
    let rest = expand_loop k applier l in
    if not (type_at m.heap m.r1 == t_pair) || quoted
    then ok tt m
    else (do expand_element applier l top_p; λ m. rest false (record m { r1 = cdr_at m.heap m.r1 }))
        m

unfoldable pub expand_variable_ : Applier → Limits → Bool → Machine → Run Machine (Unit {0})
expand_variable_ applier l top_p m =
    (do internal_defines l.rounds m.r1; expand_loop l.rounds applier l top_p) m

-- The forms that were put off.
unfoldable pub expand_pending : ℕ → Applier → Limits → Machine → Run Machine (Unit {0})
expand_pending zero applier l m = out_of_fuel
expand_pending (suc k) applier l m =
    let h = m.heap in
    let first = car_at h m.r3 in
    let rest = expand_pending k applier l in
    if type_at h m.r3 == t_pair
    then (do expand_variable_ applier l false; rest)
        (record m { r1 = car_at h first; r2 = cdr_at h first; r3 = cdr_at h m.r3 })
    else ok tt m

unfoldable pub expand_variable : Applier → Limits → ℕ → ℕ → Machine → Run Machine ℕ
expand_variable applier l x formals = do
  gc_push_frame
  λ m. expand_variable_ applier l true (record m { r1 = x; r2 = formals; r3 = cell_nil })
  expand_pending l.rounds applier l
  gc_pop_frame
  pure cell_unspecified
