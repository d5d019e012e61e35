-- ===== src/Eval/Semantics.antt =====
-- What the expressions of the core language mean: constants, variables that are bound already and
-- names of the lexical environment, `quote`, `lambda`, `if`, `set!` of a lexical name, `begin`, and the calls of closures
-- and of `lambda` forms. It is a
-- relation on heaps; it knows no label, no stack and no register. The forms are those of
-- src/eval-apply.c.
use mes.Base.{ℕ, suc, ◌+◌, ◌-◌, ◌≡◌, Bool, true, false, not, ◌&&◌, ◌||◌, leb, ◌==◌}
use mes.Core.{append2, assq}
use mes.Eval.{
  check_formals, check_apply, pairlis, make_binding_, make_closure_, binding_value, set_binding,
}
use mes.Eval.Label.{cadr_at, cddr_at, caddr_at}
use mes.Heap.{Heap, ok, type_at, car_at, cdr_at, write_car}
use mes.Heap.Alloc.{cons}
use mes.Heap.Const.{
  t_closure, t_pair, t_symbol, t_binding, t_broken_heart, cell_nil, cell_f, cell_undefined,
  cell_unspecified, cell_closure,
}
use mes.Heap.Symbols.{
  cell_vm_macro_expand, cell_symbol_lambda, cell_symbol_begin, cell_symbol_if, cell_symbol_quote,
  cell_symbol_define, cell_symbol_define_macro, cell_symbol_set_x,
  cell_symbol_call_with_current_continuation, cell_symbol_current_environment,
}
use mes.Modules.{Limits}

-- What is asked of `x`: its value, the list of the values of its elements, the value of a call
-- with evaluated operands, or that of the last of its forms, the value before being given.
pub data Task : Type 0 where
  value_of operands_of call_of : Task
  sequence_of : ℕ → Task

-- Objects that are their own values.
abbrev pub is_constant : Heap → ℕ → Bool
is_constant h x = not (
    (type_at h x == t_pair)
    || ((type_at h x == t_symbol)
        || ((type_at h x == t_binding) || (type_at h x == t_broken_heart))))

abbrev pub is_keyword : ℕ → Bool
is_keyword x =
    (x == cell_symbol_current_environment)
    || ((x == cell_symbol_begin) || (x == cell_symbol_call_with_current_continuation))

-- The heads that make a pair a form of its own.
abbrev pub is_syntax : ℕ → Bool
is_syntax c =
    (c == cell_symbol_quote)
    || ((c == cell_symbol_begin)
        || ((c == cell_symbol_lambda)
            || ((c == cell_symbol_if)
                || ((c == cell_symbol_set_x)
                    || ((c == cell_vm_macro_expand)
                        || ((c == cell_symbol_define) || (c == cell_symbol_define_macro)))))))

abbrev pub is_begin_form : Heap → ℕ → Bool
is_begin_form h x =
    (type_at h x == t_pair)
    && ((type_at h (car_at h x) == t_pair) && (car_at h (car_at h x) == cell_symbol_begin))

-- There are cells enough: no collection is due. `g` is `gc_safety`.
abbrev pub has_cells : ℕ → Heap → Bool
has_cells g h = not (leb h.arena_size (h.free - h.base + g))

-- The pair `x`, after its head is looked up if that is a binding.
pub data Head (x : ℕ) (h : Heap) : Heap → Type 0 where
  head_plain : type_at h x ≡ t_pair → (type_at h (car_at h x) == t_binding) ≡ false → Head x h h
  head_bound :
      {value : ℕ} {h₁ : Heap}
      → type_at h x ≡ t_pair
      → type_at h (car_at h x) ≡ t_binding
      → binding_value (car_at h x) h ≡ ok value h₁
      → (value == cell_undefined) ≡ false
      → Head x h (write_car h₁ x value)

-- The forms in `x`, after a `begin` at their head is spliced into them.
pub data Forms (l : Limits) (g x : ℕ) (h : Heap) : ℕ → Heap → Type 0 where
  forms_plain :
      (x == cell_nil) ≡ false → has_cells g h ≡ true → is_begin_form h x ≡ false → Forms l g x h x h
  forms_spliced :
      {y : ℕ} {h₁ : Heap}
      → (x == cell_nil) ≡ false
      → has_cells g h ≡ true
      → is_begin_form h x ≡ true
      → append2 l.rounds (cdr_at h (car_at h x)) (cdr_at h x) h ≡ ok y h₁
      → Forms l g x h y h₁

-- `Evaluates l g d t e x h v h'`: the task `t` at `x` in the environment `e` and the heap `h` has
-- the value `v` and leaves the heap `h'`, with at most `d` frames on the stack at a time.
pub data Evaluates (l : Limits) (g : ℕ) : ℕ → Task → ℕ → ℕ → Heap → ℕ → Heap → Type 0 where
  constant_rule :
      {d e x : ℕ} {h : Heap} → is_constant h x ≡ true → Evaluates l g d value_of e x h x h
  keyword_rule :
      {d e x : ℕ} {h : Heap}
      → type_at h x ≡ t_symbol
      → is_keyword x ≡ true
      → Evaluates l g d value_of e x h x h
  variable_rule :
      {d e x v : ℕ} {h h' : Heap}
      → type_at h x ≡ t_binding
      → binding_value x h ≡ ok v h'
      → (v == cell_undefined) ≡ false
      → Evaluates l g d value_of e x h v h'
  symbol_rule :
      {d e x handle b v : ℕ} {h h₁ h₂ h' : Heap}
      → type_at h x ≡ t_symbol
      → is_keyword x ≡ false
      → assq l.rounds x e h ≡ ok handle h₁
      → (handle == cell_f) ≡ false
      → make_binding_ handle 1 h₁ ≡ ok b h₂
      → (b == cell_f) ≡ false
      → binding_value b h₂ ≡ ok v h'
      → (v == cell_undefined) ≡ false
      → Evaluates l g d value_of e x h v h'
  quote_rule :
      {d e x : ℕ} {h h₁ : Heap}
      → Head x h h₁
      → car_at h₁ x ≡ cell_symbol_quote
      → Evaluates l g d value_of e x h (cadr_at h₁ x) h₁
  lambda_rule :
      {d e x v : ℕ} {h h₁ h' : Heap}
      → Head x h h₁
      → car_at h₁ x ≡ cell_symbol_lambda
      → make_closure_ (cadr_at h₁ x) (cddr_at h₁ x) e h₁ ≡ ok v h'
      → Evaluates l g d value_of e x h v h'
  begin_rule :
      {d e x v : ℕ} {h h₁ h' : Heap}
      → Head x h h₁
      → car_at h₁ x ≡ cell_symbol_begin
      → Evaluates l g d (sequence_of cell_unspecified) e x h₁ v h'
      → Evaluates l g d value_of e x h v h'
  if_true_rule :
      {d e x t v : ℕ} {h h₁ h₂ h' : Heap}
      → Head x h h₁
      → car_at h₁ x ≡ cell_symbol_if
      → Evaluates l g d value_of e (cadr_at h₁ x) h₁ t h₂
      → (t == cell_f) ≡ false
      → Evaluates l g (suc d) value_of e (cadr_at h₂ (cdr_at h₁ x)) h₂ v h'
      → Evaluates l g (suc d) value_of e x h v h'
  if_false_rule :
      {d e x v : ℕ} {h h₁ h₂ h' : Heap}
      → Head x h h₁
      → car_at h₁ x ≡ cell_symbol_if
      → Evaluates l g d value_of e (cadr_at h₁ x) h₁ cell_f h₂
      → (cddr_at h₂ (cdr_at h₁ x) == cell_nil) ≡ false
      → Evaluates l g (suc d) value_of e (caddr_at h₂ (cdr_at h₁ x)) h₂ v h'
      → Evaluates l g (suc d) value_of e x h v h'
  if_only_rule :
      {d e x : ℕ} {h h₁ h₂ : Heap}
      → Head x h h₁
      → car_at h₁ x ≡ cell_symbol_if
      → Evaluates l g d value_of e (cadr_at h₁ x) h₁ cell_f h₂
      → cddr_at h₂ (cdr_at h₁ x) ≡ cell_nil
      → Evaluates l g (suc d) value_of e x h cell_unspecified h₂
  set_rule :
      {d e x v u : ℕ} {h h₁ h₂ h' : Heap}
      → Head x h h₁
      → car_at h₁ x ≡ cell_symbol_set_x
      → Evaluates l g d value_of e (caddr_at h₁ x) h₁ v h₂
      → type_at h₂ (cadr_at h₂ x) ≡ t_binding
      → set_binding (cadr_at h₂ x) (cadr_at h₂ x) v 0 h₂ ≡ ok u h'
      → Evaluates l g (suc d) value_of e x h u h'
  call_rule :
      {d e x f v args c : ℕ} {h h₁ h₂ h₃ h₄ h' : Heap}
      → Head x h h₁
      → is_syntax (car_at h₁ x) ≡ false
      → has_cells g h₁ ≡ true
      → Evaluates l g d value_of e (car_at h₁ x) h₁ f h₂
      → Evaluates l g d operands_of e (cdr_at h₂ x) h₂ args h₃
      → cons (car_at h₃ x) args h₃ ≡ ok c h₄
      → Evaluates l g (suc d) call_of e c h₄ v h'
      → Evaluates l g (suc d) value_of e x h v h'
  closure_rule :
      {d e x u a c e' v : ℕ} {h h₁ h₂ h₃ h₄ h' : Heap}
      → type_at h (car_at h x) ≡ t_closure
      → check_formals l (car_at h x) (cadr_at h (cdr_at h (car_at h x))) (cdr_at h x) h ≡ ok u h₁
      → pairlis l.rounds
          (cadr_at h (cdr_at h (car_at h x)))
          (cdr_at h x)
          (cddr_at h (car_at h (cdr_at h (car_at h x))))
          h₁
        ≡ ok a h₂
      → cons cell_closure a h₂ ≡ ok c h₃
      → cons c a h₃ ≡ ok e' h₄
      → Evaluates l g d
          (sequence_of cell_unspecified)
          e'
          (cddr_at h (cdr_at h (car_at h x)))
          h₄
          v
          h'
      → Evaluates l g d call_of e x h v h'
  immediate_rule :
      {d e x u a c e' v : ℕ} {h h₁ h₂ h₃ h₄ h' : Heap}
      → type_at h (car_at h x) ≡ t_pair
      → car_at h (car_at h x) ≡ cell_symbol_lambda
      → pairlis l.rounds (cadr_at h (car_at h x)) (cdr_at h x) e h ≡ ok a h₁
      → check_formals l x (cadr_at h (car_at h x)) (cdr_at h x) h₁ ≡ ok u h₂
      → cons cell_closure a h₂ ≡ ok c h₃
      → cons c a h₃ ≡ ok e' h₄
      → Evaluates l g d (sequence_of cell_unspecified) e' (cddr_at h (car_at h x)) h₄ v h'
      → Evaluates l g d call_of e x h v h'
  operator_rule :
      {d e x w u c v : ℕ} {h h₁ h₂ h₃ h' : Heap}
      → type_at h (car_at h x) ≡ t_pair
      → (car_at h (car_at h x) == cell_symbol_lambda) ≡ false
      → Evaluates l g d value_of e (car_at h x) h w h₁
      → check_apply w h₁ ≡ ok u h₂
      → cons w (cdr_at h₂ x) h₂ ≡ ok c h₃
      → Evaluates l g (suc d) call_of e c h₃ v h'
      → Evaluates l g (suc d) call_of e x h v h'
  no_operands_rule :
      {d e x : ℕ} {h : Heap} → (x == cell_nil) ≡ true → Evaluates l g d operands_of e x h x h
  operands_rule :
      {d e x w ws v : ℕ} {h h₁ h₂ h' : Heap}
      → (x == cell_nil) ≡ false
      → type_at h x ≡ t_pair
      → Evaluates l g d value_of e (car_at h x) h w h₁
      → Evaluates l g d operands_of e (cdr_at h₁ x) h₁ ws h₂
      → cons w ws h₂ ≡ ok v h'
      → Evaluates l g (suc d) operands_of e x h v h'
  ended_rule :
      {d e x w : ℕ} {h : Heap} → (x == cell_nil) ≡ true → Evaluates l g d (sequence_of w) e x h w h
  last_rule :
      {d e x y w v : ℕ} {h h₁ h' : Heap}
      → Forms l g x h y h₁
      → (cdr_at h₁ y == cell_nil) ≡ true
      → Evaluates l g d value_of e (car_at h₁ y) h₁ v h'
      → Evaluates l g d (sequence_of w) e x h v h'
  next_rule :
      {d e x y w w' v : ℕ} {h h₁ h₂ h' : Heap}
      → Forms l g x h y h₁
      → (cdr_at h₁ y == cell_nil) ≡ false
      → Evaluates l g d value_of e (car_at h₁ y) h₁ w' h₂
      → Evaluates l g (suc d) (sequence_of w') e (cdr_at h₂ y) h₂ v h'
      → Evaluates l g (suc d) (sequence_of w) e x h v h'
