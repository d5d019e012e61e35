-- ===== src/Heap.antt =====
-- The cell heap of src/gc.c and include/mes/mes.h: cells, the words that they hold, what an
-- operation returns, and how the operations read and write the heap.
--
-- A `struct scm` is three machine words; the two unions are the words `car` and `cdr`, whatever
-- field name the code uses for them. A pointer is the number of its cell. What stands behind
-- `cell_bytes (p)` is kept beside the cells, as a function from the offset to the byte.
pub mod Const
pub mod Alloc
pub mod Agree
pub mod Text
pub mod Symbols
use Prim.Native.String.{String}
use mes.Base.{ℕ, ◌≡◌, ap, ◌==◌, if◌then◌else◌}

pub record Cell : Type 0 where
  pub ctype : ℕ
  pub car : ℕ
  pub cdr : ℕ

-- `g_free`, `g_cells`, `ARENA_SIZE` and `MAX_STRING` are the globals of these names.
pub record Heap : Type 0 where
  pub cells : ℕ → Cell
  pub bytes : ℕ → ℕ → ℕ
  pub free : ℕ
  pub base : ℕ
  pub arena_size : ℕ
  pub max_string : ℕ

-- The keys of `error (key, x)`.
pub data Key : Type 0 where
  not_a_pair not_a_number system_error wrong_type_arg wrong_number_of_args : Key
  unbound_variable divide_by_zero : Key

-- The second argument of `error`, as a term: the objects it names and the texts it makes.
pub data Irritant : Type 0 where
  object : ℕ → Irritant
  named : String → Irritant
  message : String → Irritant
  number : ℕ → Irritant
  both : Irritant → Irritant → Irritant

-- `throw` is a call of `error`, which does not come back; `abort` a failed `assert_msg`, which
-- ends the program; `out_of_fuel` a loop that was given too few rounds.
pub data Run (S A : Type 0) : Type 0 where
  ok : A → S → Run S A
  throw : Key → Irritant → S → Run S A
  abort : Run S A
  out_of_fuel : Run S A

module _ {S A B : Type 0} where
  infixl 5 ◌>>=◌
  abbrev pub and_then : Run S A → (A → S → Run S B) → Run S B
  and_then (ok a s) k = k a s
  and_then (throw key x s) k = throw key x s
  and_then abort k = abort
  and_then out_of_fuel k = out_of_fuel

  abbrev pub ◌>>=◌ : (S → Run S A) → (A → S → Run S B) → S → Run S B
  ◌>>=◌ m k s = and_then (m s) k

module _ {S B : Type 0} where
  infixl 5 ◌>>◌
  abbrev pub ◌>>◌ : (S → Run S (Unit {0})) → (S → Run S B) → S → Run S B
  ◌>>◌ m k = m >>= λ _. k

-- What is done after a result.
pub and_then-ok :
    {S A B : Type 0} (f : S → Run S A) (k : A → S → Run S B) {a : A} {s s' : S}
    → f s ≡ ok a s'
    → and_then (f s) k ≡ k a s'
and_then-ok f k e = ap (λ r. and_then r k) e

abbrev pub pure : {S A : Type 0} → A → S → Run S A
pure a s = ok a s

abbrev pub error : {S A : Type 0} → Key → Irritant → S → Run S A
error key x s = throw key x s

-- The three words of `p`.
abbrev pub type_at : Heap → ℕ → ℕ
type_at h p = (h.cells p).ctype

abbrev pub car_at : Heap → ℕ → ℕ
car_at h p = (h.cells p).car

abbrev pub cdr_at : Heap → ℕ → ℕ
cdr_at h p = (h.cells p).cdr

abbrev pub cell : ℕ → ℕ → ℕ → Cell
cell t a d = record { ctype = t; car = a; cdr = d }

module _ {A : Type 0} where
  abbrev pub update : (ℕ → A) → ℕ → A → ℕ → A
  update f p v q = if p == q then v else f q

-- `*p = c`.
abbrev pub write : Heap → ℕ → Cell → Heap
write h p c = record h { cells = update h.cells p c }

abbrev pub write_car : Heap → ℕ → ℕ → Heap
write_car h p a = write h p (cell (type_at h p) a (cdr_at h p))

abbrev pub write_cdr : Heap → ℕ → ℕ → Heap
write_cdr h p d = write h p (cell (type_at h p) (car_at h p) d)

abbrev pub put : ℕ → Cell → Heap → Run Heap (Unit {0})
put p c h = ok tt (write h p c)
