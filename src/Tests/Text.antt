-- ===== src/Tests/Text.antt =====
-- The C strings and blocks of lib/mes: a memory with the text `AAA` at 0 and another at 10.
use mes.Base.{ℕ, ◌≡◌, refl, inr, ◌||◌, some, arith, ◌==◌, if◌then◌else◌}
use mes.Libc.Memory.{memmove}
use mes.Libc.Memory.Move.{moved, memmove-moved}
use mes.Libc.Text.{strcpy}
use mes.Libc.Text.Copy.{Copied, strcpy-Copied}

abbrev memory : ℕ → ℕ
memory q = if (q == 3) || (q == 13) then 0 else 65

memmove-moved_example : memmove 4 memory 2 0 5 ≡ moved 4 memory 2 0 5
memmove-moved_example = memmove-moved 4 memory 2 0 5

strcpy-Copied_example : (m' : ℕ → ℕ) × (strcpy 9 memory 20 0 ≡ some m') × Copied 3 20 0 memory m'
strcpy-Copied_example =
    strcpy-Copied 3 9 memory 20 0 (omega arith, (omega arith, (omega arith, refl)))
      (inr (omega arith)) (omega arith)
