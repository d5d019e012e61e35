-- ===== src/Tests/Core.antt =====
-- src/core.c on lists of the sample heap, and stack frames.
use mes.Base.{◌≡◌, refl, inr, [], ◌∷◌, arith, minus_one}
use mes.Core.{list_length, append_reverse, reverse_x, assq}
use mes.Core.Append.{Builds, append_reverse-Builds}
use mes.Core.Assq.{same_key, assq-find_entry}
use mes.Core.Length.{list_length-Chain}
use mes.Core.Reverse.{Reverses, reverse_x-Reverses}
use mes.Heap.{ok, update}
use mes.Heap.Const.{cell_f}
use mes.Machine.{Machine, gc_push_frame, gc_pop_frame, push_cc}
use mes.Machine.Frame.{gc_pop_frame-push_cc}
use mes.Tests.{sample, sample-Room}

list_length-Chain_example : list_length 9 28 sample ≡ ok minus_one sample
list_length-Chain_example =
    list_length-Chain sample 21 2 9 28 (omega arith, refl, (omega arith, refl, refl))
      (inr (omega arith)) (omega arith)

append_reverse-Builds_example :
    Builds sample 2 (21 ∷ 20 ∷ 21 ∷ 20 ∷ []) (append_reverse 9 24 26 sample)
append_reverse-Builds_example =
    append_reverse-Builds (20 ∷ 21 ∷ []) (21 ∷ 20 ∷ []) 9 24 26 sample (sample-Room (omega arith))
      (omega arith)
      (omega arith, omega arith, refl, refl, (omega arith, omega arith, refl, refl, refl))
      (omega arith, omega arith, refl, refl, (omega arith, omega arith, refl, refl, refl))
      (omega arith)

reverse_x-Reverses_example :
    Reverses (24 ∷ 25 ∷ []) (26 ∷ 27 ∷ []) sample (reverse_x 9 24 26 sample)
reverse_x-Reverses_example =
    reverse_x-Reverses (24 ∷ 25 ∷ []) (26 ∷ 27 ∷ []) 9 24 26 sample
      (refl, omega arith, refl, (refl, omega arith, refl, refl))
      (refl, omega arith, refl, (refl, omega arith, refl, refl))
      (
        (omega arith, tt),
        (omega arith, (omega arith, tt)),
        (tt, (omega arith, (omega arith, (omega arith, tt))), tt),
      )
      (omega arith)

assq-find_entry_example : assq 9 21 35 sample ≡ ok 34 sample
unfolding same_key
assq-find_entry_example =
    assq-find_entry sample 50 9 21 35 (33 ∷ 34 ∷ [])
      (omega arith, omega arith, refl, refl, (omega arith, omega arith, refl, refl, refl))
      (omega arith)

abbrev machine : Machine
machine = record {
  heap = sample;
  stack = 50;
  stack_size = 100;
  stack_array = λ i. i;
  r0 = 20;
  r1 = 21;
  r2 = 22;
  r3 = 23;
  m0 = 3;
  m1 = 3;
  symbols = 3;
  macros = 3;
  ports = 3;
  hash_table_type = 3;
  variable_type = 3;
  symbol_max = 20;
  arena = 1;
  max_arena_size = 1000;
  jam_size = 20;
  gc_safety = 10;
  gc_count = 0;
  continuations = 0;
}

abbrev called : Machine
called = record machine {
  stack = 45;
  r0 = 36;
  r1 = 24;
  r2 = 31;
  stack_array =
      update (update (update (update (update (λ i. i) 49 cell_f) 48 20) 47 21) 46 31) 45 30;
}

called_lem : push_cc 24 31 36 30 machine ≡ ok tt called
unfolding push_cc gc_push_frame
called_lem = refl

-- A callee that leaves other registers behind.
abbrev left_behind : Machine
left_behind = record called { r0 = 4; r1 = 4; r2 = 4; r3 = 4; gc_count = 1 }

gc_pop_frame-push_cc_example :
    gc_pop_frame left_behind
    ≡ ok tt (record left_behind { r0 = 20; r1 = 21; r2 = 31; r3 = 30; stack = 50 })
gc_pop_frame-push_cc_example =
    gc_pop_frame-push_cc 24 31 36 30 machine called left_behind (omega arith) called_lem refl
      (λ i le lt. refl)
