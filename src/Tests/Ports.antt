-- ===== src/Tests/Ports.antt =====
-- A string port of two characters behind another one; a character is read and given back.
use mes.Base.{ℕ, ◌-◌, ◌^◌, ◌<◌, ◌≡◌, refl, [], arith, ◌==◌, if◌then◌else◌}
use mes.Heap.{Cell, Heap, ok, cell}
use mes.Heap.Const.{t_bytes, t_pair, t_port, t_string}
use mes.Ports.{Ports, readchar, unreadchar}
use mes.Ports.Unread.{IsCurrent, port_text, port_length, unreadchar-readchar}
use mes.Reader.{eof}

abbrev port_cells : ℕ → Cell
port_cells p =
    if p == 18
    then cell t_pair 19 20
    else if p == 19
    then cell t_port (2 ^ 64 - 3) 22
    else if p == 20
    then cell t_pair 21 3
    else if p == 21
    then cell t_port (2 ^ 64 - 2) 22
    else if p == 22
    then cell t_string 2 23
    else cell t_bytes 3 0

abbrev port_machine : Ports
port_machine = record {
  heap = record {
    cells = port_cells;
    bytes = λ p i. if i == 0 then b'h' else if i == 1 then b'i' else 0;
    free = 26;
    base = 2;
    arena_size = 100;
    max_string = 100;
  };
  ports = 18;
  stdin = 2 ^ 64 - 2;
  files = λ fd. [];
  ungetc = λ fd. eof;
}

port_machine-IsCurrent : IsCurrent 1 21 port_machine
port_machine-IsCurrent = record {
  negative = refl;
  listed = (
    λ e. omega arith,
    λ e. omega arith,
    omega arith,
    omega arith,
    λ e. omega arith,
    (λ e. omega arith, λ e. omega arith, omega arith, refl, refl),
  );
  below = omega arith;
}

unreadchar-readchar_example :
    (h h' : Heap) × (readchar 2 port_machine ≡ ok b'h' (record port_machine { heap = h }))
    × (unreadchar 2 b'h' (record port_machine { heap = h })
        ≡ ok b'h' (record port_machine { heap = h' }))
    × (port_length h' 21 ≡ 2)
    × ((i : ℕ) → i < 2 → port_text h' 21 i ≡ port_text port_machine.heap 21 i)
    × IsCurrent 1 21 (record port_machine { heap = h' })
unreadchar-readchar_example =
    unreadchar-readchar 2 1 21 port_machine port_machine-IsCurrent (omega arith) (omega arith)
      (omega arith) (omega arith)
      (record { above = omega arith; fits = omega arith; small = omega arith })
