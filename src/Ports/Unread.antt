-- ===== src/Ports/Unread.antt =====
-- `readchar` and `unreadchar` of src/posix.c on a string port.
use mes.Base.{
  ℕ, zero, suc, ◌+◌, ◌-◌, ◌%◌, ◌≤◌, ◌<◌, ◌≡◌, refl, sym, ap, ◌∙◌, fun_ext, subst, ◌≢◌, true, false,
  ◌&&◌, arith, ltb, ◌==◌, if◌then◌else◌, is_negative,
}
use mes.Heap.{Cell, Heap, Run, ok, and_then-ok, car_at, cdr_at, write_cdr, put}
use mes.Heap.Agree.{Room, Room-mono}
use mes.Heap.Alloc.{bytes_cells, copy_bytes, make_string}
use mes.Heap.Text.{MakesString, make_string-MakesString}
use mes.Ports.{
  Ports, on_cells, find_port, current_input_port, char_int, take_char, readchar, give_back,
  unreadchar,
}
use mes.Reader.{eof}
use mes.Strings.{text_of}

-- From `x` on the list of ports holds, behind `n` ports with other numbers, the port whose number
-- is `wanted`; no cell of the list is the port itself.
abbrev pub IsListed : Heap → ℕ → ℕ → ℕ → ℕ → Type 0
IsListed h wanted port zero x =
    (x ≢ 0) × (x ≢ port) × (x < h.free) × (car_at h x ≡ port) × (car_at h port ≡ wanted)
IsListed h wanted port (suc n) x =
    (x ≢ 0)
    × (x ≢ port)
    × (x < h.free)
    × (car_at h x < h.free)
    × (car_at h (car_at h x) ≢ wanted)
    × IsListed h wanted port n (cdr_at h x)

-- The port is the one of `g_ports`, behind `n` others, whose number is that of the current input.
pub record IsCurrent (n port : ℕ) (p : Ports) : Type 0 where
  pub negative : is_negative p.stdin ≡ true
  pub listed : IsListed p.heap p.stdin port n p.ports
  pub below : port < p.heap.free

find_port-listed :
    (n k port x : ℕ) (p : Ports)
    → IsListed p.heap p.stdin port n x
    → n < k
    → find_port k x p ≡ ok port p
unfolding find_port
find_port-listed zero zero port x p l lt = absurd (omega arith)
find_port-listed (suc n) zero port x p l lt = absurd (omega arith)
find_port-listed zero (suc k) port x p (some_cell, apart, below, first, wanted) lt =
    let go : (x == 0) ≡ false = ground (arith, some_cell) in
    let same : (car_at p.heap port == p.stdin) ≡ true = ground (arith, wanted) in
    rw (first, go, same) refl
find_port-listed (suc n) (suc k) port x p (some_cell, apart, below, inside, other, l) lt =
    let go : (x == 0) ≡ false = ground (arith, some_cell) in
    let differs : (car_at p.heap (car_at p.heap x) == p.stdin) ≡ false = ground (arith, other) in
    rw (go, differs) (find_port-listed n k port (cdr_at p.heap x) p l (omega arith))

found : (n k port : ℕ) (p : Ports) → IsCurrent n port p → n < k → current_input_port k p ≡ ok port p
unfolding current_input_port
found n k port p c lt = rw c.negative (find_port-listed n k port p.ports p c.listed lt)

-- A list of ports survives when no other cell below `g_free` changes and the port keeps its number.
IsListed-frame :
    (n wanted port x : ℕ) (h h' : Heap)
    → h.free ≤ h'.free
    → ((q : ℕ) → q < h.free → car_at h' q ≡ car_at h q)
    → ((q : ℕ) → q < h.free → q ≢ port → cdr_at h' q ≡ cdr_at h q)
    → port < h.free
    → IsListed h wanted port n x
    → IsListed h' wanted port n x
IsListed-frame zero wanted port x h h' le cars cdrs lt (some_cell, apart, below, first, same) =
    (some_cell, apart, omega arith, cars x below ∙ first, cars port lt ∙ same)
IsListed-frame (suc n) wanted port x h h' le cars cdrs lt
      (some_cell, apart, below, inside, other, l) =
    let at = cars x below in
    (
      some_cell,
      apart,
      omega arith,
      omega (arith, at, inside),
      λ e. other (sym (ap (car_at h') at ∙ cars (car_at h x) inside) ∙ e),
      subst (IsListed h' wanted port n) (sym (cdrs x below apart))
          (IsListed-frame n wanted port (cdr_at h x) h h' le cars cdrs lt l),
    )

on_cells-ok :
    {A : Type 0} (f : Heap → Run Heap A) (p : Ports) {a : A} {h : Heap}
    → f (p.heap) ≡ ok a h
    → on_cells f p ≡ ok a (record p { heap = h })
on_cells-ok f p e = rw (on_cells, e) refl

-- What the string of the port holds.
abbrev pub port_text : Heap → ℕ → ℕ → ℕ
port_text h port = text_of h (cdr_at h port)

abbrev pub port_length : Heap → ℕ → ℕ
port_length h port = car_at h (cdr_at h port)

-- The port has a new string of `n` characters, which are those of `s`.
record Replaced (depth port : ℕ) (s : ℕ → ℕ) (n : ℕ) (p : Ports) (h : Heap) : Type 0 where
  length_at : port_length h port ≡ n
  text : (i : ℕ) → i < n → port_text h port i ≡ s i
  current : IsCurrent depth port (record p { heap = h })
  count : h.free ≡ p.heap.free + 1 + bytes_cells (n + 1)
  same_base : h.base ≡ p.heap.base
  same_size : h.arena_size ≡ p.heap.arena_size
  same_max : h.max_string ≡ p.heap.max_string

replaced :
    (depth port : ℕ) (s : ℕ → ℕ) (n : ℕ) (p : Ports) {run : Run Heap ℕ}
    → IsCurrent depth port p
    → (m : MakesString s n p.heap run)
    → Replaced depth port s n p (write_cdr m.heap port p.heap.free)
replaced depth port s n p c m =
    let h = write_cdr m.heap port p.heap.free in
    let at : cdr_at h port ≡ p.heap.free = ground arith in
    let kept : (q : ℕ) → q < p.heap.free → car_at m.heap q ≡ car_at p.heap q =
      λ q l. ap (λ (k : Cell). k.car) (m.extends.same q l) in
    let other : (port == p.heap.free) ≡ false = ground (arith, c.below) in
    let here : h.cells p.heap.free ≡ m.heap.cells p.heap.free = rw other refl in
    let cars : (q : ℕ) → q < p.heap.free → car_at h q ≡ car_at p.heap q =
      λ q l. let same : car_at h q ≡ car_at m.heap q = ground arith in same ∙ kept q l in
    let cdrs : (q : ℕ) → q < p.heap.free → q ≢ port → cdr_at h q ≡ cdr_at p.heap q = λ q l ne.
      let same : cdr_at h q ≡ cdr_at m.heap q = ground arith in
      same ∙ ap (λ (k : Cell). k.cdr) (m.extends.same q l) in
    record {
      length_at = ap (car_at h) at ∙ ap (λ (k : Cell). k.car) here ∙ m.same_length;
      text = λ i lt.
          ap (λ (q : ℕ). text_of h q i) at
          ∙ ap (λ (q : ℕ). m.heap.bytes q i) (ap (λ (k : Cell). k.cdr) here ∙ m.place)
          ∙ m.text i (omega arith);
      current = record {
        negative = c.negative;
        listed =
            IsListed-frame depth p.stdin port p.ports p.heap h (omega (arith, m.count)) cars cdrs
              c.below c.listed;
        below = omega (arith, c.below, m.count);
      };
      count = m.count;
      same_base = m.extends.same_base;
      same_size = m.extends.same_size;
      same_max = m.same_max;
    }

taken :
    (depth port : ℕ) (p : Ports)
    → IsCurrent depth port p
    → 0 < port_length p.heap port
    → port_length p.heap port ≤ p.heap.max_string
    → Room (suc (bytes_cells (port_length p.heap port - 1 + 1))) p.heap
    → (h : Heap) × (take_char port p
        ≡ ok (char_int (port_text p.heap port 0)) (record p { heap = h }))
      × Replaced depth port (λ i. port_text p.heap port (i + 1)) (port_length p.heap port - 1) p h
unfolding take_char
taken depth port p c pos le room =
    let n = port_length p.heap port in
    let s : ℕ → ℕ = λ i. port_text p.heap port (i + 1) in
    let some_left : (port_length p.heap port == 0) ≡ false = ground arith in
    let m = make_string-MakesString s (n - 1) p.heap (omega arith) room in
    (
      write_cdr m.heap port p.heap.free,
      rw some_left (
          and_then-ok (on_cells (make_string s (n - 1))) _
            (on_cells-ok (make_string s (n - 1)) p m.returns)),
      replaced depth port s (n - 1) p c m,
    )

-- The new string with its first byte written.
with_first :
    (c : ℕ) (s : ℕ → ℕ) (n : ℕ) (h : Heap) {run : Run Heap ℕ}
    → (m : MakesString s n h run)
    → (run' : Run Heap ℕ) × (m' : MakesString (λ i. if i == 0 then c % 256 else s i) n h run')
      × (copy_bytes (cdr_at m.heap h.free) (λ i. c % 256) 1 m.heap ≡ ok tt m'.heap)
with_first c s n h m =
    let at = m.place in
    let h' = record (m.heap) {
      bytes = λ q i. if (q == cdr_at m.heap h.free) && ltb i 1 then c % 256 else m.heap.bytes q i;
    } in
    (
      ok h.free h',
      record {
        heap = h';
        returns = refl;
        same_length = m.same_length;
        place = m.place;
        text = λ i le. ground (arith, at, m.text i le);
        extends = record {
          grows = m.extends.grows;
          same = m.extends.same;
          same_bytes = λ q lt. fun_ext (λ i. ground (arith, at)) ∙ m.extends.same_bytes q lt;
          same_base = m.extends.same_base;
          same_size = m.extends.same_size;
        };
        count = m.count;
        same_max = m.same_max;
      },
      refl,
    )

given_back :
    (depth c port : ℕ) (p : Ports)
    → IsCurrent depth port p
    → port_length p.heap port + 1 ≤ p.heap.max_string
    → Room (suc (bytes_cells (port_length p.heap port + 1 + 1))) p.heap
    → (h : Heap) × (give_back c port p ≡ ok c (record p { heap = h }))
      × Replaced depth port
          (λ i. if i == 0 then c % 256 else if i == 0 then 0 else port_text p.heap port (i - 1))
          (port_length p.heap port + 1)
          p
          h
unfolding give_back
given_back depth c port p cur le room =
    let n = port_length p.heap port in
    let s : ℕ → ℕ = λ i. if i == 0 then 0 else port_text p.heap port (i - 1) in
    let m = make_string-MakesString s (n + 1) p.heap le room in
    let (run', m', put) = with_first c s (n + 1) p.heap m in
    let fill : Heap → Run Heap (Unit {0}) =
      λ h. copy_bytes (cdr_at h p.heap.free) (λ i. c % 256) 1 h in
    (
      write_cdr m'.heap port p.heap.free,
      and_then-ok (on_cells (make_string s (n + 1))) _
            (on_cells-ok (make_string s (n + 1)) p m.returns)
          ∙ and_then-ok (on_cells fill)
              (λ _ q. ok c (record q { heap = write_cdr q.heap port p.heap.free }))
              (on_cells-ok fill (record p { heap = m.heap }) put),
      replaced depth port _ (n + 1) p cur m',
    )

given_text :
    (n : ℕ) (t t1 t2 : ℕ → ℕ)
    → t 0 < 128
    → ((i : ℕ) → i < n - 1 → t1 i ≡ t (i + 1))
    → ((i : ℕ) → i < n → t2 i ≡ (if i == 0 then t 0 % 256 else if i == 0 then 0 else t1 (i - 1)))
    → (i : ℕ) → i < n
    → t2 i ≡ t i
given_text n t t1 t2 small first second zero lt =
    let byte : t 0 % 256 ≡ t 0 = omega arith in second 0 lt ∙ byte
given_text n t t1 t2 small first second (suc i) lt =
    let less : suc i - 1 ≡ i = omega arith in
    let more : i + 1 ≡ suc i = omega arith in
    let behind : t2 (suc i) ≡ t1 (suc i - 1) = ground (arith, second (suc i) lt) in
    behind ∙ ap t1 less ∙ first i (omega arith) ∙ ap t more

-- On the current string port, whose number is negative, which stands in `g_ports` behind `depth`
-- ports with other numbers, none of the pairs up to there being the port itself, and holds `n`
-- characters, one or more and at most `MAX_STRING`, of which the first is below 128, in a heap with
-- room for the two strings that are made: `readchar`, with more rounds than `depth`, returns the
-- first character; when `unreadchar` then gives it back, the port is again current and holds the
-- same `n` characters, and all but the heap is as it was.
pub unreadchar-readchar :
    (k depth port : ℕ) (p : Ports)
    → IsCurrent depth port p
    → depth < k
    → 0 < port_length p.heap port
    → port_length p.heap port ≤ p.heap.max_string
    → port_text p.heap port 0 < 128
    → Room
        (2 + bytes_cells (port_length p.heap port) + bytes_cells (port_length p.heap port + 1))
        p.heap
    → (h h' : Heap) × (readchar k p ≡ ok (port_text p.heap port 0) (record p { heap = h }))
      × (unreadchar k (port_text p.heap port 0) (record p { heap = h })
          ≡ ok (port_text p.heap port 0) (record p { heap = h' }))
      × (port_length h' port ≡ port_length p.heap port)
      × ((i : ℕ) → i < port_length p.heap port → port_text h' port i ≡ port_text p.heap port i)
      × IsCurrent depth port (record p { heap = h' })
unfolding readchar unreadchar
unreadchar-readchar k depth port p c deep pos le ascii room =
    let n = port_length p.heap port in
    let t = port_text p.heap port in
    let n1 : n - 1 + 1 ≡ n = omega arith in
    let room1 : Room (suc (bytes_cells (n - 1 + 1))) p.heap =
      subst (λ k. Room (suc (bytes_cells k)) p.heap) (sym n1) (Room-mono (omega arith) room) in
    let (h, took, r) = taken depth port p c pos le room1 in
    let p1 = record p { heap = h } in
    let next = r.length_at in
    let n2 : port_length h port + 1 ≡ n = omega (arith, next) in
    let room2 : Room (suc (bytes_cells (port_length h port + 1 + 1))) h =
      subst (λ k. Room (suc (bytes_cells (k + 1))) h) (sym n2)
        (record {
          above = omega (arith, room.above, r.count, r.same_base);
          fits = omega (
            arith,
            room.fits,
            r.count,
            r.same_base,
            r.same_size,
            ap (λ (k : ℕ). bytes_cells k) n1,
          );
          small = omega (arith, room.small, r.same_base, r.same_size);
        }) in
    let (h', gave, r') =
      given_back depth (t 0) port p1 r.current (omega (arith, n2, r.same_max)) room2 in
    let byte : char_int (t 0) ≡ t 0 = ground arith in
    let some_char : (t 0 == eof) ≡ false = ground arith in
    (
      h,
      h',
      rw c.negative (
          and_then-ok (current_input_port k) _ (found depth k port p c deep)
          ∙ took
          ∙ ap (λ (c : ℕ). ok c p1) byte),
      rw (c.negative, some_char)
          (and_then-ok (current_input_port k) _ (found depth k port p1 r.current deep) ∙ gave),
      r'.length_at ∙ n2,
      given_text n t (port_text h port) (port_text h' port) ascii r.text
          (λ i lt. r'.text i (omega (arith, n2))),
      r'.current,
    )
