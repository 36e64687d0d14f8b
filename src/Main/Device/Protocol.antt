-- ===== src/Main/Device/Protocol.antt =====
-- What a guest sees of the device that src/main.cpp puts behind MMIO.
use min_bp.Prelude.{
  ℕ, ◌+◌, ◌*◌, ◌%◌, ◌^◌, ◌≤◌, ◌==◌, ◌≡◌, refl, ap, ◌∙◌, Bool, true, false, not, ◌&&◌, ◌||◌, List,
  [], ◌∷◌, some, none, find, min, length, ltb, if◌then◌else◌, arith, bit_or-disjoint, Bool-cases,
  inl, inr,
}
use min_bp.Bytes.{load}
use min_bp.MmioHandler.{
  MmioExit, MmioHandler, WriteCallback, WriteContext, ReadContext, register_read, register_write,
  handle, handle_write, handle_read, run_write, run_read,
}
use min_bp.MmioHandler.Access.{read_delivers}
use min_bp.Main.State.{MmioDeviceState, ProgramState}
use min_bp.Main.Device.{
  reg_magic, reg_input, reg_status, read_magic, write_input, read_status, record_write, status_word,
  mmio_handler,
}

-- A handler with the callbacks of the program.
pub record HasDevice (h : MmioHandler ProgramState) : Type 0 where
  pub reads : h.read_callbacks ≡ mmio_handler.read_callbacks
  pub writes : h.write_callbacks ≡ mmio_handler.write_callbacks

-- The MMIO exits of a guest, handled one after the other.
abbrev pub handle_all :
    List MmioExit
    → MmioHandler ProgramState
    → ProgramState
    → MmioHandler ProgramState × ProgramState
handle_all [] h s = (h, s)
handle_all (e ∷ es) h s = let r = handle h e s in handle_all es r.handler r.world

-- The values that the guest wrote to the input register, in order.
abbrev pub is_input : MmioExit → Bool
is_input e = not (e.len == 0 || ltb 8 e.len) && e.is_write && (reg_input == e.phys_addr)

abbrev pub inputs : List MmioExit → List ℕ
inputs [] = []
inputs (e ∷ es) =
    let rest = inputs es in if is_input e then load (min e.len 8) e.bytes ∷ rest else rest

abbrev pub last_or : ℕ → List ℕ → ℕ
last_or v [] = v
last_or v (x ∷ xs) = last_or x xs

pub handle-HasDevice :
    (h : MmioHandler ProgramState) (e : MmioExit) (s : ProgramState)
    → HasDevice h
    → HasDevice (handle h e s).handler
unfolding handle handle_write handle_read
handle-HasDevice h e s d = elim (Bool-cases (e.len == 0 || ltb 8 e.len)) [
  | inl out ↦ rw out d
  | inr fits ↦ elim (Bool-cases e.is_write) [
    | inl w ↦ rw (fits, w) (record { reads = d.reads; writes = d.writes })
    | inr r ↦ rw (fits, r) (record { reads = d.reads; writes = d.writes })
  ]
]

find_write :
    (a : ℕ)
    → find a mmio_handler.write_callbacks ≡ (if reg_input == a then some write_input else none)
unfolding mmio_handler register_write
find_write a = refl

find_read :
    (a : ℕ)
    → find a mmio_handler.read_callbacks ≡ (
        if reg_magic == a
        then some read_magic
        else if reg_status == a
        then some read_status
        else none)
unfolding mmio_handler register_read
find_read a = refl

run_write-one :
    (b : Bool) (cb : WriteCallback ProgramState) (ctx : WriteContext) (s : ProgramState)
    → run_write (if b then some cb else none) ctx s ≡ (if b then cb ctx s else s)
unfolding run_write
run_write-one true cb ctx s = refl
run_write-one false cb ctx s = refl

run_read-device :
    (b c : Bool) (ctx : ReadContext) (s : ProgramState)
    → (run_read (if b then some read_magic else if c then some read_status else none) ctx s).1 ≡ s
unfolding run_read
run_read-device true c ctx s = refl
run_read-device false true ctx s = refl
run_read-device false false ctx s = refl

handle-world :
    (h : MmioHandler ProgramState) (e : MmioExit) (s : ProgramState)
    → HasDevice h
    → (handle h e s).world ≡ (
        if is_input e
        then record s { device = record_write (load (min e.len 8) e.bytes) s.device }
        else s)
unfolding handle handle_write handle_read
handle-world h e s d = elim (Bool-cases (e.len == 0 || ltb 8 e.len)) [
  | inl out ↦ rw out refl
  | inr fits ↦ elim (Bool-cases e.is_write) [
    | inl w ↦
        rw (fits, w, d.writes, find_write e.phys_addr)
          (run_write-one (reg_input == e.phys_addr) write_input _ s)
    | inr r ↦
        rw (fits, r, d.reads, find_read e.phys_addr)
          (run_read-device (reg_magic == e.phys_addr) (reg_status == e.phys_addr) _ s)
  ]
]

-- What the exits make of the state, told by the values alone.
abbrev pub after : List ℕ → ProgramState → ProgramState
after [] s = s
after (v ∷ vs) s = after vs (record s { device = record_write v s.device })

after-inputs :
    (b : Bool) (v : ℕ) (vs : List ℕ) (s : ProgramState)
    → after vs (if b then record s { device = record_write v s.device } else s)
      ≡ after (if b then v ∷ vs else vs) s
after-inputs true v vs s = refl
after-inputs false v vs s = refl

handle_all-after :
    (es : List MmioExit) (h : MmioHandler ProgramState) (s : ProgramState)
    → HasDevice h
    → HasDevice (handle_all es h s).0 × ((handle_all es h s).1 ≡ after (inputs es) s)
handle_all-after [] h s d = (d, refl)
handle_all-after (e ∷ es) h s d =
    let next = handle-HasDevice h e s d in
    let r = handle h e s in
    let rest = handle_all-after es r.handler r.world next in
    (
      rest.0,
      rest.1
          ∙ rw (handle-world h e s d)
              (after-inputs (is_input e) (load (min e.len 8) e.bytes) (inputs es) s),
    )

after-device :
    (vs : List ℕ) (s : ProgramState)
    → ((after vs s).device.write_count % 2 ^ 32 ≡ (s.device.write_count + length vs) % 2 ^ 32)
      × ((after vs s).device.last_write_value ≡ last_or s.device.last_write_value vs)
      × ((after vs s).vm ≡ s.vm)
      × ((after vs s).agent ≡ s.agent)
after-device [] s = (omega arith, refl, refl, refl)
after-device (v ∷ vs) s =
    let rest = after-device vs (record s { device = record_write v s.device }) in
    (omega (arith, rest.0), rest.1, rest.2, rest.3)

status_value :
    (c l : ℕ) (d : MmioDeviceState)
    → d.write_count % 2 ^ 32 ≡ c % 2 ^ 32
    → d.last_write_value ≡ l
    → status_word d % 256 ^ 8 ≡ (c % 2 ^ 32) * 2 ^ 32 + l % 2 ^ 32
status_value c l d count last =
    rw (count, last, bit_or-disjoint 32 (c % 2 ^ 32) (l % 2 ^ 32) (omega arith)) (omega arith)

-- A read of 8 bytes of a register.
abbrev pub read_of : ℕ → List ℕ → MmioExit
read_of addr bytes = record { phys_addr = addr; bytes = bytes; len = 8; is_write = false }

read_status_loads :
    (h : MmioHandler ProgramState) (s : ProgramState) (bytes : List ℕ)
    → HasDevice h
    → 8 ≤ length bytes
    → let r = handle h (read_of reg_status bytes) s in
      (load 8 r.exit.bytes ≡ status_word s.device % 256 ^ 8) × (r.world ≡ s)
read_status_loads h s bytes d room =
    (read_delivers h (read_of reg_status bytes) s (omega arith, omega arith) refl room).0
      read_status (rw d.reads (find_read reg_status))

-- After any MMIO exits, a read of all 8 bytes of the status register tells the guest how many
-- values it has written to the input register so far, modulo 2 ^ 32 and in the upper half, and the
-- last of them, cut to 32 bits, in the lower half. A write counts when it has 1 to 8 bytes and is
-- at the register's own address. The exits leave the VM and the agent as they were, and so does the
-- read with the whole state.
pub status_counts :
    (es : List MmioExit) (h : MmioHandler ProgramState) (s : ProgramState) (bytes : List ℕ)
    → HasDevice h
    → 8 ≤ length bytes
    → let (h', s') = handle_all es h s in
      let r = handle h' (read_of reg_status bytes) s' in
      let d = s.device in
      (load 8 r.exit.bytes
        ≡ ((d.write_count + length (inputs es)) % 2 ^ 32) * 2 ^ 32
          + last_or d.last_write_value (inputs es) % 2 ^ 32)
      × (r.world ≡ s')
      × (s'.vm ≡ s.vm)
      × (s'.agent ≡ s.agent)
status_counts es h s bytes d room =
    let all = handle_all-after es h s d in
    let loads = read_status_loads (handle_all es h s).0 (handle_all es h s).1 bytes all.0 room in
    let told = after-device (inputs es) s in
    (
      loads.0
          ∙ rw all.1 (
              status_value (s.device.write_count + length (inputs es))
                (last_or s.device.last_write_value (inputs es)) (after (inputs es) s).device told.0
                told.1),
      loads.1,
      rw all.1 told.2,
      rw all.1 told.3,
    )

pub handle-vm :
    (h : MmioHandler ProgramState) (e : MmioExit) (s : ProgramState)
    → HasDevice h
    → (handle h e s).world.vm ≡ s.vm
handle-vm h e s d = ap (λ (u : ProgramState). u.vm) (handle-world h e s d) ∙ ground arith

pub handle-printed :
    (h : MmioHandler ProgramState) (e : MmioExit) (s : ProgramState)
    → HasDevice h
    → (handle h e s).world.printed ≡ s.printed
handle-printed h e s d = ap (λ (u : ProgramState). u.printed) (handle-world h e s d) ∙ ground arith

pub handle-agent :
    (h : MmioHandler ProgramState) (e : MmioExit) (s : ProgramState)
    → HasDevice h
    → (handle h e s).world.agent ≡ s.agent
handle-agent h e s d = ap (λ (u : ProgramState). u.agent) (handle-world h e s d) ∙ ground arith
