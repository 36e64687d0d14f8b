-- ===== src/Tests/Buses.antt =====
-- The dispatcher and the MMIO and port handlers at concrete inputs. The user state is a number.
use min_bp.Prelude.{ℕ, ◌+◌, ◌*◌, ◌≡◌, refl, List, [], ◌∷◌, none, some, true, false, drop, arith}
use min_bp.Bytes.{load, store, le_encode}
use min_bp.Event.{EventType, EventPayload, HvEvent, type_eq, type_code}
use min_bp.EventDispatcher.{Subscription, EventDispatcher, publish, accepts, deliver}
use min_bp.EventDispatcher.Routing.{Recipients, run_handlers, publish-Recipients}
use min_bp.EventDispatcher.Ids.{IsWellFormed}
use min_bp.MmioHandler.{MmioExit, ReadContext, WriteContext, MmioHandler}
use min_bp.MmioHandler
use min_bp.MmioHandler.Access.{read_delivers, write_delivers}
use min_bp.Kvm.{KvmRun}
use min_bp.IoPortHandler.{IoPortHandler, InContext, OutContext}
use min_bp.IoPortHandler
use min_bp.IoPortHandler.Access.{out_delivers, in_delivers}
use min_bp.Tests.Toy.{idle}

abbrev pub event : EventType → HvEvent
event type = record {
  type = type;
  vcpu_id = 0;
  rip = 0x7C00;
  timestamp = 5;
  payload = EventPayload.monostate;
}

-- Handlers that append a digit to the number.
abbrev pub digit : ℕ → HvEvent → ℕ → ℕ
digit d e w = 10 * w + d

abbrev pub bus : EventDispatcher ℕ
bus = record {
  subscriptions =
      record { id = 1; filter = none; handler = digit 1 }
      ∷ record { id = 3; filter = some EventType.guest_halt; handler = digit 2 }
      ∷ record { id = 4; filter = some EventType.io_read; handler = digit 3 }
      ∷ [];
  next_id = 5;
  published_count = 9;
}

pub bus-IsWellFormed : IsWellFormed bus
bus-IsWellFormed = record { rising = (omega arith, (omega arith, (omega arith, omega arith))) }

publish_run : publish (event EventType.io_read) bus 0 ≡ (record bus { published_count = 10 }, 13)
unfolding publish deliver accepts type_eq type_code
publish_run = refl

publish-Recipients_example :
    (rs : List (Subscription ℕ)) × Recipients EventType.io_read bus.subscriptions rs
    × (publish (event EventType.io_read) bus 0
        ≡ (record bus { published_count = 10 }, run_handlers (event EventType.io_read) rs 0))
publish-Recipients_example = publish-Recipients (event EventType.io_read) bus 0

-- A device with one register at 0x1000; the user state is the register.
abbrev pub read_register : MmioHandler.ReadCallback ℕ
read_register ctx w = (w, w + 1)

abbrev write_register : MmioHandler.WriteCallback ℕ
write_register ctx w = ctx.value

abbrev pub device : MmioHandler ℕ
device = record {
  read_callbacks = (0x1000, read_register) ∷ [];
  write_callbacks = (0x1000, write_register) ∷ [];
  read_count = 0;
  write_count = 4;
}

abbrev zero_buffer : List ℕ
zero_buffer = 0 ∷ 0 ∷ 0 ∷ 0 ∷ 0 ∷ 0 ∷ 0 ∷ 0 ∷ []

abbrev pub read_exit : MmioExit
read_exit = record { phys_addr = 0x1000; bytes = zero_buffer; len = 2; is_write = false }

abbrev write_exit : MmioExit
write_exit = record {
  phys_addr = 0x1000;
  bytes = 0x34 ∷ 0x12 ∷ 0 ∷ 0 ∷ 0 ∷ 0 ∷ 0 ∷ 0 ∷ [];
  len = 2;
  is_write = true;
}

read_delivers_example :
    (load 2 (MmioHandler.handle device read_exit 0xABCDE).exit.bytes ≡ 0xBCDE)
    × ((MmioHandler.handle device read_exit 0xABCDE).world ≡ 0xABCDF)
read_delivers_example =
    (read_delivers device read_exit 0xABCDE (omega arith, omega arith) refl (omega arith)).0
      read_register refl

write_delivers_example : MmioHandler.handle device write_exit 0 ≡ record {
  done = true;
  handler = record device { write_count = 5 };
  exit = write_exit;
  world = 0x1234;
}
unfolding store le_encode
write_delivers_example =
    write_delivers device write_exit 0 0x51234 zero_buffer write_register (omega arith, omega arith)
      refl refl refl

-- A serial port at 0x3F8.
abbrev read_port : IoPortHandler.InCallback ℕ
read_port ctx w = (w, 0)

abbrev write_port : IoPortHandler.OutCallback ℕ
write_port ctx w = 256 * w + ctx.value

abbrev pub ports : IoPortHandler ℕ
ports = record {
  in_callbacks = (0x3F8, read_port) ∷ [];
  out_callbacks = (0x3F8, write_port) ∷ [];
  in_count = 0;
  out_count = 0;
}

abbrev pub port_run : ℕ → List ℕ → KvmRun
port_run direction area = record idle {
  exit_reason = 2;
  io = record { direction = direction; size = 1; port = 0x3F8; count = 1; data_offset = 2 };
  area = area;
}

out_delivers_example : IoPortHandler.handle ports (port_run 1 (9 ∷ 9 ∷ 0x41 ∷ [])) 1 ≡ record {
  done = true;
  handler = record ports { out_count = 1 };
  run = port_run 1 (9 ∷ 9 ∷ 0x41 ∷ []);
  world = 0x141;
}
unfolding store le_encode
out_delivers_example =
    out_delivers ports (port_run 1 (9 ∷ 9 ∷ 0x41 ∷ [])) 1 0x41 (0 ∷ []) write_port refl
      (omega arith) refl refl

in_delivers_example :
    (load 1 (drop 2 (IoPortHandler.handle ports (port_run 0 (9 ∷ 9 ∷ 0 ∷ [])) 0x242).run.area)
      ≡ 0x42)
    × ((IoPortHandler.handle ports (port_run 0 (9 ∷ 9 ∷ 0 ∷ [])) 0x242).world ≡ 0)
in_delivers_example =
    (in_delivers ports (port_run 0 (9 ∷ 9 ∷ 0 ∷ [])) 0x242 (omega arith) (omega arith)
        (omega arith)).0
      read_port refl
