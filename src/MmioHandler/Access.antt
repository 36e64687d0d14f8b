-- ===== src/MmioHandler/Access.antt =====
-- What an access through `MmioHandler::handle` of src/MmioHandler.cpp does, on every branch.
use min_bp.Prelude.{
  ℕ, zero, suc, ◌+◌, ◌-◌, ◌%◌, ◌^◌, ◌≤◌, ◌<◌, ◌==◌, ◌≡◌, refl, ◌⊎◌, true, false, ◌||◌, List, Option,
  none, some, find, find-assign, length, drop, ltb, min, if◌then◌else◌, arith,
}
use min_bp.Bytes.{load, store}
use min_bp.Bytes.Laws.{load-store, drop-store, length-store}
use min_bp.MmioHandler.{
  MmioExit, ReadContext, ReadCallback, WriteCallback, MmioHandler, all_ones, register_read,
  register_write, run_read, handle_write, handle_read, handle,
}

abbrev pub InRange : ℕ → Type 0
InRange n = (0 < n) × (n ≤ 8)

InRange-test : (n : ℕ) → InRange n → (n == 0 || ltb 8 n) ≡ false
InRange-test n h = ground arith

all_ones_cut : (n : ℕ) → n ≤ 8 → all_ones % 256 ^ n ≡ 256 ^ n - 1
all_ones_cut zero h = refl
all_ones_cut (suc zero) h = refl
all_ones_cut (suc (suc zero)) h = refl
all_ones_cut (suc (suc (suc zero))) h = refl
all_ones_cut (suc (suc (suc (suc zero)))) h = refl
all_ones_cut (suc (suc (suc (suc (suc zero))))) h = refl
all_ones_cut (suc (suc (suc (suc (suc (suc zero)))))) h = refl
all_ones_cut (suc (suc (suc (suc (suc (suc (suc zero))))))) h = refl
all_ones_cut (suc (suc (suc (suc (suc (suc (suc (suc zero)))))))) h = refl
all_ones_cut (suc (suc (suc (suc (suc (suc (suc (suc (suc n))))))))) h = absurd (omega arith)

min_small : (n : ℕ) → n ≤ 8 → min n 8 ≡ n
min_small n h = omega arith

module _ {W : Type 0} where
  -- An access of no byte, or of more than 8, is refused, and nothing changes; every other access is
  -- done.
  pub handle_range :
      (h : MmioHandler W) (run : MmioExit) (w : W)
      → ((run.len ≡ 0) ⊎ (8 < run.len)
          → handle h run w ≡ record { done = false; handler = h; exit = run; world = w })
        × (InRange run.len → (handle h run w).done ≡ true)
  unfolding handle
  handle_range h run w = (λ r. ground arith, λ r. ground arith)

  handle-write :
      (h : MmioHandler W) (run : MmioExit) (w : W)
      → InRange run.len
      → run.is_write ≡ true
      → handle h run w ≡ handle_write h run w
  unfolding handle
  handle-write h run w r e = rw (InRange-test run.len r, e)

  handle-read :
      (h : MmioHandler W) (run : MmioExit) (w : W)
      → InRange run.len
      → run.is_write ≡ false
      → handle h run w ≡ handle_read h run w
  unfolding handle
  handle-read h run w r e = rw (InRange-test run.len r, e)

  -- When the guest has written the word `v` with 1 to 8 bytes to an address with a callback, the
  -- callback is run once, on that address, that size and `v` cut to the size; the write count grows
  -- by one, wrapping at 2 ^ 64, and the callbacks, the read count and the exit stay.
  pub write_delivers :
      (h : MmioHandler W) (run : MmioExit) (w : W) (v : ℕ) (buf : List ℕ) (cb : WriteCallback W)
      → InRange run.len
      → run.is_write ≡ true
      → run.bytes ≡ store run.len v buf
      → find run.phys_addr h.write_callbacks ≡ some cb
      → handle h run w ≡ record {
        done = true;
        handler = record h { write_count = (h.write_count + 1) % 2 ^ 64 };
        exit = run;
        world = cb (record { addr = run.phys_addr; size = run.len; value = v % 256 ^ run.len }) w;
      }
  unfolding handle_write
  write_delivers h run w v buf cb r e stored found =
      let decoded : load (min run.len 8) run.bytes ≡ v % 256 ^ run.len =
        rw (min_small run.len r.1, stored) (load-store run.len v buf) in
      rw (handle-write h run w r e, found, decoded)

  -- A write to an address with no callback is counted and has no other effect.
  pub write_ignored :
      (h : MmioHandler W) (run : MmioExit) (w : W)
      → InRange run.len
      → run.is_write ≡ true
      → find run.phys_addr h.write_callbacks ≡ none
      → handle h run w ≡ record {
        done = true;
        handler = record h { write_count = (h.write_count + 1) % 2 ^ 64 };
        exit = run;
        world = w;
      }
  unfolding handle_write
  write_ignored h run w r e found = rw (handle-write h run w r e, found)

  -- The value that a read delivers, and the state after its callback.
  abbrev answer : Option (ReadCallback W) → ReadContext → W → ℕ × W
  answer none ctx w = (all_ones, w)
  answer (some cb) ctx w = cb ctx w

  run_read-answer :
      (o : Option (ReadCallback W)) (ctx : ReadContext) (w : W) → run_read o ctx w ≡ answer o ctx w
  unfolding run_read
  run_read-answer none ctx w = refl
  run_read-answer (some cb) ctx w = refl

  -- After a read of 1 to 8 bytes the guest loads what the address's callback returned, cut to the
  -- size, or a word of ones if the address has no callback; the bytes behind the size, the length
  -- of the buffer and all else of the exit stay, and the read count alone grows, by one.
  pub read_delivers :
      (h : MmioHandler W) (run : MmioExit) (w : W)
      → InRange run.len
      → run.is_write ≡ false
      → run.len ≤ length run.bytes
      → let r = handle h run w in
        ((cb : ReadCallback W)
          → find run.phys_addr h.read_callbacks ≡ some cb
          → (load run.len r.exit.bytes
              ≡ (cb (record { addr = run.phys_addr; size = run.len }) w).0 % 256 ^ run.len)
            × (r.world ≡ (cb (record { addr = run.phys_addr; size = run.len }) w).1))
        × (find run.phys_addr h.read_callbacks ≡ none
            → (load run.len r.exit.bytes ≡ 256 ^ run.len - 1) × (r.world ≡ w))
        × (drop run.len r.exit.bytes ≡ drop run.len run.bytes)
        × (length r.exit.bytes ≡ length run.bytes)
        × (r.exit ≡ record run { bytes = r.exit.bytes })
        × (r.handler ≡ record h { read_count = (h.read_count + 1) % 2 ^ 64 })
  unfolding handle_read
  read_delivers h run w r e fits = rw (handle-read h run w r e) (
    λ cb found. rw found (load-store run.len _ run.bytes, refl),
    λ found. rw found (rw (load-store run.len all_ones run.bytes) (all_ones_cut run.len r.1), refl),
    drop-store run.len _ run.bytes,
    length-store run.len _ run.bytes fits,
    refl,
    refl,
  )

  -- A callback registered for reads at an address serves the reads there and no others, replaces
  -- an earlier one for that address, and leaves writes as they were; so with writes and reads
  -- exchanged.
  pub register_handle :
      (h : MmioHandler W) (a : ℕ) (run : MmioExit) (w : W)
      → InRange run.len
      → ((cb : ReadCallback W)
          → (handle (register_read a cb h) run w).world ≡ (
              if run.is_write
              then (handle h run w).world
              else if a == run.phys_addr
              then (cb (record { addr = run.phys_addr; size = run.len }) w).1
              else (handle h run w).world))
        × ((cb : WriteCallback W)
            → (handle (register_write a cb h) run w).world ≡ (
                if run.is_write
                then (if a == run.phys_addr
                    then cb
                        (record {
                          addr = run.phys_addr;
                          size = run.len;
                          value = load (min run.len 8) run.bytes;
                        })
                        w
                    else (handle h run w).world)
                else (handle h run w).world))
  unfolding handle register_read register_write
  register_handle h a run w r = (
    λ cb.
        rw (InRange-test run.len r)
          (ground (arith, find-assign a run.phys_addr cb h.read_callbacks)),
    λ cb.
        rw (InRange-test run.len r)
          (ground (arith, find-assign a run.phys_addr cb h.write_callbacks)),
  )
