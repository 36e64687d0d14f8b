-- ===== src/IoPortHandler/Access.antt =====
-- What a port access through `IoPortHandler::handle` of src/IoPortHandler.cpp does.
use min_bp.Prelude.{
  ℕ, zero, suc, ◌+◌, ◌-◌, ◌%◌, ◌^◌, ◌≤◌, ◌==◌, ◌≡◌, refl, ◌≢◌, true, List, none, some, find,
  find-assign, length, take, drop, take-splice, drop-splice, min, if◌then◌else◌, arith,
}
use min_bp.Bytes.{load, store}
use min_bp.Bytes.Laws.{load-store, drop-store}
use min_bp.Kvm.{KvmRun}
use min_bp.IoPortHandler.{
  InContext, InCallback, OutCallback, IoPortHandler, all_ones, io_out, register_in_port,
  register_out_port, handle_out, handle_in, handle,
}

all_ones_cut : (n : ℕ) → n ≤ 4 → all_ones % 256 ^ n ≡ 256 ^ n - 1
all_ones_cut zero h = refl
all_ones_cut (suc zero) h = refl
all_ones_cut (suc (suc zero)) h = refl
all_ones_cut (suc (suc (suc zero))) h = refl
all_ones_cut (suc (suc (suc (suc zero)))) h = refl
all_ones_cut (suc (suc (suc (suc (suc n))))) h = absurd (omega arith)

min_small : (n : ℕ) → n ≤ 4 → min n 4 ≡ n
min_small n h = omega arith

module _ {W : Type 0} where
  handle-out :
      (h : IoPortHandler W) (run : KvmRun) (w : W)
      → run.io.direction ≡ io_out
      → handle h run w ≡ handle_out h run w
  unfolding handle
  handle-out h run w e = rw e

  handle-in :
      (h : IoPortHandler W) (run : KvmRun) (w : W)
      → run.io.direction ≢ io_out
      → handle h run w ≡ handle_in h run w
  unfolding handle
  handle-in h run w e = ground arith

  -- When the guest has written the word `v` with at most 4 bytes at the data offset and its port has
  -- a callback, the callback is run once, whatever the repetition count, with the port, the size, the
  -- count and `v` cut to the size; the out count grows by one, wrapping at 2 ^ 64, and the callbacks,
  -- the in count and the run structure stay, and the exit is done.
  pub out_delivers :
      (h : IoPortHandler W) (run : KvmRun) (w : W) (v : ℕ) (buf : List ℕ) (cb : OutCallback W)
      → run.io.direction ≡ io_out
      → run.io.size ≤ 4
      → drop run.io.data_offset run.area ≡ store run.io.size v buf
      → find run.io.port h.out_callbacks ≡ some cb
      → handle h run w ≡ record {
        done = true;
        handler = record h { out_count = (h.out_count + 1) % 2 ^ 64 };
        run = run;
        world =
            cb
              (record {
                port = run.io.port;
                size = run.io.size;
                value = v % 256 ^ run.io.size;
                count = run.io.count;
              })
              w;
      }
  unfolding handle_out
  out_delivers h run w v buf cb d small stored found =
      let decoded : load (min run.io.size 4) (drop run.io.data_offset run.area)
          ≡ v % 256 ^ run.io.size =
        rw (min_small run.io.size small, stored) (load-store run.io.size v buf) in
      rw (handle-out h run w d, found, decoded)

  -- After a read of at most 4 bytes the guest loads what the port's callback returned, cut to the
  -- size, or a word of ones if the port has no callback. The bytes before the data offset and those
  -- behind the first element stay, whatever the repetition count; the rest of the run structure stays
  -- too, and of the handler the in count alone grows, by one; the exit is
  -- done.
  pub in_delivers :
      (h : IoPortHandler W) (run : KvmRun) (w : W)
      → run.io.direction ≢ io_out
      → run.io.size ≤ 4
      → run.io.data_offset ≤ length run.area
      → let r = handle h run w in
        let ctx : InContext = record {
          port = run.io.port;
          size = run.io.size;
          count = run.io.count;
        } in
        let data_bytes = drop run.io.data_offset r.run.area in
        ((cb : InCallback W)
          → find run.io.port h.in_callbacks ≡ some cb
          → (load run.io.size data_bytes ≡ (cb ctx w).0 % 256 ^ run.io.size)
            × (r.world ≡ (cb ctx w).1))
        × (find run.io.port h.in_callbacks ≡ none
            → (load run.io.size data_bytes ≡ 256 ^ run.io.size - 1) × (r.world ≡ w))
        × (take run.io.data_offset r.run.area ≡ take run.io.data_offset run.area)
        × (drop run.io.size data_bytes ≡ drop run.io.size (drop run.io.data_offset run.area))
        × (r.run ≡ record run { area = r.run.area })
        × (r.done ≡ true)
        × (r.handler ≡ record h { in_count = (h.in_count + 1) % 2 ^ 64 })
  unfolding handle_in
  in_delivers h run w d small inside =
      let behind = drop run.io.data_offset run.area in
      rw (handle-in h run w d, min_small run.io.size small)
        (
          λ cb found.
              rw (found, drop-splice run.io.data_offset run.area _ inside)
                (load-store run.io.size _ behind, refl),
          λ found.
              rw (found, drop-splice run.io.data_offset run.area _ inside)
                (
                  rw (load-store run.io.size all_ones behind) (all_ones_cut run.io.size small),
                  refl,
                ),
          take-splice run.io.data_offset run.area _ inside,
          rw (drop-splice run.io.data_offset run.area (store run.io.size _ behind) inside)
              (drop-store run.io.size _ behind),
          refl,
          refl,
          refl,
        )

  -- A callback registered for one direction of a port serves that direction of that port, replaces
  -- an earlier one there, and leaves every other access as it was.
  pub register_port_handle :
      (h : IoPortHandler W) (p : ℕ) (run : KvmRun) (w : W)
      → ((cb : InCallback W)
          → (handle (register_in_port p cb h) run w).world ≡ (
              if run.io.direction == io_out
              then (handle h run w).world
              else if p == run.io.port
              then (cb
                  (record { port = run.io.port; size = run.io.size; count = run.io.count })
                  w).1
              else (handle h run w).world))
        × ((cb : OutCallback W)
            → (handle (register_out_port p cb h) run w).world ≡ (
                if run.io.direction == io_out
                then (if p == run.io.port
                    then cb
                        (record {
                          port = run.io.port;
                          size = run.io.size;
                          value = load (min run.io.size 4) (drop run.io.data_offset run.area);
                          count = run.io.count;
                        })
                        w
                    else (handle h run w).world)
                else (handle h run w).world))
  unfolding handle register_in_port register_out_port
  register_port_handle h p run w = (
    λ cb. ground (arith, find-assign p run.io.port cb h.in_callbacks),
    λ cb. ground (arith, find-assign p run.io.port cb h.out_callbacks),
  )
