-- ===== src/GuestLoader/Modes.antt =====
-- The registers that src/GuestLoader.cpp sets for real mode and for 64-bit mode.
use min_bp.Prelude.{ℕ, ◌-◌, ◌*◌, ◌%◌, ◌^◌}
use min_bp.Kvm.{Regs, Segment, Sregs, zero_regs, zero_segment}

-- The members that `setupSeg` sets; `selector << 4` is the base.
abbrev pub setup_seg : Segment → ℕ → Segment
setup_seg seg selector = record seg {
  selector = selector;
  base = selector * 2 ^ 4;
  limit = 0xFFFF;
  type = 3;
  present = 1;
  dpl = 0;
  db = 0;
  s = 1;
  l = 0;
  g = 0;
}

-- `cr0 & ~1`
abbrev pub clear_pe : ℕ → ℕ
clear_pe cr0 = cr0 - cr0 % 2

abbrev pub real_mode_sregs : Sregs → Sregs
real_mode_sregs sregs = record sregs {
  cs = setup_seg sregs.cs 0;
  ds = setup_seg sregs.ds 0;
  es = setup_seg sregs.es 0;
  fs = setup_seg sregs.fs 0;
  gs = setup_seg sregs.gs 0;
  ss = setup_seg sregs.ss 0;
  cr0 = clear_pe sregs.cr0;
}

abbrev pub real_mode_regs : ℕ → Regs
real_mode_regs entry_ip = record zero_regs { rip = entry_ip; rsp = 0xFFF0; rflags = 0x0002 }

abbrev pub cs_seg : Segment
cs_seg = record zero_segment {
  selector = 0x08;
  base = 0;
  limit = 0xFFFFFFFF;
  type = 11;
  present = 1;
  l = 1;
  db = 0;
  s = 1;
  g = 1;
}

abbrev pub ds_seg : Segment
ds_seg = record zero_segment {
  selector = 0x10;
  base = 0;
  limit = 0xFFFFFFFF;
  type = 3;
  present = 1;
  db = 1;
  s = 1;
  g = 1;
}

abbrev pub long_mode_sregs : ℕ → Sregs → Sregs
long_mode_sregs cr3 sregs = record sregs {
  cs = cs_seg;
  ds = ds_seg;
  es = ds_seg;
  fs = ds_seg;
  gs = ds_seg;
  ss = ds_seg;
  cr0 = 0x80050033;
  cr3 = cr3;
  cr4 = 0x20;
  efer = 0x500;
}

abbrev pub long_mode_regs : ℕ → Regs
long_mode_regs rip = record zero_regs { rip = rip; rsp = 0x200000; rflags = 0x0002 }
