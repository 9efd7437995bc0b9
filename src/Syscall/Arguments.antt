-- ===== src/Syscall/Arguments.antt =====
-- What fetchaddr() gives.
use page_fault_os_for_risc_v.Prelude.{
  ℕ, ◌+◌, ◌^◌, ◌<◌, ◌≡◌, ◌||◌, refl, some, true, false, ltb, if◌then◌else◌, Bool-cases, inl, inr,
  arith,
}
use page_fault_os_for_risc_v.Kernel.{Kernel}
use page_fault_os_for_risc_v.Kernel.Run.{ok, panic, done, fetchaddr_invalid}
use page_fault_os_for_risc_v.Sync.Spinlock.Laws.{settled}
use page_fault_os_for_risc_v.Mm.Layout.{u64}
use page_fault_os_for_risc_v.Mm.Bytes.{get_byte, put_bytes}
use page_fault_os_for_risc_v.Mm.Uvm.{move_bytes}
use page_fault_os_for_risc_v.Proc.UserCopy.{copyin2}
use page_fault_os_for_risc_v.Proc.UserCopy.Bounds.{settled_kernel, cur_size-some}
use page_fault_os_for_risc_v.Syscall.{is_invalid, fetchaddr}

module _ (k : Kernel) (i : ℕ) (d : k.cpu.noff ≡ 0) (c : k.current ≡ some i)
    (small : (k.table i).sz < 2 ^ 32) where
  abbrev fetched : (addr ip : ℕ) → Kernel
  fetched addr ip = record k {
    cpu = settled (settled k.cpu);
    mem = put_bytes k.mem ip 8 λ j. get_byte k.mem (addr + j);
  }

  fetched_inside :
      (addr ip : ℕ)
      → addr + 8 < (k.table i).sz
      → copyin2 ip addr 8 (settled_kernel k i d c) ≡ ok done (fetched addr ip)
  unfolding copyin2 move_bytes
  fetched_inside addr ip h =
      let a : (ltb (k.table i).sz (u64 (addr + 8)) || ltb (k.table i).sz addr) ≡ false =
        ground arith in
      rw (cur_size-some (settled_kernel k i d c) i refl c, a) refl

  -- For the running process, outside every critical section: fetchaddr() of an address copies the 8 bytes
  -- there if a byte of the process follows them, and panics otherwise, also where the end of the 8 bytes
  -- wraps or where they are the last ones of the process.
  pub fetchaddr_lem :
      (addr ip : ℕ)
      → addr < 2 ^ 64
      → fetchaddr addr ip k ≡ (
          if ltb (addr + 8) (k.table i).sz
          then ok done (fetched addr ip)
          else panic fetchaddr_invalid)
  unfolding fetchaddr
  fetchaddr_lem addr ip b = elim (Bool-cases (ltb (addr + 8) (k.table i).sz)) [
    | inl y ↦
        let a : is_invalid addr (k.table i).sz ≡ false = ground arith in
        rw (cur_size-some k i d c, a, fetched_inside addr ip (ground arith), y) refl
    | inr n ↦
        let a : is_invalid addr (k.table i).sz ≡ true = ground arith in
        rw (cur_size-some k i d c, a, n) refl
  ]
