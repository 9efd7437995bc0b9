-- ===== src/Proc/UserCopy/Bounds.antt =====
-- The tests of copyout2() and copyin2().
use page_fault_os_for_risc_v.Prelude.{
  ℕ, ◌+◌, ◌^◌, ◌≤◌, ◌<◌, ◌≡◌, ◌⊎◌, ◌||◌, refl, some, arith, ltb, leb, Bool-cases, inl, inr,
}
use page_fault_os_for_risc_v.Kernel.{Kernel}
use page_fault_os_for_risc_v.Kernel.Run.{ok, done, failed}
use page_fault_os_for_risc_v.Sync.Spinlock.Laws.{settled}
use page_fault_os_for_risc_v.Mm.Layout.{u64}
use page_fault_os_for_risc_v.Mm.Bytes.{get_byte, put_bytes}
use page_fault_os_for_risc_v.Mm.Uvm.{move_bytes}
use page_fault_os_for_risc_v.Proc.Wakeup.{curproc-some}
use page_fault_os_for_risc_v.Proc.UserCopy.{cur_size, copyout2}

module _ (k : Kernel) (i : ℕ) (d : k.cpu.noff ≡ 0) (c : k.current ≡ some i) where
  abbrev pub settled_kernel : Kernel
  settled_kernel = record k { cpu = settled k.cpu }

  pub cur_size-some : cur_size k ≡ ok (k.table i).sz settled_kernel
  unfolding cur_size
  cur_size-some = rw (curproc-some k i d c) refl

  -- Outside every critical section copyout2() returns 0 and writes the bytes if the target lies in the
  -- process and is not past its end, provided that its end does not wrap, and returns -1 and writes nothing
  -- otherwise.
  pub copyout2_lem :
      (dst src len : ℕ)
      → dst + len < 2 ^ 64
      → ((dst < (k.table i).sz)
          × (dst + len ≤ (k.table i).sz)
          × (copyout2 dst src len k
              ≡ ok done (record settled_kernel {
                mem = put_bytes k.mem dst len (λ j. get_byte k.mem (src + j));
              })))
        ⊎ ((((k.table i).sz ≤ dst) ⊎ ((k.table i).sz < dst + len))
            × (copyout2 dst src len k ≡ ok failed settled_kernel))
  unfolding copyout2 move_bytes
  copyout2_lem dst src len lt =
      let e : u64 (dst + len) ≡ dst + len = omega arith in
      elim (Bool-cases (ltb (k.table i).sz (dst + len) || leb (k.table i).sz dst)) [
        | inl out ↦ inr (ground arith, rw (cur_size-some, e) (rw out refl))
        | inr in_range ↦ inl (ground arith, ground arith, rw (cur_size-some, e) (rw in_range refl))
      ]
