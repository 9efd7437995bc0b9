-- ===== src/Proc/UserCopy.antt =====
-- kern/mm/vm.cpp and kern/proc/proc.cpp: copies that ask for the current process. copyout2(), copyin2() and
-- copyinstr2() use user addresses as they are, in the page table of the hart, which the model takes to map
-- them to themselves.
pub mod Bounds
use page_fault_os_for_risc_v.Prelude.{
  ℕ, zero, suc, ◌+◌, ◌%◌, ◌^◌, ◌&&◌, ◌||◌, Bool, true, false, not, ltb, leb, ◌==◌, if◌then◌else◌,
}
use page_fault_os_for_risc_v.Kernel.{Kernel}
use page_fault_os_for_risc_v.Kernel.Run.{Cmd, Status, done, failed, pure, ◌>>=◌, ◌>>◌, modify, gets}
use page_fault_os_for_risc_v.Mm.Layout.{u64}
use page_fault_os_for_risc_v.Mm.Bytes.{get_byte, put_bytes}
use page_fault_os_for_risc_v.Mm.Uvm.{move_bytes}
use page_fault_os_for_risc_v.Mm.Copy.{Source, copyout, copyin}
use page_fault_os_for_risc_v.Proc.{get_proc, curproc, deref}

-- curproc()->sz
unfoldable pub cur_size : Cmd Kernel ℕ
cur_size = do p ← curproc; deref p λ i. do c ← get_proc i; pure c.sz

unfoldable pub copyout2 : (dst src len : ℕ) → Cmd Kernel Status
copyout2 dst src len = do
  size ← cur_size
  if ltb size (u64 (dst + len)) || leb size dst
      then pure failed
      else do move_bytes dst src len; pure done

-- The start may be the size itself.
unfoldable pub copyin2 : (dst src len : ℕ) → Cmd Kernel Status
copyin2 dst src len = do
  size ← cur_size
  if ltb size (u64 (src + len)) || ltb size src
      then pure failed
      else do move_bytes dst src len; pure done

-- The loop of copyinstr2(), with at most `max` rounds.
unfoldable pub copyinstr2_loop : (max dst src size : ℕ) → Cmd Kernel Status
copyinstr2_loop zero dst src size = pure failed
copyinstr2_loop (suc max) dst src size =
    let rest = copyinstr2_loop max (dst + 1) (src + 1) size in
    if not (ltb src size) then pure failed else do
      c ← gets λ k. get_byte k.mem src
      modify λ k. record k { mem = put_bytes k.mem dst 1 (λ _. c) }
      if c == 0 then pure done else rest

unfoldable pub copyinstr2 : (dst src max : ℕ) → Cmd Kernel Status
copyinstr2 dst src max = do size ← cur_size; copyinstr2_loop max dst src size

-- `src` is an address of the kernel.
unfoldable pub either_copyout : (user_dst : Bool) → (dst src len : ℕ) → Cmd Kernel Status
either_copyout user_dst dst src len = do
  p ← curproc
  if user_dst
      then (deref p
          λ i. do c ← get_proc i; copyout c.pagetable dst (λ j k. get_byte k.mem (src + j)) len)
      else do move_bytes dst src len; pure done

unfoldable pub either_copyin : (dst : ℕ) → (user_src : Bool) → (src len : ℕ) → Cmd Kernel Status
either_copyin dst user_src src len = do
  p ← curproc
  if user_src
      then (deref p λ i. do c ← get_proc i; copyin c.pagetable dst src len)
      else do move_bytes dst src len; pure done
