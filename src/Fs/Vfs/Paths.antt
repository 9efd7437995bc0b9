-- ===== src/Fs/Vfs/Paths.antt =====
-- getAbPath() of kern/fs/vfs.cpp.
use page_fault_os_for_risc_v.Prelude.{ℕ, ◌≡◌, ◌≢◌, ◌==◌, false, some, refl, arith}
use page_fault_os_for_risc_v.Kernel.{Kernel}
use page_fault_os_for_risc_v.Kernel.Run.{ok, panic}
use page_fault_os_for_risc_v.Kernel.Run
use page_fault_os_for_risc_v.Sync.Spinlock.Laws.{settled, taken, acquire-ok}
use page_fault_os_for_risc_v.Proc.{proc_lock}
use page_fault_os_for_risc_v.Proc.Wakeup.{curproc-ok, curproc-some, curproc_nested}
use page_fault_os_for_risc_v.Fs.Vfs.{PathName, strip, clip, get_ab_path}

-- An absolute path is copied, whatever process runs.
pub get_ab_path-absolute :
    (p : PathName) (k : Kernel)
    → k.cpu.noff ≡ 0
    → strip p 0 ≡ b'/'
    → get_ab_path p k ≡ ok (clip (strip p)) (record k { cpu = settled k.cpu })
unfolding get_ab_path
get_ab_path-absolute p k d a = rw (curproc-ok k d, a) refl

-- A relative path stops the kernel, for every running process whose lock is free: getAbPath() takes the lock
-- of the process and then asks for the current process again, which fails inside a critical section.
pub get_ab_path_stuck :
    (p : PathName) (k : Kernel) (i : ℕ)
    → k.cpu.noff ≡ 0
    → k.current ≡ some i
    → (k.table i).lock.locked ≡ false
    → strip p 0 ≢ b'/'
    → get_ab_path p k ≡ panic Run.pop_off
unfolding get_ab_path
get_ab_path_stuck p k i d c u a =
    let k1 : Kernel = record k { cpu = settled k.cpu } in
    let k2 : Kernel = record k { cpu = settled (settled k.cpu) } in
    let n : (strip p 0 == b'/') ≡ false = ground arith in
    rw (curproc-some k i d c, n, curproc-some k1 i refl c, acquire-ok (proc_lock i) k2 u)
      (rw (curproc_nested (taken (proc_lock i) k2) (omega arith)) refl)
