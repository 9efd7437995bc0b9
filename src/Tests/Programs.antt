-- ===== src/Tests/Programs.antt =====
-- Loading programs, and opening devices.
use page_fault_os_for_risc_v.Prelude.{
  inr, suc, false, ◌<◌, true, ℕ, ◌+◌, ◌≤◌, ◌≡◌, inl, refl, some, [], ◌∷◌, arith, ◌==◌,
  if◌then◌else◌,
}
use page_fault_os_for_risc_v.Prelude.Int.{negsuc}
use page_fault_os_for_risc_v.Kernel.{Kernel, Mount}
use page_fault_os_for_risc_v.Kernel.Run.{ok, pure}
use page_fault_os_for_risc_v.Mm.Kalloc.Laws.{IsFree}
use page_fault_os_for_risc_v.Mm.Bytes.{get_byte, put_bytes}
use page_fault_os_for_risc_v.Mm.Copy.{copyout, copyout_loop}
use page_fault_os_for_risc_v.Mm.PageTable.{kget_kaddr, walk, walk_levels, descend}
use page_fault_os_for_risc_v.Libs.CString.{strlen, strlen_from}
use page_fault_os_for_risc_v.Proc.{set_at}
use page_fault_os_for_risc_v.Proc.Exec.{exec}
use page_fault_os_for_risc_v.Proc.Arguments.{Pushed, arg_length, push_args}
use page_fault_os_for_risc_v.Proc.Arguments.Stack.{PushedTo, push_args_lem}
use page_fault_os_for_risc_v.Mm.Kalloc.Chain.{◌∉◌}
use page_fault_os_for_risc_v.Mm.Layout.{u64}
use page_fault_os_for_risc_v.Proc.Exec.Refused.{cleared, exec_refused}
use page_fault_os_for_risc_v.Fs.Vfs.{PathName, vfsget_fs, find_fs, best_from, better, match_from}
use page_fault_os_for_risc_v.Fs.Vfs.Calls.{vfsdread}
use page_fault_os_for_risc_v.Tests.{root_table, bare, two_pages}
use page_fault_os_for_risc_v.Tests.Pages.{two_pages-IsFree}
use page_fault_os_for_risc_v.Sync.Spinlock.Laws.{settled}
use page_fault_os_for_risc_v.Kernel.Run.{panic, alloc_file}
use page_fault_os_for_risc_v.Prelude.Int.{pos}
use page_fault_os_for_risc_v.Prelude.{◌⊎◌}
use page_fault_os_for_risc_v.Proc.{nfile}
use page_fault_os_for_risc_v.Fs.Vfs.{clip, length, length_from}
use page_fault_os_for_risc_v.Fs.Vfs.Handles.{is_unused}
use page_fault_os_for_risc_v.Fs.Vfs.Calls.{FileSystem, vfsopen}
use page_fault_os_for_risc_v.Fs.Device.{device_fs, tty}
use page_fault_os_for_risc_v.Fs.Device.Open.{IsDevice, vfsopen-IsDevice}
use page_fault_os_for_risc_v.Tests.{one_process}
use page_fault_os_for_risc_v.Tests.Handles.{refusing}

-- A stack page at 0x2000, in the page 0x80303000.
abbrev stack_mapped : Kernel
stack_mapped = record bare {
  mem = λ a.
      if a == 0x80300000
      then 0x200c0401
      else if a == 0x80301000
      then 0x200c0801
      else if a == 0x80302010
      then 0x200c0c17
      else 0;
}

-- One argument, the empty string.
abbrev one_arg : ℕ → ℕ
one_arg j = if j == 0 then 0x80400000 else 0

abbrev empty_stack : Pushed
empty_stack = record { argc = 0; sp = 0x3000; ustack = λ j. 0 }

abbrev one_pushed : Pushed
one_pushed = record { argc = 1; sp = 0x2ff0; ustack = set_at (λ j. 0) 0 0x2ff0 }

abbrev after_push : Kernel
after_push = record stack_mapped {
  mem = put_bytes stack_mapped.mem 0x80303ff0 1 (λ i. get_byte stack_mapped.mem (0x80400000 + i));
}

pushes :
    push_args 2 root_table 0x2000 one_arg empty_stack stack_mapped ≡ ok (some one_pushed) after_push
unfolding push_args arg_length strlen strlen_from copyout copyout_loop kget_kaddr walk walk_levels
    descend get_byte
pushes = refl

push_args_lem_example : PushedTo 0x2000 one_arg empty_stack one_pushed × (1 ≤ 2)
push_args_lem_example =
    push_args_lem 2 root_table 0x2000 one_arg empty_stack one_pushed stack_mapped after_push
      (omega arith) (omega arith) (omega arith) pushes

-- Every path belongs to a file system at "/" whose files are empty.
abbrev slash : Mount
slash = record {
  address = 0x80700000;
  mount_pos = λ j. if j == 0 then b'/' else 0;
  special_dev = λ j. 0;
}

abbrev two_free : Kernel
two_free = record two_pages { current = some 0; mounted = λ i. some slash }

two_free-IsFree : IsFree two_free (0x805fe000 ∷ 0x805fd000 ∷ [])
two_free-IsFree = record {
  chain = two_pages-IsFree.chain;
  count = two_pages-IsFree.count;
  unlocked = two_pages-IsFree.unlocked;
  depth = two_pages-IsFree.depth;
}

abbrev program : PathName
program j = if j == 0 then b'/' else 0

abbrev at_read : Kernel
at_read = cleared two_free 0 0x805fe000 (0x805fd000 ∷ []) two_free-IsFree refl

reads_nothing : vfsdread refusing program 0x80400000 64 0 at_read ≡ ok (negsuc 0) at_read
unfolding vfsdread vfsget_fs find_fs best_from better match_from
reads_nothing = refl

exec_refused_example :
    (t : Kernel) × (exec (λ kpt. pure tt) refusing 0x80400000 0x80400100 program one_arg two_free
      ≡ ok 0 t)
    × IsFree t (0x805fd000 ∷ [])
    × (0x805fe000 ∉ (0x805fd000 ∷ []))
    × (2 ≡ u64 (t.kmem.npages + 1))
    × (t.table ≡ two_free.table)
exec_refused_example =
    exec_refused two_free 0 0x805fe000 (0x805fd000 ∷ []) two_free-IsFree refl (λ kpt. pure tt)
      refusing 0x80400000 0x80400100 program (negsuc 0) at_read.mem reads_nothing (λ a h. refl)
      (λ q h. inr (ground (arith, h))) (inl refl) one_arg

-- The device file system is mounted everywhere, and the process 1 has the descriptor 0 in use.
abbrev devices : FileSystem
devices =
    device_fs (λ c k. k) (pure tt) 1 0x80600000 (λ buf sector. pure tt) (λ buf sector. pure tt)
      (λ path. pure (pos 0))

abbrev with_devices : Kernel
with_devices = record one_process { mounted = λ i. some slash }

clip_mounted :
    vfsget_fs (clip tty) (record with_devices { cpu = settled with_devices.cpu }) ≡ some slash
unfolding vfsget_fs find_fs best_from better match_from length length_from
clip_mounted = refl

vfsopen-IsDevice_example :
    ((h : ℕ) × (t : Kernel) × (vfsopen devices tty 2 with_devices ≡ ok (some 1) t)
      × (is_unused (with_devices.handles h) ≡ true)
      × ((j : ℕ) → j < h → is_unused (with_devices.handles j) ≡ false)
      × ((t.table 1).ofile 1 ≡ suc h)
      × IsDevice 2 (t.handles h))
    ⊎ ((vfsopen devices tty 2 with_devices ≡ panic alloc_file)
        × ((j : ℕ) → j < nfile → is_unused (with_devices.handles j) ≡ false))
vfsopen-IsDevice_example =
    vfsopen-IsDevice devices (λ m p flags fp. refl) with_devices 1 1 2 tty slash refl refl refl
      clip_mounted refl refl (omega arith) (λ j l. ground arith) refl
