-- ===== src/Proc/Arguments.antt =====
-- kern/proc/exec.cpp: the arguments that exec() pushes on the stack of the new program.
pub mod Stack
use page_fault_os_for_risc_v.Prelude.{
  ℕ, zero, suc, ◌+◌, ◌-◌, ◌*◌, ◌/◌, ◌%◌, ◌^◌, Bool, true, false, ◌&&◌, ◌||◌, not, Option, none,
  some, ltb, leb, ◌==◌, if◌then◌else◌,
}
use page_fault_os_for_risc_v.Prelude.Int.{ℤ, pos, negsuc}
use page_fault_os_for_risc_v.Kernel.{Kernel}
use page_fault_os_for_risc_v.Kernel.Run.{
  Cmd, Status, done, failed, out_of_fuel, pure, ◌>>=◌, ◌>>◌, modify, gets, abort, loadseg_align,
  loadseg_absent,
}
use page_fault_os_for_risc_v.Mm.Layout.{u64, page_size, page_round_down, max_uva, px}
use page_fault_os_for_risc_v.Mm.Bytes.{get_byte}
use page_fault_os_for_risc_v.Mm.Kalloc.{kalloc}
use page_fault_os_for_risc_v.Mm.Copy.{Source, at, copyout}
use page_fault_os_for_risc_v.Mm.PageTable.{load, store, walkaddr}
use page_fault_os_for_risc_v.Mm.Uvm.{uvm_alloc, move_bytes}
use page_fault_os_for_risc_v.Libs.CString.{strlen}
use page_fault_os_for_risc_v.Proc.{set_at, change_proc, get_proc, curproc, deref}
use page_fault_os_for_risc_v.Proc.Exit.{widen}
use page_fault_os_for_risc_v.Fs.Vfs.{PathName, length}
use page_fault_os_for_risc_v.Fs.Vfs.Calls.{FileSystem, vfsdread}

-- The stack pointer and the addresses of the strings that were pushed.
pub record Pushed : Type 0 where
  pub argc : ℕ
  pub sp : ℕ
  pub ustack : ℕ → ℕ

-- sp, moved down by `n` bytes and to a multiple of 16.
abbrev pub below : (sp n : ℕ) → ℕ
below sp n = let s = u64 (sp + (2 ^ 64 - n)) in s - s % 16

abbrev pub answer : Option ℕ → Cmd Kernel ℕ
answer none = λ _. out_of_fuel
answer (some n) = pure n

-- strlen(argv[argc]), in a string of a page
unfoldable pub arg_length : ℕ → Cmd Kernel ℕ
arg_length s k = answer (strlen (page_size + 1) (get_byte k.mem) s) k

-- After a copyout() that may go to the label `bad`.
abbrev pub on_done : {A : Type 0} → Cmd Kernel (Option A) → Status → Cmd Kernel (Option A)
on_done m failed = pure none
on_done m done = m

-- The loop over the arguments, at most MAXARG of which are taken.
unfoldable pub push_args :
    (n pt stackbase : ℕ) → (argv : ℕ → ℕ) → Pushed → Cmd Kernel (Option Pushed)
push_args zero pt stackbase argv u = pure (if argv u.argc == 0 then some u else none)
push_args (suc n) pt stackbase argv u =
    let next = push_args n pt stackbase argv in
    if argv u.argc == 0 then pure (some u) else do
      l ← arg_length (argv u.argc)
      let sp : ℕ = below u.sp (l + 1)
      if ltb sp stackbase then pure none else do
        r ← copyout pt sp (at (argv u.argc)) (l + 1)
        on_done (next (record { argc = u.argc + 1; sp = sp; ustack = set_at u.ustack u.argc sp })) r

-- The array `ustack` with its end mark, behind the strings.
unfoldable pub push_pointers : (pt stackbase : ℕ) → Pushed → Cmd Kernel (Option Pushed)
push_pointers pt stackbase u =
    let n : ℕ = (u.argc + 1) * 8 in
    let sp : ℕ = below u.sp n in
    if ltb sp stackbase then pure none else do
      r ← copyout pt sp (λ j k. set_at u.ustack u.argc 0 (j / 8) / 256 ^ (j % 8) % 256) n
      elim r [ failed ↦ pure none | done ↦ pure (some (record u { sp = sp })) ]
