-- ===== src/Fs/Vfs/Handles.antt =====
-- kern/fs/vfs.cpp: the table of NFILE file handles. A pointer to handle `i` is `i + 1`, and the null
-- pointer is 0.
pub mod Laws
use page_fault_os_for_risc_v.Prelude.{
  ℕ, zero, suc, ◌+◌, ◌-◌, Bool, true, false, ◌&&◌, Option, none, some, ltb, ◌==◌, if◌then◌else◌,
  refl,
}
use page_fault_os_for_risc_v.Kernel.{File, FileKind, fd_none, fd_pipe, fd_entry, fd_device, Kernel}
use page_fault_os_for_risc_v.Kernel.Run.{
  Cmd, pure, ◌>>=◌, ◌>>◌, modify, gets, abort, alloc_file, filerewind, null_pointer,
}
use page_fault_os_for_risc_v.Kernel.Run
use page_fault_os_for_risc_v.Sync.Spinlock.{LockRef, acquire, release}
use page_fault_os_for_risc_v.Proc.{nfile}
use page_fault_os_for_risc_v.Fs.File.{no_file}

abbrev pub handles_ref : LockRef
handles_ref = record {
  get = λ k. k.handles_lock;
  put = λ l k. record k { handles_lock = l };
  get-put = λ l k. refl;
  put-cpu = λ l k. refl;
  put-hart = λ l k. refl;
  get-cpu = λ c k. refl;
}

abbrev pub set_handle : ℕ → File → Kernel → Kernel
set_handle i f k = record k { handles = λ j. if j == i then f else k.handles j }

abbrev pub change_handle : ℕ → (File → File) → Cmd Kernel (Unit {0})
change_handle i g = modify λ k. set_handle i (g (k.handles i)) k

-- What follows a read through a pointer to a handle.
abbrev pub with_handle : {A : Type 0} → (fp : ℕ) → (ℕ → Cmd Kernel A) → Cmd Kernel A
with_handle zero f = abort null_pointer
with_handle (suc i) f = f i

abbrev pub is_none_kind : FileKind → Bool
is_none_kind fd_none = true
is_none_kind fd_pipe = false
is_none_kind fd_entry = false
is_none_kind fd_device = false

-- fp->ref == 0 && fp->type == fp->FD_NONE
abbrev pub is_unused : File → Bool
is_unused f = (f.ref == 0) && is_none_kind f.kind

-- The count is set after the lock is given back.
unfoldable pub alloc_handle_from : (rounds i : ℕ) → Cmd Kernel ℕ
alloc_handle_from zero i = abort alloc_file
alloc_handle_from (suc n) i =
    let rest = alloc_handle_from n (i + 1) in
    do
      f ← gets λ k. k.handles i
      if is_unused f
          then (do release handles_ref; change_handle i (λ g. record g { ref = 1 }); pure (suc i))
          else rest

unfoldable pub alloc_file_handle : Cmd Kernel ℕ
alloc_file_handle = do acquire handles_ref; alloc_handle_from nfile 0

unfoldable pub free_file_handle : (fp : ℕ) → Cmd Kernel (Unit {0})
free_file_handle fp = with_handle fp λ i. modify (set_handle i no_file)

-- `ref` is an int, but no caller makes it negative.
unfoldable pub vfsdup : (fp : ℕ) → Cmd Kernel ℕ
vfsdup fp = do
  acquire handles_ref
  with_handle fp λ i. do
    f ← gets λ k. k.handles i
    if ltb f.ref 1
        then abort Run.vfsdup
        else do change_handle i (λ g. record g { ref = g.ref + 1 }); release handles_ref; pure fp

unfoldable pub vfsrewind : (fp : ℕ) → Cmd Kernel ℕ
vfsrewind fp = do
  acquire handles_ref
  with_handle fp λ i. do
    f ← gets λ k. k.handles i
    if ltb f.ref 1
        then abort filerewind
        else do change_handle i (λ g. record g { position = 0 }); release handles_ref; pure fp
