-- ===== src/Fs/File.antt =====
-- kern/fs/file.cpp: the table of NFILE open files. The null pointer is `none`.
pub mod Table
use page_fault_os_for_risc_v.Prelude.{
  ℕ, zero, suc, ◌+◌, Option, none, some, ◌==◌, if◌then◌else◌, refl,
}
use page_fault_os_for_risc_v.Kernel.{File, fd_none, Kernel}
use page_fault_os_for_risc_v.Kernel.Run.{Cmd, pure, ◌>>=◌, ◌>>◌, modify, gets}
use page_fault_os_for_risc_v.Sync.Spinlock.{LockRef, initlock, acquire, release}
use page_fault_os_for_risc_v.Proc.{nfile}

abbrev pub ftable_ref : LockRef
ftable_ref = record {
  get = λ k. k.ftable_lock;
  put = λ l k. record k { ftable_lock = l };
  get-put = λ l k. refl;
  put-cpu = λ l k. refl;
  put-hart = λ l k. refl;
  get-cpu = λ c k. refl;
}

-- All bytes 0.
abbrev pub no_file : File
no_file = record {
  filepath = λ i. 0;
  directory = 0;
  size = 0;
  ref = 0;
  readable = 0;
  writable = 0;
  kind = fd_none;
  pip = 0;
  location = 0;
  position = 0;
}

abbrev pub set_entry : ℕ → File → Kernel → Kernel
set_entry i f k = record k { files = λ j. if j == i then f else k.files j }

unfoldable pub clear_from : (n i : ℕ) → Cmd Kernel (Unit {0})
clear_from zero i = pure tt
clear_from (suc n) i = do modify (set_entry i no_file); clear_from n (i + 1)

unfoldable pub file_init : (name_lock : Cmd Kernel (Unit {0})) → Cmd Kernel (Unit {0})
file_init name_lock = do initlock ftable_ref name_lock; clear_from nfile 0

unfoldable pub alloc_from : (n i : ℕ) → Cmd Kernel (Option ℕ)
alloc_from zero i = do release ftable_ref; pure none
alloc_from (suc n) i =
    let rest = alloc_from n (i + 1) in
    do
      f ← gets λ k. k.files i
      if f.ref == 0
          then (do modify (set_entry i (record f { ref = 1 })); release ftable_ref; pure (some i))
          else rest

unfoldable pub filealloc : Cmd Kernel (Option ℕ)
filealloc = do acquire ftable_ref; alloc_from nfile 0
