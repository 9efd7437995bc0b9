-- ===== src/Syscall/Files.antt =====
-- kern/syscall/syscallfile.cpp: the system calls on files. The
-- strings that a call has on the kernel stack are at addresses that it takes.
pub mod Laws
use page_fault_os_for_risc_v.Prelude.{
  ℕ, ◌+◌, ◌-◌, ◌/◌, ◌%◌, ◌^◌, Bool, true, ◌&&◌, ◌||◌, Option, none, some, ltb, leb, ◌==◌,
  if◌then◌else◌,
}
use page_fault_os_for_risc_v.Prelude.Int.{ℤ, pos, negsuc}
use page_fault_os_for_risc_v.Kernel.{Kernel}
use page_fault_os_for_risc_v.Kernel.Run.{Cmd, Status, done, failed, pure, ◌>>=◌, ◌>>◌, modify, gets}
use page_fault_os_for_risc_v.Sync.Spinlock.{acquire, release}
use page_fault_os_for_risc_v.Mm.Layout.{u64}
use page_fault_os_for_risc_v.Mm.Bytes.{get_byte, put_bytes}
use page_fault_os_for_risc_v.Mm.Copy.{Source, copyout}
use page_fault_os_for_risc_v.Proc.{nofile, nommapfile, maxpath, get_proc, proc_lock, curproc, deref}
use page_fault_os_for_risc_v.Proc.Files.{set_file, regist_file_handle, get_file_by_fd}
use page_fault_os_for_risc_v.Proc.Exit.{widen}
use page_fault_os_for_risc_v.Proc.Fork.{set_region}
use page_fault_os_for_risc_v.Fs.Vfs.{PathName, length}
use page_fault_os_for_risc_v.Fs.Vfs.Calls.{
  FileSystem, DirFd, at_fdcwd, dir, vfsopen, vfsmkdirat, vfsrm, vfsls, vfschdir, vfsread_fd,
  vfswrite_fd, vfscreate_pipe,
}
use page_fault_os_for_risc_v.Fs.Vfs.Handles.{with_handle, vfsdup}
use page_fault_os_for_risc_v.Fs.Vfs.Mounts.{fat32, vfsmount, same_text, vfsumount}
use page_fault_os_for_risc_v.Syscall.{argint, argaddr, argstr}
use page_fault_os_for_risc_v.Syscall.Words.{
  minus_one, word, int_word, fd_word, status_word, fd_of, dir_of, text, with_text,
}

-- What argfd() finds: the pointer in ofile[fd], for a descriptor below NOFILE.
unfoldable pub arg_file : Option ℕ → Cmd Kernel ℕ
arg_file none = pure 0
arg_file (some fd) =
    if leb nofile fd
    then pure 0
    else do p ← curproc; deref p λ i. do c ← get_proc i; pure (c.ofile fd)

-- Descriptor and file; no file is the result -1.
unfoldable pub argfd : (n : ℕ) → Cmd Kernel ℕ
unfolding arg_file
argfd n = do fd ← argint n; arg_file (fd_of fd)

-- p->ofile[fd] = NULL for an `int fd`: below 0 the store goes to the pointers of regions, which stand before
-- the array, and farther down to what `before` says.
unfoldable pub clear_file :
    (before : (i n : ℕ) → Cmd Kernel (Unit {0})) → (i fd : ℕ) → Cmd Kernel (Unit {0})
clear_file before i fd =
    let n : ℕ = 2 ^ 32 - fd in
    if ltb fd (2 ^ 31)
    then set_file i fd 0
    else if leb n nommapfile
    then set_region i (nommapfile - n) 0
    else before i n

-- vfsclose() is empty in the source.
unfoldable pub sys_close : (before : (i n : ℕ) → Cmd Kernel (Unit {0})) → Cmd Kernel ℕ
unfolding clear_file
sys_close before = do
  fd ← argint 0
  get_file_by_fd (fd_of fd)
  p ← curproc
  deref p λ i. do acquire (proc_lock i); clear_file before i fd; release (proc_lock i); pure 0

-- The bytes of a kstat: st_dev, st_nlink and st_size are set.
abbrev pub kstat_of : (size : ℕ) → Source
kstat_of size j k =
    if j == 0 || j == 20 then 1 else if leb 48 j && ltb j 56 then size / 256 ^ (j - 48) % 256 else 0

abbrev pub kstat_size : ℕ
kstat_size = 128

unfoldable pub sys_fstat : Cmd Kernel ℕ
unfolding argfd
sys_fstat = do
  fp ← argfd 0
  if fp == 0 then pure minus_one else do
    addr ← argaddr 1
    with_handle fp λ i. do
      f ← gets λ k. k.handles i
      p ← curproc
      deref p λ j. do
        c ← get_proc j
        r ← copyout c.pagetable addr (kstat_of f.size) kstat_size
        pure (status_word r)

unfoldable pub sys_dup : Cmd Kernel ℕ
sys_dup = do
  fd ← argint 0
  fp ← get_file_by_fd (fd_of fd)
  if fp == 0 then pure minus_one else do vfsdup fp; r ← regist_file_handle fp none; pure (fd_word r)

unfoldable pub sys_dup3 : Cmd Kernel ℕ
sys_dup3 = do
  old ← argint 0
  new ← argint 1
  fp ← get_file_by_fd (fd_of old)
  vfsdup fp
  r ← regist_file_handle fp (fd_of new)
  pure (fd_word r)

-- "vfat"
abbrev pub vfat : PathName
vfat j =
    if j == 0
    then b'v'
    else if j == 1
    then b'f'
    else if j == 2
    then b'a'
    else if j == 3
    then b't'
    else 0

-- The result of vfsmount() is not looked at.
unfoldable pub sys_mount : (special target fstype : ℕ) → Cmd Kernel ℕ
sys_mount special target fstype = with_text 0 special maxpath λ _. with_text 1 target maxpath λ _.
    with_text 2 fstype 10 λ t.
      if same_text 4 0 t vfat
      then (do d ← text target; s ← text special; vfsmount fat32 d s; pure 0)
      else pure minus_one

unfoldable pub sys_umount2 : (target : ℕ) → Cmd Kernel ℕ
sys_umount2 target =
    with_text 0 target maxpath λ p. do argint 1; r ← vfsumount p; pure (status_word r)

-- int fds[2] is what `fds` says if vfscreatePipe() does not set it.
abbrev pub pipe_fds : Option (Option ℕ × Option ℕ) → Option ℕ × Option ℕ → Option ℕ × Option ℕ
pipe_fds none fds = fds
pipe_fds (some r) fds = r

-- The four bytes of an int that holds a descriptor.
abbrev pub fd_bytes : Option ℕ → Source
fd_bytes fd j k = fd_word fd % 2 ^ 32 / 256 ^ j % 256

-- The first of two results that is not 0 decides.
abbrev pub both : Cmd Kernel Status → Cmd Kernel Status → Cmd Kernel Status
both a b = do r ← a; elim r [ failed ↦ pure failed | done ↦ b ]

unfoldable pub sys_pipe2 :
    (new_pipe : Cmd Kernel (Option ℕ))
    → (name_lock : Cmd Kernel (Unit {0})) → (fds : Option ℕ × Option ℕ) → Cmd Kernel ℕ
sys_pipe2 new_pipe name_lock fds = do
  p ← curproc
  addr ← argaddr 0
  o ← vfscreate_pipe new_pipe name_lock
  let r = pipe_fds o fds
  deref p λ i. do
    c ← get_proc i
    s ←
        both (copyout c.pagetable addr (fd_bytes r.0) 4)
          (do d ← get_proc i; copyout d.pagetable (u64 (addr + 4)) (fd_bytes r.1) 4)
    elim s [ done ↦ pure 0 | failed ↦ do get_file_by_fd r.0; get_file_by_fd r.1; pure minus_one ]

-- strlen(cwd) > n
abbrev pub longer : ℕ → ℕ → Bool
longer l n = leb (2 ^ 31) n || ltb n l

-- either_copyout(1, userBuf, cwd, strlen(cwd)): the NUL is not copied.
unfoldable pub sys_getcwd : Cmd Kernel ℕ
sys_getcwd = do
  buf ← argaddr 0
  n ← argint 1
  p ← curproc
  deref p λ i. do
    c ← get_proc i
    if longer (length c.work_dir) n then pure minus_one else do
      q ← curproc
      deref q λ j. do
        d ← get_proc j
        r ← copyout d.pagetable buf (λ m k. (k.table i).work_dir m) (length c.work_dir)
        elim r [ failed ↦ pure 0 | done ↦ pure buf ]

module _ (fs : FileSystem) where
  unfoldable pub sys_openat : (path : ℕ) → Cmd Kernel ℕ
  sys_openat path = do
    argint 0
    with_text 1 path maxpath
        λ name. do flags ← argint 2; argint 3; fd ← vfsopen fs name flags; pure (fd_word fd)

  unfoldable pub sys_open : (path : ℕ) → Cmd Kernel ℕ
  sys_open path =
      with_text 0 path maxpath
        λ name. do mode ← argint 1; fd ← vfsopen fs name mode; pure (fd_word fd)

  -- The result of vfsmkdirat() is not looked at.
  unfoldable pub sys_mkdirat : (path : ℕ) → Cmd Kernel ℕ
  sys_mkdirat path = do
    fd ← argint 0
    with_text 1 path maxpath λ name. do vfsmkdirat fs (dir_of fd) name; pure 0

  unfoldable pub sys_chdir : (path : ℕ) → Cmd Kernel ℕ
  sys_chdir path = do
    modify λ k. record k { mem = put_bytes k.mem path maxpath λ _. 0 }
    with_text 0 path maxpath λ name. do r ← vfschdir fs name; pure (int_word r)

  -- `len` goes on as a word of 32 bits.
  unfoldable pub sys_getdents64 : Cmd Kernel ℕ
  sys_getdents64 = do
    fd ← argint 0
    addr ← argaddr 1
    len ← argint 2
    n ← vfsls fs (fd_of fd) addr len true
    pure (int_word n)

  unfoldable pub sys_unlinkat : (path : ℕ) → Cmd Kernel ℕ
  sys_unlinkat path = do
    fd ← argint 0
    with_text 1 path maxpath λ name. do argint 2; r ← vfsrm fs (dir_of fd) name; pure (int_word r)

  module _ (switch : Cmd Kernel (Unit {0})) (fuel : ℕ) where
    unfoldable pub sys_read : Cmd Kernel ℕ
    sys_read = do
      fd ← argint 0
      n ← argint 2
      addr ← argaddr 1
      r ← vfsread_fd fs switch fuel (fd_of fd) true addr (widen n)
      pure (word r)

    unfoldable pub sys_write : Cmd Kernel ℕ
    sys_write = do
      fd ← argint 0
      n ← argint 2
      addr ← argaddr 1
      r ← vfswrite_fd fs switch fuel (fd_of fd) true addr (widen n)
      pure (word r)
