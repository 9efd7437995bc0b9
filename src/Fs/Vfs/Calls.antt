-- ===== src/Fs/Vfs/Calls.antt =====
-- kern/fs/vfs.cpp: the calls on files and directories. The methods of the file systems are an
-- interface, what `int r` receives from read() and write() being an integer; `switch` is pswitch()
-- and `fuel` what the waits of a pipe may use.
pub mod Laws
pub mod Refused
use page_fault_os_for_risc_v.Prelude.{
  ℕ, zero, suc, ◌+◌, ◌-◌, ◌/◌, ◌%◌, ◌^◌, Bool, true, false, not, ◌&&◌, ◌||◌, Option, none, some,
  ltb, ◌==◌, if◌then◌else◌,
}
use page_fault_os_for_risc_v.Prelude.Int.{ℤ, pos, negsuc}
use page_fault_os_for_risc_v.Kernel.{
  File, FileKind, fd_none, fd_pipe, fd_entry, fd_device, Mount, Proc, Kernel,
}
use page_fault_os_for_risc_v.Kernel.Run.{Cmd, pure, ◌>>=◌, ◌>>◌, modify, gets, abort, null_pointer}
use page_fault_os_for_risc_v.Kernel.Run
use page_fault_os_for_risc_v.Sync.Spinlock.{acquire, release}
use page_fault_os_for_risc_v.Proc.{change_proc, proc_lock, curproc, deref}
use page_fault_os_for_risc_v.Proc.Files.{regist_file_handle, get_file_by_fd}
use page_fault_os_for_risc_v.Pipe
use page_fault_os_for_risc_v.Fs.Vfs.{PathName, length, clip, join, get_ab_path, vfsget_fs}
use page_fault_os_for_risc_v.Fs.Vfs.Handles.{
  change_handle, with_handle, alloc_file_handle, free_file_handle,
}

-- The virtual methods of FileSystem that the calls use.
pub record FileSystem : Type 0 where
  pub open_file : Mount → PathName → (flags fp : ℕ) → Cmd Kernel ℤ
  pub read : Mount → PathName → (user : Bool) → (buf offset n : ℕ) → Cmd Kernel ℤ
  pub write : Mount → PathName → (user : Bool) → (buf offset n : ℕ) → Cmd Kernel ℤ
  pub ls : Mount → PathName → (contents len : ℕ) → (user : Bool) → Cmd Kernel ℤ
  pub mkdir : Mount → PathName → Cmd Kernel ℤ
  pub rm : Mount → PathName → Cmd Kernel ℤ

abbrev pub minus_one : ℤ
minus_one = negsuc 0

abbrev pub is_minus_one : ℤ → Bool
is_minus_one (pos n) = false
is_minus_one (negsuc n) = n == 0

abbrev pub is_negative : ℤ → Bool
is_negative (pos n) = false
is_negative (negsuc n) = true

-- The method is called through the pointer.
abbrev pub on_fs : {A : Type 0} → Option Mount → (Mount → Cmd Kernel A) → Cmd Kernel A
on_fs none f = abort null_pointer
on_fs (some m) f = f m

abbrev pub with_fs : {A : Type 0} → PathName → (Mount → Cmd Kernel A) → Cmd Kernel A
with_fs p f k = on_fs (vfsget_fs p k) f k

-- flags & O_WRITEONLY, flags & O_RDWR
abbrev pub write_only : ℕ → Bool
write_only flags = flags % 2 == 1

abbrev pub read_write : ℕ → Bool
read_write flags = flags / 2 % 2 == 1

abbrev pub flag : Bool → ℕ
flag b = if b then 1 else 0

-- safestrcpy(dst, src, strlen(src) + 1)
abbrev pub put_text : PathName → PathName → PathName
put_text src dst i = if ltb i (length src) then src i else if i == length src then 0 else dst i

-- `fp->position + r`, as a size_t
abbrev pub advance : ℕ → ℤ → ℕ
advance p (pos n) = (p + n) % 2 ^ 64
advance p (negsuc n) = (p + 2 ^ 64 - (n + 1) % 2 ^ 64) % 2 ^ 64

abbrev pub opened_with : (path : PathName) → (flags : ℕ) → File → File
opened_with path flags f = record f {
  filepath = put_text path f.filepath;
  readable = flag (not (write_only flags));
  writable = flag (write_only flags || read_write flags);
}

-- What the result of a pipe is as an int.
abbrev pub count : Option ℕ → ℤ
count none = minus_one
count (some n) = pos n

-- AT_FDCWD, or another number; `none` is an `int fd` below 0.
pub data DirFd : Type 0 where
  at_fdcwd : DirFd
  dir : Option ℕ → DirFd

module _ (fs : FileSystem) where
  unfoldable pub vfsopen : (filename : PathName) → (flags : ℕ) → Cmd Kernel (Option ℕ)
  vfsopen filename flags = do
    path ← get_ab_path filename
    o ← gets (vfsget_fs path)
    fp ← alloc_file_handle
    r ← on_fs o λ m. fs.open_file m path flags fp
    if is_minus_one r then (do free_file_handle fp; pure none) else do
      with_handle fp λ i. change_handle i (opened_with path flags)
      regist_file_handle fp none

  -- The path of a call that has a directory; no '/' is put between the two parts.
  unfoldable pub path_at : DirFd → (filepath : PathName) → Cmd Kernel PathName
  path_at at_fdcwd filepath = get_ab_path filepath
  path_at (dir d) filepath = if filepath 0 == b'/' then pure (clip filepath) else do
    fp ← get_file_by_fd d
    with_handle fp λ i. do f ← gets λ k. k.handles i; pure (join f.filepath filepath)

  unfoldable pub vfsmkdirat : DirFd → (filepath : PathName) → Cmd Kernel ℤ
  vfsmkdirat d filepath = do path ← path_at d filepath; with_fs path λ m. fs.mkdir m path

  -- The path that was put together is not used.
  unfoldable pub vfsopenat : DirFd → (filepath : PathName) → (flags : ℕ) → Cmd Kernel (Option ℕ)
  vfsopenat d filepath flags = do path_at d filepath; vfsopen filepath flags

  unfoldable pub vfsrm : DirFd → (filepath : PathName) → Cmd Kernel ℤ
  vfsrm d filepath = do path ← path_at d filepath; with_fs path λ m. fs.rm m path

  unfoldable pub vfsls : (fd : Option ℕ) → (buffer len : ℕ) → (user : Bool) → Cmd Kernel ℤ
  vfsls fd buffer len user = do
    fp ← get_file_by_fd fd
    if fp == 0
        then pure minus_one
        else with_handle fp λ i. do
          f ← gets λ k. k.handles i
          if f.directory == 0
              then pure minus_one
              else with_fs f.filepath λ m. fs.ls m f.filepath buffer len user

  unfoldable pub vfsdread : (file : PathName) → (buffer n offset : ℕ) → Cmd Kernel ℤ
  vfsdread file buffer n offset = with_fs file λ m. fs.read m file false buffer offset n

  unfoldable pub vfsdwrite : (file : PathName) → (buffer n offset : ℕ) → Cmd Kernel ℤ
  vfsdwrite file buffer n offset = with_fs file λ m. fs.write m file false buffer offset n

  -- The directory's path, with a '/' at its end.
  abbrev pub with_slash : PathName → PathName
  with_slash p =
      if p (length p - 1) == b'/'
      then p
      else (λ i. if i == length p then b'/' else if i == length p + 1 then 0 else p i)

  -- The process was looked up before: the null pointer is met at `acquire(&p->lock)`.
  unfoldable pub set_work_dir : Option ℕ → PathName → Cmd Kernel (Unit {0})
  set_work_dir p path = deref p λ i. do
    acquire (proc_lock i)
    change_proc i (λ c. record c { work_dir = put_text path c.work_dir })
    release (proc_lock i)

  -- A handle that open() refuses is not given back.
  unfoldable pub vfschdir : (filepath : PathName) → Cmd Kernel ℤ
  vfschdir filepath = do
    p ← curproc
    fp ← alloc_file_handle
    path ← get_ab_path filepath
    r ← with_fs path λ m. fs.open_file m path 0 fp
    if is_negative r
        then pure minus_one
        else with_handle fp λ i. do
          f ← gets λ k. k.handles i
          if f.directory == 0
              then (do free_file_handle fp; pure minus_one)
              else do set_work_dir p (with_slash path); free_file_handle fp; pure (pos 0)

  module _ (switch : Cmd Kernel (Unit {0})) (fuel : ℕ) where
    -- The switch over the type of the file in vfsread().
    unfoldable pub read_by_kind :
        FileKind → (i : ℕ) → File → (user : Bool) → (dst n : ℕ) → Cmd Kernel ℤ
    read_by_kind fd_pipe i f user dst n = do
      r ← Pipe.piperead switch fuel f.pip dst n
      pure (count r)
    read_by_kind fd_device i f user dst n =
        with_fs f.filepath λ m. fs.read m f.filepath user dst 0 n
    read_by_kind fd_entry i f user dst n = do
      r ← with_fs f.filepath λ m. fs.read m f.filepath user dst f.position n
      change_handle i (λ g. record g { position = advance g.position r })
      pure r
    read_by_kind fd_none i f user dst n = abort Run.vfsread

    unfoldable pub vfsread : (fp : ℕ) → (user : Bool) → (dst n : ℕ) → Cmd Kernel ℤ
    vfsread fp user dst n =
        if fp == 0
        then pure minus_one
        else with_handle fp λ i. do
          f ← gets λ k. k.handles i
          if f.readable == 0 then pure minus_one else read_by_kind f.kind i f user dst n

    unfoldable pub vfsread_fd : (fd : Option ℕ) → (user : Bool) → (dst n : ℕ) → Cmd Kernel ℤ
    vfsread_fd fd user dst n = do fp ← get_file_by_fd fd; vfsread fp user dst n

    -- The size, if the position passes it, and the position after a write that returned `r`.
    abbrev pub written : ℤ → File → File
    written r f =
        let end = advance f.position r in
        record f { size = if ltb end f.size then f.size else end; position = end }

    -- The number of bytes that a pipe takes is not returned, and a file is written from its start.
    unfoldable pub write_by_kind :
        FileKind → (i : ℕ) → File → (user : Bool) → (src n : ℕ) → Cmd Kernel ℤ
    write_by_kind fd_pipe i f user src n = do Pipe.pipewrite switch fuel f.pip src n; pure (pos 0)
    write_by_kind fd_device i f user src n =
        with_fs f.filepath λ m. fs.write m f.filepath user src 0 n
    write_by_kind fd_entry i f user src n = do
      r ← with_fs f.filepath λ m. fs.write m f.filepath user src 0 n
      change_handle i (written r)
      pure r
    write_by_kind fd_none i f user src n = abort Run.vfswrite

    unfoldable pub vfswrite : (fp : ℕ) → (user : Bool) → (src n : ℕ) → Cmd Kernel ℤ
    vfswrite fp user src n =
        if fp == 0
        then pure minus_one
        else with_handle fp λ i. do
          f ← gets λ k. k.handles i
          if f.writable == 0 then pure minus_one else write_by_kind f.kind i f user src n

    unfoldable pub vfswrite_fd : (fd : Option ℕ) → (user : Bool) → (src n : ℕ) → Cmd Kernel ℤ
    vfswrite_fd fd user src n = do fp ← get_file_by_fd fd; vfswrite fp user src n

-- What the constructor of a pipe makes of its two handles.
abbrev pub read_end : (id : ℕ) → File → File
read_end id f = record f { kind = fd_pipe; readable = 1; writable = 0; pip = id }

abbrev pub write_end : (id : ℕ) → File → File
write_end id f = record f { kind = fd_pipe; readable = 0; writable = 1; pip = id }

-- `new_pipe` is what operator new returns: the number of a pipe, or the null pointer. The result is
-- the array `fds`, or `none` for -1.
unfoldable pub vfscreate_pipe :
    (new_pipe : Cmd Kernel (Option ℕ))
    → (name_lock : Cmd Kernel (Unit {0})) → Cmd Kernel (Option (Option ℕ × Option ℕ))
vfscreate_pipe new_pipe name_lock = do
  f0 ← alloc_file_handle
  f1 ← alloc_file_handle
  o ← new_pipe
  elim o [
    | none ↦ do free_file_handle f0; free_file_handle f1; pure none
    | some id ↦ do
      Pipe.make name_lock id
      with_handle f0 λ i. change_handle i (read_end id)
      with_handle f1 λ i. change_handle i (write_end id)
      fd0 ← regist_file_handle f0 none
      fd1 ← regist_file_handle f1 none
      pure (some (fd0, fd1))
  ]
