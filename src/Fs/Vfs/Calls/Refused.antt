-- ===== src/Fs/Vfs/Calls/Refused.antt =====
-- Paths that open() of a file system refuses: what vfsopen() and vfschdir() of kern/fs/vfs.cpp do
-- with the handle that they took.
use page_fault_os_for_risc_v.Prelude.{
  ◌∙◌, ℕ, suc, ◌<◌, ◌≡◌, true, false, some, none, ◌==◌, if◌then◌else◌, refl, arith, eq→==, inl, inr,
}
use page_fault_os_for_risc_v.Kernel.{Cpu, Mount, Kernel}
use page_fault_os_for_risc_v.Kernel.Run.{ok}
use page_fault_os_for_risc_v.Sync.Spinlock.Laws.{settled}
use page_fault_os_for_risc_v.Proc.{nfile}
use page_fault_os_for_risc_v.Proc.Wakeup.{curproc-ok}
use page_fault_os_for_risc_v.Fs.File.{no_file}
use page_fault_os_for_risc_v.Fs.Vfs.{PathName, clip, strip, vfsget_fs}
use page_fault_os_for_risc_v.Fs.Vfs.Paths.{get_ab_path-absolute}
use page_fault_os_for_risc_v.Fs.Vfs.Handles.{
  set_handle, is_unused, alloc_file_handle, free_file_handle,
}
use page_fault_os_for_risc_v.Fs.Vfs.Handles.Laws.{granted, alloc_file_handle_first}
use page_fault_os_for_risc_v.Fs.Vfs.Calls.{FileSystem, minus_one, vfsopen, vfschdir}

-- open() of the file system returns -1 for the path, and changes nothing.
abbrev pub Refuses : FileSystem → Mount → PathName → Type 0
Refuses fs m p = (flags fp : ℕ) (k : Kernel) → fs.open_file m p flags fp k ≡ ok minus_one k

abbrev pub ready : Kernel → Kernel
ready k = record k { cpu = settled k.cpu }

-- A free handle is found, whichever comes first.
free_handle :
    (k : Kernel) (d : k.cpu.noff ≡ 0)
    → k.handles_lock.locked ≡ false
    → (u : ℕ) → u < nfile
    → is_unused (k.handles u) ≡ true
    → (g : ℕ) × (alloc_file_handle k ≡ ok (suc g) (granted k d g))
      × (is_unused (k.handles g) ≡ true)
free_handle k d l u b e = elim (alloc_file_handle_first k d l) [
  | inl (g, a, lt, f, before) ↦ (g, a, f)
  | inr (a, full) ↦ absurd (cc (full u b))
]

served_in :
    (p : PathName) (k : Kernel) (c : Cpu) → vfsget_fs p (record k { cpu = c }) ≡ vfsget_fs p k
unfolding vfsget_fs
served_in p k c = refl

module _ (fs : FileSystem) (k : Kernel) (d : k.cpu.noff ≡ 0) (l : k.handles_lock.locked ≡ false)
    (u : ℕ) (b : u < nfile) (e : is_unused (k.handles u) ≡ true) (p : PathName)
    (a : strip p 0 ≡ b'/') (m : Mount) (served : vfsget_fs (clip (strip p)) k ≡ some m)
    (no_open : Refuses fs m (clip (strip p))) where
  abbrev served_ready : vfsget_fs (clip (strip p)) (ready k) ≡ some m
  served_ready = served_in (clip (strip p)) k (settled k.cpu) ∙ served

  -- Where vfsopen() ends.
  abbrev opened : ℕ → Kernel
  opened g = set_handle g no_file (granted (ready k) refl g)

  vfsopen_refused :
      (g flags : ℕ)
      → alloc_file_handle (ready k) ≡ ok (suc g) (granted (ready k) refl g)
      → vfsopen fs p flags k ≡ ok none (opened g)
  unfolding vfsopen free_file_handle
  vfsopen_refused g flags run =
      rw
        (
          get_ab_path-absolute p k d a,
          served_ready,
          run,
          no_open flags (suc g) (granted (ready k) refl g),
        )
        refl

  vfschdir_refused :
      (g : ℕ)
      → alloc_file_handle (ready k) ≡ ok (suc g) (granted (ready k) refl g)
      → vfschdir fs p k ≡ ok minus_one (ready (granted (ready k) refl g))
  unfolding vfschdir vfsget_fs
  vfschdir_refused g run =
      let k2 : Kernel = granted (ready k) refl g in
      rw
        (
          curproc-ok k d,
          run,
          get_ab_path-absolute p k2 refl a,
          served_in (clip (strip p)) k2 (settled k2.cpu),
          served,
          no_open 0 (suc g) (ready k2),
        )
        refl

  same_handle : (g j : ℕ) → (opened g).handles j ≡ (if j == g then no_file else k.handles j)
  same_handle g j = ground arith

  -- An absolute path that the file system refuses to open: vfsopen() fails and clears the handle that
  -- it took, so that it is as unused as before; vfschdir() fails and keeps the handle, which no later
  -- call can take.
  pub refused_paths :
      ((g : ℕ) × (t : Kernel) × ((flags : ℕ) → vfsopen fs p flags k ≡ ok none t)
        × (is_unused (k.handles g) ≡ true)
        × (t.handles ≡ (λ j. if j == g then no_file else k.handles j)))
      × ((g : ℕ) × (t : Kernel) × (vfschdir fs p k ≡ ok minus_one t)
          × (is_unused (k.handles g) ≡ true)
          × (is_unused (t.handles g) ≡ false))
  refused_paths =
      let (g, run, f) = free_handle (ready k) refl l u b e in
      (
        (g, opened g, λ flags. vfsopen_refused g flags run, f, λ i j. same_handle g j i),
        (g, ready (granted (ready k) refl g), vfschdir_refused g run, f, rw (eq→== g g refl) refl),
      )
