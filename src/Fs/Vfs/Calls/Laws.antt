-- ===== src/Fs/Vfs/Calls/Laws.antt =====
-- Calls of kern/fs/vfs.cpp: descriptors, refused paths and written files.
use page_fault_os_for_risc_v.Prelude.{
  ap, ◌∙◌, ℕ, suc, ◌+◌, ◌-◌, ◌%◌, ◌^◌, ◌≤◌, ◌≡◌, ◌≢◌, Bool, false, ◌&&◌, some, leb, ltb, ◌==◌,
  if◌then◌else◌, refl, arith, eq→==,
}
use page_fault_os_for_risc_v.Prelude.Int.{pos}
use page_fault_os_for_risc_v.Kernel.{File, fd_entry, Mount, Kernel}
use page_fault_os_for_risc_v.Kernel.Run.{Cmd, ok, panic, ◌>>◌, ◌>>=◌}
use page_fault_os_for_risc_v.Kernel.Run
use page_fault_os_for_risc_v.Proc.{nofile}
use page_fault_os_for_risc_v.Proc.Files.Laws.{get_file_by_fd_stuck}
use page_fault_os_for_risc_v.Fs.Vfs.{find_fs, PathName, vfsget_fs}
use page_fault_os_for_risc_v.Fs.Vfs.Handles.{set_handle}
use page_fault_os_for_risc_v.Fs.Vfs.Calls.{
  FileSystem, vfsls, vfsread_fd, vfswrite_fd, vfswrite, write_by_kind, written,
}

-- For a descriptor of 0 to NOFILE and a running process whose lock is free, vfsread(), vfswrite()
-- and vfsls() stop the kernel, whatever the file is: they look the descriptor up by getFileByFd().
pub descriptor_calls_stuck :
    (fs : FileSystem) (switch : Cmd Kernel (Unit {0})) (fuel : ℕ) (k : Kernel) (i fd : ℕ)
    → fd ≤ nofile
    → k.cpu.noff ≡ 0
    → k.current ≡ some i
    → (k.table i).lock.locked ≡ false
    → (user : Bool) (buf n : ℕ)
    → (vfsread_fd fs switch fuel (some fd) user buf n k ≡ panic Run.pop_off)
      × (vfswrite_fd fs switch fuel (some fd) user buf n k ≡ panic Run.pop_off)
      × (vfsls fs (some fd) buf n user k ≡ panic Run.pop_off)
unfolding vfsread_fd vfswrite_fd vfsls
descriptor_calls_stuck fs switch fuel k i fd small d c u user buf n =
    let e = get_file_by_fd_stuck k i fd small d c u in (rw e refl, rw e refl, rw e refl)

-- What write() of a file system is to do to a file whose bytes are `contents`: the bytes of the
-- source take the place of those from the offset on, all of them are written, and neither the
-- handles nor the mounted file systems change.
pub record Writes (fs : FileSystem) (m : Mount) (p : PathName) (u : Bool)
    (contents : Kernel → ℕ → ℕ) (source : ℕ → ℕ → ℕ) : Type 0 where
  pub after : (src o n : ℕ) → Kernel → Kernel
  pub returns : (src o n : ℕ) (k : Kernel) → fs.write m p u src o n k ≡ ok (pos n) (after src o n k)
  pub handles : (src o n : ℕ) (k : Kernel) → (after src o n k).handles ≡ k.handles
  pub mounted : (src o n : ℕ) (k : Kernel) → (after src o n k).mounted ≡ k.mounted
  pub replaces :
      (src o n : ℕ) (k : Kernel) (j : ℕ)
      → contents (after src o n k) j
        ≡ (if leb o j && ltb j (o + n) then source src (j - o) else contents k j)
  pub apart : (i : ℕ) (f : File) (k : Kernel) (j : ℕ) → contents (set_handle i f k) j ≡ contents k j

-- A handle of a file that may be written.
pub record IsWritable (k : Kernel) (g : ℕ) (m : Mount) (p : PathName) : Type 0 where
  pub kind : (k.handles g).kind ≡ fd_entry
  pub writable : (k.handles g).writable ≢ 0
  pub path : (k.handles g).filepath ≡ p
  pub served : vfsget_fs p k ≡ some m

served_by : (p : PathName) (k t : Kernel) → t.mounted ≡ k.mounted → vfsget_fs p t ≡ vfsget_fs p k
unfolding vfsget_fs
served_by p k t e = ap (find_fs p) e

module _ (fs : FileSystem) (switch : Cmd Kernel (Unit {0})) (fuel : ℕ) (m : Mount) (p : PathName)
    (u : Bool) (contents : Kernel → ℕ → ℕ) (source : ℕ → ℕ → ℕ)
    (w : Writes fs m p u contents source) where
  abbrev after_write : (g src n : ℕ) → Kernel → Kernel
  after_write g src n k =
      let t = w.after src 0 n k in set_handle g (written fs switch fuel (pos n) (t.handles g)) t

  vfswrite-entry :
      (k : Kernel) (g src n : ℕ)
      → IsWritable k g m p
      → vfswrite fs switch fuel (suc g) u src n k ≡ ok (pos n) (after_write g src n k)
  unfolding vfswrite
  vfswrite-entry k g src n h =
      let nz : (suc g == 0) ≡ false = ground arith in
      let nw : ((k.handles g).writable == 0) ≡ false = ground (arith, h.writable) in
      rw (nz, nw, h.kind) (unfold write_by_kind in rw (h.path, h.served, w.returns src 0 n k) refl)

  -- The handle may be written again.
  IsWritable-after :
      (k : Kernel) (g src n : ℕ) → IsWritable k g m p → IsWritable (after_write g src n k) g m p
  IsWritable-after k g src n h =
      let e = w.handles src 0 n k in
      let q = eq→== g g refl in
      record {
        kind = rw (q, e) h.kind;
        writable = rw (q, e) h.writable;
        path = rw (q, e) h.path;
        served = served_by p k (after_write g src n k) (w.mounted src 0 n k) ∙ h.served;
      }

  contents-after :
      (k : Kernel) (g src n j : ℕ)
      → contents (after_write g src n k) j ≡ (if ltb j n then source src j else contents k j)
  contents-after k g src n j =
      let t = w.after src 0 n k in
      let e : j - 0 ≡ j = omega arith in
      w.apart g (written fs switch fuel (pos n) (t.handles g)) t j
      ∙ w.replaces src 0 n k j
      ∙ rw e (ground arith)

  position-after :
      (k : Kernel) (g src n : ℕ)
      → ((after_write g src n k).handles g).position ≡ ((k.handles g).position + n) % 2 ^ 64
  position-after k g src n = rw (eq→== g g refl, w.handles src 0 n k) refl

  -- Two calls of vfswrite() on a file, of `n` bytes each: the second takes the place of the first, so
  -- that the file starts with the bytes of the second and has lost those of the first, while both calls
  -- return `n` and the position of the handle moves on by 2 * n. This is for a file system that writes
  -- where it is told to.
  pub vfswrite_twice :
      (k : Kernel) (g a b n : ℕ)
      → IsWritable k g m p
      → (t : Kernel) × ((vfswrite fs switch fuel (suc g) u a n
              >> vfswrite fs switch fuel (suc g) u b n)
            k
          ≡ ok (pos n) t)
        × ((j : ℕ) → contents t j ≡ (if ltb j n then source b j else contents k j))
        × ((t.handles g).position ≡ ((k.handles g).position + n + n) % 2 ^ 64)
  vfswrite_twice k g a b n h =
      let k1 : Kernel = after_write g a n k in
      let h1 = IsWritable-after k g a n h in
      (
        after_write g b n k1,
        rw (vfswrite-entry k g a n h) (vfswrite-entry k1 g b n h1),
        λ j. contents-after k1 g b n j ∙ ground (arith, contents-after k g a n j),
        omega (arith, position-after k1 g b n, position-after k g a n),
      )
