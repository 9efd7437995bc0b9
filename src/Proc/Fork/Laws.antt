-- ===== src/Proc/Fork/Laws.antt =====
-- What a child has in common with the process that makes it.
use page_fault_os_for_risc_v.Prelude.{
  ℕ, ◌⊎◌, zero, suc, ◌+◌, ◌≤◌, ◌<◌, ◌≡◌, ◌≢◌, ◌∙◌, refl, ap, true, false, ltb, leb, ◌==◌, ◌&&◌, not,
  if◌then◌else◌, eq→==, ==_iff, sym, Bool-cases, inl, inr, arith,
}
use page_fault_os_for_risc_v.Kernel.{Kernel}
use page_fault_os_for_risc_v.Kernel.Run.{Cmd, ok, panic}
use page_fault_os_for_risc_v.Kernel.Run
use page_fault_os_for_risc_v.Sync.Spinlock.{free_lock}
use page_fault_os_for_risc_v.Sync.Spinlock.Laws.{settled, taken, acquire-ok, release-ok}
use page_fault_os_for_risc_v.Proc.{set_at, set_proc}
use page_fault_os_for_risc_v.Fs.Vfs.Handles.{handles_ref, set_handle, vfsdup}
use page_fault_os_for_risc_v.Proc.Fork.{share_files, fork, clone}
use page_fault_os_for_risc_v.Proc.Wakeup.{curproc-ok}
use page_fault_os_for_risc_v.Proc.Alloc.Laws.{First, allocproc_stuck}

-- Handle `h` with one more reference.
abbrev pub counted : ℕ → Kernel → Kernel
counted h k = record (set_handle h (record (k.handles h) { ref = (k.handles h).ref + 1 }) k) {
  cpu = settled k.cpu;
  handles_lock = free_lock;
}

-- A handle with a reference gets one more.
pub vfsdup-ok :
    (k : Kernel) (h : ℕ)
    → k.cpu.noff ≡ 0
    → k.handles_lock.locked ≡ false
    → 1 ≤ (k.handles h).ref
    → vfsdup (suc h) k ≡ ok (suc h) (counted h k)
unfolding vfsdup
vfsdup-ok k h d u r =
    let few : ltb (k.handles h).ref 1 ≡ false = ground arith in
    let s : Kernel =
      set_handle h (record (k.handles h) { ref = (k.handles h).ref + 1 }) (taken handles_ref k) in
    rw
      (
        acquire-ok handles_ref k u,
        few,
        release-ok handles_ref s (eq→== k.hart k.hart refl) refl (omega arith),
      )
      (ap (λ c. ok (suc h) (record (counted h k) { cpu = c })) (rw d refl))

-- How many of the `n` descriptors from `fd` on are the pointer `p`.
abbrev pub uses : (n fd : ℕ) → (ℕ → ℕ) → (p : ℕ) → ℕ
uses zero fd f p = 0
uses (suc n) fd f p = (if f fd == p then 1 else 0) + uses n (fd + 1) f p

-- Each descriptor from `fd` on that is open has a handle with a reference.
abbrev pub IsOpen : (ℕ → ℕ) → Kernel → Type 0
IsOpen f k = (j h : ℕ) → f j ≡ suc h → 1 ≤ (k.handles h).ref

-- What sharing the `n` files from `fd` on of process `i` with `c` makes of `k`.
pub record Shared (n fd i c : ℕ) (k t : Kernel) : Type 0 where
  pub files :
      (j : ℕ)
      → (t.table c).ofile j ≡ (
          if leb fd j && ltb j (fd + n) && not ((k.table i).ofile j == 0)
          then (k.table i).ofile j
          else (k.table c).ofile j)
  pub refs : (h : ℕ) → (t.handles h).ref ≡ (k.handles h).ref + uses n fd (k.table i).ofile (suc h)
  pub others : (j : ℕ) → j ≢ c → t.table j ≡ k.table j

-- One descriptor and the ones after it.
Shared-suc :
    (n fd i c : ℕ) (k m t : Kernel)
    → m.table i ≡ k.table i
    → ((j : ℕ)
        → (m.table c).ofile j ≡ (
            if j == fd && not ((k.table i).ofile fd == 0)
            then (k.table i).ofile fd
            else (k.table c).ofile j))
    → ((h : ℕ)
        → (m.handles h).ref ≡ (k.handles h).ref + (if (k.table i).ofile fd == suc h then 1 else 0))
    → ((j : ℕ) → j ≢ c → m.table j ≡ k.table j)
    → Shared n (fd + 1) i c m t
    → Shared (suc n) fd i c k t
Shared-suc n fd i c k m t e fs rs os s = record {
  files = λ j.
      let later = rw e at (s.files j) in
      let now = fs j in
      elim (Bool-cases (j == fd)) [
        | inl q ↦
            let a : (k.table i).ofile j ≡ (k.table i).ofile fd =
              ap (k.table i).ofile ((==_iff j fd).0 q) in
            ground arith
        | inr q ↦ ground arith
      ];
  refs = λ h. omega (arith, s.refs h, rs h, ap (λ p. uses n (fd + 1) p.ofile (suc h)) e);
  others = λ j ne. s.others j ne ∙ os j ne;
}

pub zero_or_suc : (v : ℕ) → (v ≡ 0) ⊎ ((h : ℕ) × (v ≡ suc h))
zero_or_suc zero = inl refl
zero_or_suc (suc h) = inr (h, refl)

module _ (i c : ℕ) (apart : i ≢ c) where
  -- Process `c` with handle `h` at descriptor `fd`.
  abbrev given : (fd h : ℕ) → Kernel → Kernel
  given fd h k =
      set_proc c (record (k.table c) { ofile = set_at (k.table c).ofile fd (suc h) }) (counted h k)

  -- Sharing the files of a process with another one: with the handles' lock free, no critical section and a
  -- reference for each open file, the call returns; the other process has each open descriptor of the first
  -- one and keeps its own where that is closed, each handle has one reference more for each descriptor
  -- that is it, and no other process changes.
  pub share_files_lem :
      (n fd : ℕ) (k : Kernel)
      → k.cpu.noff ≡ 0
      → k.handles_lock.locked ≡ false
      → IsOpen (k.table i).ofile k
      → (t : Kernel) × (share_files n fd i c k ≡ ok tt t) × Shared n fd i c k t
  unfolding share_files
  share_files_lem zero fd k d u o = (
    k,
    refl,
    record { files = λ j. ground arith; refs = λ h. omega arith; others = λ j ne. refl },
  )
  share_files_lem (suc n) fd k d u o = elim (zero_or_suc ((k.table i).ofile fd)) [
    | inl z ↦
        let (t, run, s) = share_files_lem n (fd + 1) k d u o in
        (
          t,
          rw z run,
          Shared-suc n fd i c k k t refl (λ j. ground arith) (λ h. ground arith) (λ j ne. refl) s,
        )
    | inr (h, v) ↦
        let m : Kernel = given fd h k in
        let e : m.table i ≡ k.table i = let x : (i == c) ≡ false = ground arith in rw x refl in
        let more : (j : ℕ) → (k.handles j).ref ≤ (m.handles j).ref = λ j. ground arith in
        let (t, run, s) = share_files_lem n (fd + 1) m refl refl (λ j g x.
          let y : (k.table i).ofile j ≡ suc g = ap (λ p. p.ofile j) (sym e) ∙ x in
          let z = o j g y in omega (arith, more g)) in
        let nz : (suc h == 0) ≡ false = ground arith in
        (
          t,
          rw (v, nz, vfsdup-ok k h d u (o fd h v)) run,
          Shared-suc n fd i c k m t e (λ j. rw (eq→== c c refl, v) (ground arith))
              (λ g. rw v (ground arith))
              (λ j ne. let x : (j == c) ≡ false = ground arith in rw x refl) s,
        )
  ]

-- With an unused entry in the table, the `n`-th from the second one on, fork() and clone() stop the kernel in
-- allocproc(), whatever the parent is: no process is ever made.
pub fork_stuck :
    (k : Kernel) (n fuel depth tramp entry : ℕ)
    → k.cpu.noff ≡ 0
    → k.kmem.lock.locked ≡ false
    → First k n 1
    → n < fuel
    → (fork fuel depth tramp entry true k ≡ panic Run.pop_off)
      × ((stack flags : ℕ) → clone fuel depth tramp entry true stack flags k ≡ panic Run.pop_off)
unfolding fork clone
fork_stuck k n fuel depth tramp entry d u f lt =
    let k1 : Kernel = record k { cpu = settled k.cpu } in
    let e =
      allocproc_stuck k1 n fuel depth tramp entry refl u
        (record { unlocked = f.unlocked; used = f.used; found = f.found }) lt in
    (rw (curproc-ok k d, e) refl, λ stack flags. rw (curproc-ok k d, e) refl)
