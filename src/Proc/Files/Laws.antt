-- ===== src/Proc/Files/Laws.antt =====
-- Descriptors and mapped regions: which one is handed out.
use page_fault_os_for_risc_v.Prelude.{
  from_here, ℕ, zero, suc, ◌+◌, ◌≤◌, ◌<◌, ◌≡◌, ◌≢◌, ◌⊎◌, ◌∙◌, refl, ap, true, false, none, some,
  arith, ◌==◌, ltb, eq→==, Bool-cases, inl, inr,
}
use page_fault_os_for_risc_v.Kernel.{Proc, Kernel}
use page_fault_os_for_risc_v.Kernel.Run
use page_fault_os_for_risc_v.Kernel.Run.{ok, panic, pure, ◌>>◌}
use page_fault_os_for_risc_v.Sync.Spinlock.{free_lock, holding, release}
use page_fault_os_for_risc_v.Sync.Spinlock.Laws.{settled, taken, acquire-ok, release-ok}
use page_fault_os_for_risc_v.Proc.{nofile, set_at, set_proc, proc_lock}
use page_fault_os_for_risc_v.Proc.Wakeup.{curproc-some, curproc_nested}
use page_fault_os_for_risc_v.Proc.Files.{
  set_file, regist_from, regist_file_handle, get_file_by_fd, Vma, nvma, alloc_vma_from, alloc_vma,
}

-- Any descriptor up to NOFILE, that number included: getFileByFd() stops the kernel, since it calls
-- curproc() under the process's lock.
pub get_file_by_fd_stuck :
    (k : Kernel) (i fd : ℕ)
    → fd ≤ nofile
    → k.cpu.noff ≡ 0
    → k.current ≡ some i
    → (k.table i).lock.locked ≡ false
    → get_file_by_fd (some fd) k ≡ panic Run.pop_off
unfolding get_file_by_fd
get_file_by_fd_stuck k i fd small d c u =
    let k1 : Kernel = record k { cpu = settled k.cpu } in
    let t : Kernel = taken (proc_lock i) k1 in
    let le : ltb nofile fd ≡ false = ground arith in
    rw le (
      rw (curproc-some k i d c)
        (rw (acquire-ok (proc_lock i) k1 u, curproc_nested t (omega arith)) refl))

-- All descriptors of the process from `fd` to `fd + n` are taken.
abbrev pub Taken : Proc → (n fd : ℕ) → Type 0
Taken p n fd = (j : ℕ) → j < n → p.ofile (fd + j) ≢ 0

regist_from-first :
    (n fd i fp g : ℕ) (k : Kernel)
    → g < n
    → Taken (k.table i) g fd
    → (k.table i).ofile (fd + g) ≡ 0
    → regist_from n fd i fp k
      ≡ (do set_file i (fd + g) fp; release (proc_lock i); pure (some (fd + g))) k
unfolding regist_from
regist_from-first zero fd i fp g k lt full free = absurd (omega arith)
regist_from-first (suc n) fd i fp zero k lt full free =
    let e : fd + 0 ≡ fd = omega arith in
    let z : ((k.table i).ofile fd == 0) ≡ true = let f = rw e at free in ground arith in
    rw (e, z) refl
regist_from-first (suc n) fd i fp (suc g) k lt full free =
    let e : fd + 0 ≡ fd = omega arith in
    let ne : (k.table i).ofile fd ≢ 0 = rw e at (full 0 (omega arith)) in
    let nz : ((k.table i).ofile fd == 0) ≡ false = ground arith in
    let shift : (j : ℕ) → fd + suc j ≡ fd + 1 + j = λ j. omega arith in
    rw (nz, shift g)
      (regist_from-first n (fd + 1) i fp g k (omega arith)
        (λ j l z. full (suc j) (omega arith) (ap (k.table i).ofile (shift j) ∙ z))
        (rw (shift g) at free))

-- The process with `fp` as the open file `fd`, and its lock free.
abbrev pub with_file : ℕ → ℕ → Proc → Proc
with_file fd fp p = record p { lock = free_lock; ofile = set_at p.ofile fd fp }

-- registFileHandle() without a wish gives the lowest free descriptor, stores the file there and nowhere
-- else, and gives the lock back; the handles are as before.
pub regist_file_handle_lowest :
    (k : Kernel) (i g fp : ℕ)
    → g < nofile
    → Taken (k.table i) g 0
    → (k.table i).ofile g ≡ 0
    → k.cpu.noff ≡ 0
    → k.current ≡ some i
    → (k.table i).lock.locked ≡ false
    → (k' : Kernel) × (regist_file_handle fp none k ≡ ok (some g) k')
      × (k'.table i ≡ with_file g fp (k.table i))
      × ((j : ℕ) → j ≢ i → k'.table j ≡ k.table j)
      × (k'.handles ≡ k.handles)
unfolding regist_file_handle
regist_file_handle_lowest k i g fp lt full free d c u =
    let k1 : Kernel = record k { cpu = settled k.cpu } in
    let t : Kernel = taken (proc_lock i) k1 in
    let s : Kernel = set_proc i (record (t.table i) { ofile = set_at (t.table i).ofile g fp }) t in
    let k' : Kernel = record ((proc_lock i).put free_lock s) {
      cpu = record s.cpu { noff = 0; intr = false };
    } in
    let here : (i == i) ≡ true = eq→== i i refl in
    let held : holding ((proc_lock i).get s) s.hart ≡ true =
      rw (here, eq→== k.hart k.hart refl) refl in
    let zero_g : 0 + g ≡ g = omega arith in
    let full' : Taken (t.table i) g 0 = rw here full in
    let free' : (t.table i).ofile (0 + g) ≡ 0 = rw (here, zero_g) free in
    let first = regist_from-first nofile 0 i fp g t lt full' free' in
    let last : release (proc_lock i) s ≡ ok tt k' =
      release-ok (proc_lock i) s held refl (omega arith) in
    (
      k',
      rw (curproc-some k i d c) (rw (acquire-ok (proc_lock i) k1 u, first, zero_g) (rw last refl)),
      rw here refl,
      λ j ne. let other : (j == i) ≡ false = ground arith in rw other refl,
      refl,
    )

-- The search from `i` on finds the first free region.
alloc_vma_from-first :
    (n i : ℕ) (t : ℕ → Vma)
    → ((g : ℕ) × (alloc_vma_from n i t ≡ some g)
        × (g < i + n)
        × ((t g).f ≡ 0)
        × ((j : ℕ) → i ≤ j → j < g → (t j).f ≢ 0))
      ⊎ ((alloc_vma_from n i t ≡ none) × ((j : ℕ) → i ≤ j → j < i + n → (t j).f ≢ 0))
unfolding alloc_vma_from
alloc_vma_from-first zero i t = inr (refl, λ j lo hi. absurd (omega arith))
alloc_vma_from-first (suc n) i t = elim (Bool-cases ((t i).f == 0)) [
  | inl z ↦ inl (i, rw z refl, omega arith, ground arith, λ j lo hi. absurd (omega arith))
  | inr nz ↦
      let ne : (t i).f ≢ 0 = ground arith in
      let from = λ (b : ℕ). from_here (λ (j : ℕ). (t j).f ≢ 0) i b ne in
      elim (alloc_vma_from-first n (i + 1) t) [
        | inl (g, e, lt, f, before) ↦ inl (g, rw nz e, omega arith, f, from g before)
        | inr (e, before) ↦ inr (rw nz e, from (i + suc n) (λ j lo hi. before j lo (omega arith)))
      ]
]

-- The first region with a null `f` is handed out, and the null pointer if there is none.
pub alloc_vma_first :
    (t : ℕ → Vma)
    → ((i : ℕ) × (alloc_vma t ≡ some i)
        × (i < nvma)
        × ((t i).f ≡ 0)
        × ((j : ℕ) → j < i → (t j).f ≢ 0))
      ⊎ ((alloc_vma t ≡ none) × ((j : ℕ) → j < nvma → (t j).f ≢ 0))
unfolding alloc_vma
alloc_vma_first t = elim (alloc_vma_from-first nvma 0 t) [
  | inl (g, e, lt, f, before) ↦ inl (g, e, lt, f, λ j. before j (omega arith))
  | inr (e, before) ↦ inr (e, λ j. before j (omega arith))
]
