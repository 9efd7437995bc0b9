-- ===== src/Proc/Wait/Laws.antt =====
-- wait() with and without children.
use page_fault_os_for_risc_v.Prelude.{
  ℕ, zero, suc, ◌+◌, ◌-◌, ◌≤◌, ◌<◌, ◌≡◌, ◌≢◌, ◌∙◌, refl, ap, Bool, true, false, none, some, arith,
  ◌==◌, eq→==, Bool-cases, inl, inr,
}
use page_fault_os_for_risc_v.Kernel.{Kernel}
use page_fault_os_for_risc_v.Kernel.Run
use page_fault_os_for_risc_v.Kernel.Run.{Cmd, ok, panic}
use page_fault_os_for_risc_v.Sync.Spinlock.Laws.{
  settled, taken, acquire-ok, release_nested, holding-taken,
}
use page_fault_os_for_risc_v.Proc.{nproc, proc_lock}
use page_fault_os_for_risc_v.Proc.Wakeup.{curproc-some}
use page_fault_os_for_risc_v.Proc.Sched.{is_zombie}
use page_fault_os_for_risc_v.Proc.Wait.{is_child, scanned, wait_from, wait_loop, wait}

-- None of the `n` entries from `j` on is a child of `i`.
abbrev pub Childless : Kernel → (i j n : ℕ) → Type 0
Childless k i j n = (l : ℕ) → l < n → is_child i (k.table (j + l)) ≡ false

wait_from-skip :
    (n m j depth i vaddr : ℕ) (b : Bool) (k : Kernel)
    → Childless k i j n
    → wait_from (n + m) j depth i vaddr b k ≡ wait_from m (j + n) depth i vaddr b k
unfolding wait_from
wait_from-skip zero m j depth i vaddr b k h =
    let e : 0 + m ≡ m = omega arith in let e' : j + 0 ≡ j = omega arith in rw (e, e') refl
wait_from-skip (suc n) m j depth i vaddr b k h =
    let e : suc n + m ≡ suc (n + m) = omega arith in
    let e' : j + suc n ≡ j + 1 + n = omega arith in
    let e0 : j + 0 ≡ j = omega arith in
    let skip : is_child i (k.table j) ≡ false = rw e0 at (h 0 (omega arith)) in
    let later : Childless k i (j + 1) n = λ l lt.
      let shift : j + suc l ≡ j + 1 + l = omega arith in rw shift at (h (suc l) (omega arith)) in
    rw (e, e', skip) (wait_from-skip n m (j + 1) depth i vaddr b k later)

wait_from-end :
    (j depth i vaddr : ℕ) (b : Bool) (k : Kernel)
    → wait_from 0 j depth i vaddr b k ≡ ok (scanned b) k
unfolding wait_from
wait_from-end j depth i vaddr b k = refl

-- Taking the lock of an entry does not change who is whose child.
is_child-taken :
    (k : Kernel) (i a l : ℕ) → is_child i ((taken (proc_lock a) k).table l) ≡ is_child i (k.table l)
is_child-taken k i a l = elim (Bool-cases (l == a)) [
  | inl e ↦ let e' : l ≡ a = ground arith in rw (e', eq→== a a refl) refl
  | inr ne ↦ rw ne refl
]

-- The first child, alive and with a free lock, stops a wait() that holds the lock of its process.
wait_from-stuck :
    (n j depth i vaddr : ℕ) (b : Bool) (t : Kernel)
    → is_child i (t.table j) ≡ true
    → is_zombie (t.table j).state ≡ false
    → (t.table j).lock.locked ≡ false
    → 1 ≤ t.cpu.noff
    → wait_from (suc n) j depth i vaddr b t ≡ panic Run.pop_off
unfolding wait_from
wait_from-stuck n j depth i vaddr b t child alive u d =
    let s : Kernel = taken (proc_lock j) t in
    let alive' : is_zombie (s.table j).state ≡ false = rw (eq→== j j refl) alive in
    rw child (
      rw (acquire-ok (proc_lock j) t u) (
        rw
          (
            alive',
            release_nested (proc_lock j) s (holding-taken (proc_lock j) t) refl (omega arith),
          )
          refl))

module _ (switch : Cmd Kernel (Unit {0})) (k : Kernel) (i : ℕ) (d : k.cpu.noff ≡ 0)
    (c : k.current ≡ some i) (u : (k.table i).lock.locked ≡ false) where
  abbrev inside : Kernel
  inside = taken (proc_lock i) (record k { cpu = settled k.cpu })

  enter :
      (fuel depth vaddr : ℕ)
      → wait switch fuel depth vaddr k ≡ wait_loop switch fuel depth i vaddr inside
  unfolding wait
  enter fuel depth vaddr =
      rw (curproc-some k i d c)
        (rw (acquire-ok (proc_lock i) (record k { cpu = settled k.cpu }) u) refl)

  -- Without a child wait() returns -1, and keeps the lock of the calling process.
  pub wait_no_child :
      (fuel depth vaddr : ℕ)
      → Childless k i 0 nproc
      → wait switch (suc fuel) depth vaddr k
        ≡ ok none (taken (proc_lock i) (record k { cpu = settled k.cpu }))
  unfolding wait_loop
  wait_no_child fuel depth vaddr h =
      let h' : Childless inside i 0 nproc =
        λ l lt. is_child-taken (record k { cpu = settled k.cpu }) i i (0 + l) ∙ h l lt in
      enter (suc fuel) depth vaddr
      ∙ (let x = wait_from-skip nproc 0 0 depth i vaddr false inside h' in
          rw (x, wait_from-end (0 + nproc) depth i vaddr false inside) refl)

  -- If the first child in the table is alive, wait() stops the kernel when it gives that child's lock back.
  pub wait_stuck :
      (fuel depth vaddr j : ℕ)
      → j < nproc
      → Childless k i 0 j
      → is_child i (k.table j) ≡ true
      → is_zombie (k.table j).state ≡ false
      → j ≢ i
      → (k.table j).lock.locked ≡ false
      → wait switch (suc fuel) depth vaddr k ≡ panic Run.pop_off
  unfolding wait_loop
  wait_stuck fuel depth vaddr j lt h child alive ne u' =
      let other : (j == i) ≡ false = ground arith in
      let rounds : nproc ≡ j + suc (nproc - j - 1) = omega arith in
      let h' : Childless inside i 0 j =
        λ l lt. is_child-taken (record k { cpu = settled k.cpu }) i i (0 + l) ∙ h l lt in
      let e : 0 + j ≡ j = omega arith in
      let stuck =
        wait_from-stuck (nproc - j - 1) j depth i vaddr false inside
          (is_child-taken (record k { cpu = settled k.cpu }) i i j ∙ child) (rw other alive)
          (rw other u') (omega arith) in
      let run : wait_from nproc 0 depth i vaddr false inside ≡ panic Run.pop_off =
        ap (λ n. wait_from n 0 depth i vaddr false inside) rounds
        ∙ wait_from-skip j (suc (nproc - j - 1)) 0 depth i vaddr false inside h'
        ∙ rw e stuck in
      enter (suc fuel) depth vaddr ∙ rw run refl
