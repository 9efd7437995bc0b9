-- ===== src/Proc/Wait.antt =====
-- kern/proc/proc.cpp: waiting for children, growing a process, and its times. `switch` is pswitch(),
-- `depth` bounds freewalk(), and the result `none` is -1.
pub mod Laws
use page_fault_os_for_risc_v.Prelude.{
  ℕ, zero, suc, ◌+◌, ◌-◌, ◌*◌, ◌/◌, ◌%◌, ◌^◌, Bool, true, false, not, ◌&&◌, Option, none, some, ltb,
  leb, ◌==◌, if◌then◌else◌,
}
use page_fault_os_for_risc_v.Kernel.{ProcState, Chan, on_proc, Proc, Kernel}
use page_fault_os_for_risc_v.Kernel.Run.{
  Cmd, Status, done, failed, out_of_fuel, pure, ◌>>=◌, ◌>>◌, modify, gets,
}
use page_fault_os_for_risc_v.Sync.Spinlock.{acquire, release}
use page_fault_os_for_risc_v.Mm.Layout.{u64}
use page_fault_os_for_risc_v.Mm.Copy.{Source, copyout}
use page_fault_os_for_risc_v.Mm.Uvm.{uvm_alloc, uvm_dealloc}
use page_fault_os_for_risc_v.Proc.{nproc, change_proc, get_proc, proc_lock, curproc, deref}
use page_fault_os_for_risc_v.Proc.Alloc.{freeproc}
use page_fault_os_for_risc_v.Proc.Sched.{is_zombie, sleep}

abbrev pub is_child : (i : ℕ) → Proc → Bool
is_child i c = elim c.parent [ none ↦ false | some j ↦ j == i ]

-- The four bytes of child->xstate.
abbrev pub xstate_of : ℕ → Source
xstate_of j n k = (k.table j).xstate / 256 ^ n % 256

-- What one pass of wait() over the table comes to: the function returns, or goes on with what it knows of
-- children.
pub data Scan : Type 0 where
  returns : Option ℕ → Scan
  scanned : (have_child : Bool) → Scan

-- The zombie `j` of the process `i`: both locks are given back on either way out.
unfoldable pub reap : (depth i j vaddr pid : ℕ) → Cmd Kernel (Option ℕ)
reap depth i j vaddr pid = do
  p ← get_proc i
  r ← if vaddr == 0 then pure done else copyout p.pagetable vaddr (xstate_of j) 4
  elim r [
    | failed ↦ do release (proc_lock j); release (proc_lock i); pure none
    | done ↦ do freeproc depth j; release (proc_lock j); release (proc_lock i); pure (some pid)
  ]

unfoldable pub wait_from : (n j depth i vaddr : ℕ) → Bool → Cmd Kernel Scan
wait_from zero j depth i vaddr have_child = pure (scanned have_child)
wait_from (suc n) j depth i vaddr have_child =
    let next = wait_from n (j + 1) depth i vaddr in
    do
      c ← get_proc j
      if not (is_child i c) then next have_child else do
        acquire (proc_lock j)
        c ← get_proc j
        if is_zombie c.state
            then (do r ← reap depth i j vaddr c.pid; pure (returns r))
            else (do release (proc_lock j); next true)

module _ (switch : Cmd Kernel (Unit {0})) where
  unfoldable pub wait_loop : (fuel depth i vaddr : ℕ) → Cmd Kernel (Option ℕ)
  wait_loop zero depth i vaddr = λ _. out_of_fuel
  wait_loop (suc fuel) depth i vaddr =
      let rest = wait_loop fuel depth i vaddr in
      do
        s ← wait_from nproc 0 depth i vaddr false
        elim s [
          | returns r ↦ pure r
          | scanned have_child ↦ if not have_child then pure none else do
            q ← curproc
            deref q λ j. do sleep switch (on_proc i) (proc_lock j) (j == i); rest
        ]

  unfoldable pub wait : (fuel depth vaddr : ℕ) → Cmd Kernel (Option ℕ)
  wait fuel depth vaddr = do
    p ← curproc
    deref p λ i. do acquire (proc_lock i); wait_loop fuel depth i vaddr

  -- The exit status is shifted again in every round.
  unfoldable pub wait4_loop : (fuel depth i j vaddr : ℕ) → Cmd Kernel (Option ℕ)
  wait4_loop zero depth i j vaddr = λ _. out_of_fuel
  wait4_loop (suc fuel) depth i j vaddr =
      let rest = wait4_loop fuel depth i j vaddr in
      do
        acquire (proc_lock j)
        change_proc j (λ c. record c { xstate = c.xstate * 256 % 2 ^ 32 })
        c ← get_proc j
        if is_zombie c.state then reap depth i j vaddr j else do
          release (proc_lock j)
          q ← curproc
          deref q λ l. do sleep switch (on_proc i) (proc_lock l) (l == i); rest

  -- For a `pid` that is not negative.
  unfoldable pub wait4 : (fuel depth pid vaddr : ℕ) → Cmd Kernel (Option ℕ)
  wait4 fuel depth pid vaddr = if leb nproc pid then pure none else do
    p ← curproc
    deref p λ i. do
      acquire (proc_lock pid)
      c ← get_proc pid
      if not (is_child i c)
          then (do release (proc_lock pid); pure none)
          else do release (proc_lock pid); acquire (proc_lock i); wait4_loop fuel depth i pid vaddr

-- `int n`: the sign, and how much; `uint sz` keeps 32 bits.
unfoldable pub growproc : (shrink : Bool) → (n : ℕ) → Cmd Kernel Status
growproc shrink n = do
  p ← curproc
  deref p λ i. do
    c ← get_proc i
    let sz : ℕ = c.sz % 2 ^ 32
    if n == 0
        then set_size i sz
        else if shrink
        then (do
          r ← uvm_dealloc c.pagetable c.kpagetable sz ((sz + 2 ^ 32 - n) % 2 ^ 32)
          set_size i (r % 2 ^ 32))
        else (do
          r ← uvm_alloc c.pagetable c.kpagetable sz ((sz + n) % 2 ^ 32)
          if r % 2 ^ 32 == 0 then pure failed else set_size i (r % 2 ^ 32))
  where
    set_size : ℕ → ℕ → Cmd Kernel Status
    set_size i sz = do change_proc i (λ p. record p { sz = sz }); pure done

-- `struct tms`
pub record Tms : Type 0 where
  pub utime : ℕ
  pub stime : ℕ
  pub cutime : ℕ
  pub cstime : ℕ

unfoldable pub times_from : (n j i : ℕ) → Tms → Cmd Kernel Tms
times_from zero j i tm = pure tm
times_from (suc n) j i tm = do
  acquire (proc_lock j)
  c ← get_proc j
  release (proc_lock j)
  times_from n (j + 1) i (
      if is_child i c
      then record tm { cutime = tm.cutime + c.uticks; cstime = tm.cstime + c.mticks }
      else tm)

unfoldable pub proc_times : Cmd Kernel Tms
proc_times = do
  p ← curproc
  deref p λ i. do
    c ← get_proc i
    times_from nproc 0 i (record { utime = c.uticks; stime = c.mticks; cutime = 0; cstime = 0 })
