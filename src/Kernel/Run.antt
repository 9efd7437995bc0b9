-- ===== src/Kernel/Run.antt =====
-- The outcome of running kernel code: it returns, it stops in panic(), it spins on a lock that
-- another hart holds, or the rounds that the model gives to a loop run out.
use page_fault_os_for_risc_v.Prelude.{◌≡◌, ◌≢◌, refl}

-- One constructor for each message of panic() that the modelled code uses. A read through a null pointer
-- ends in the panic of the trap handler.
pub data Panic : Type 0 where
  acquire_held : Panic
  release_not_held : Panic
  pop_off_interruptible : Panic
  pop_off : Panic
  kfree_invalid : Panic
  walk_bounds : Panic
  kernel_address : Panic
  invalid_entry : Panic
  remap : Panic
  kvm_map : Panic
  unmap_unaligned : Panic
  unmap_walk : Panic
  unmap_invalid : Panic
  unmap_not_leaf : Panic
  init_user_vm : Panic
  freewalk_leaf : Panic
  uvmcopy_entry : Panic
  uvmcopy_absent : Panic
  uvmclear : Panic
  sched_lock : Panic
  sched_locks : Panic
  sched_running : Panic
  sched_interruptible : Panic
  regist_file : Panic
  exit : Panic
  alloc_buf : Panic
  create_file_system : Panic
  alloc_file : Panic
  vfsread : Panic
  vfswrite : Panic
  mount_file_system : Panic
  vfsdup : Panic
  filerewind : Panic
  argraw_register : Panic
  fetchaddr_invalid : Panic
  fetchaddr_fetch : Panic
  fetchstr_invalid : Panic
  fetchstr_fetch : Panic
  syscall_error : Panic
  user_trap_mode : Panic
  kernel_trap_mode : Panic
  kernel_trap_enabled : Panic
  kernel_trap : Panic
  loadseg_align : Panic
  loadseg_absent : Panic
  unknown_device : Panic
  null_pointer : Panic

-- What the C functions return as 0 and -1.
pub data Status : Type 0 where
  done : Status
  failed : Status

pub data Run {ℓ κ} (S : Type ℓ) (A : Type κ) : Type (ℓ ⊔ κ) where
  ok : A → S → Run S A
  panic : Panic → Run S A
  spins : Run S A
  out_of_fuel : Run S A

abbrev pub Cmd : Type 0 → Type 0 → Type 0
Cmd S A = S → Run S A

module _ {S : Type 0} where
  abbrev pub pure : {A : Type 0} → A → Cmd S A
  pure a = ok a

  abbrev pub and_then : {A B : Type 0} → Run S A → (A → Cmd S B) → Run S B
  and_then (ok a s) k = k a s
  and_then (panic p) k = panic p
  and_then spins k = spins
  and_then out_of_fuel k = out_of_fuel

  infixl 5 ◌>>=◌ ◌>>◌
  abbrev pub ◌>>=◌ : {A B : Type 0} → Cmd S A → (A → Cmd S B) → Cmd S B
  m >>= k = λ s. and_then (m s) k

  abbrev pub ◌>>◌ : {A B : Type 0} → Cmd S A → Cmd S B → Cmd S B
  m >> n = m >>= λ _. n

  abbrev pub modify : (S → S) → Cmd S (Unit {0})
  modify f s = ok tt (f s)

  abbrev pub gets : {A : Type 0} → (S → A) → Cmd S A
  gets f s = ok (f s) s

  abbrev pub abort : {A : Type 0} → Panic → Cmd S A
  abort p s = panic p

  -- Inversion of a chain that returns.
  pub >>=-eq-ok :
      {A B : Type 0} (m : Run S A) (k : A → Cmd S B) {b : B} {t : S}
      → and_then m k ≡ ok b t
      → (a : A) × (s : S) × (m ≡ ok a s) × (k a s ≡ ok b t)
  >>=-eq-ok (ok a s) k h = (a, s, refl, h)
  >>=-eq-ok (panic p) k h = cc
  >>=-eq-ok spins k h = cc
  >>=-eq-ok out_of_fuel k h = cc

  -- A chain of code that does not run out of fuel does not either.
  pub >>=-ends :
      {A B : Type 0} (m : Run S A) (k : A → Cmd S B)
      → m ≢ out_of_fuel
      → ((a : A) (s : S) → k a s ≢ out_of_fuel)
      → and_then m k ≢ out_of_fuel
  >>=-ends (ok a s) k h h' = h' a s
  >>=-ends (panic p) k h h' = λ e. cc
  >>=-ends spins k h h' = λ e. cc
  >>=-ends out_of_fuel k h h' = λ e. h refl

  -- A chain that returns ends with its last command.
  pub >>=-yields :
      {A B : Type 0} (P : B → Type 0) (m : Run S A) (k : A → Cmd S B)
      → ((a : A) (s : S) → m ≡ ok a s → (b : B) (t : S) → k a s ≡ ok b t → P b)
      → (b : B) (t : S) → and_then m k ≡ ok b t
      → P b
  >>=-yields P (ok a s) k h b t e = h a s refl b t e
  >>=-yields P (panic p) k h b t e = cc
  >>=-yields P spins k h b t e = cc
  >>=-yields P out_of_fuel k h b t e = cc
