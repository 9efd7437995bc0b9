-- ===== src/Proc/Exit/Laws.antt =====
-- exit() does not return.
use page_fault_os_for_risc_v.Prelude.{ℕ, ◌≢◌, refl, Option, some, none}
use page_fault_os_for_risc_v.Kernel.{Kernel}
use page_fault_os_for_risc_v.Kernel.Run.{Cmd, Run, ok, panic, spins, out_of_fuel, and_then}
use page_fault_os_for_risc_v.Proc.{nommapfile, curproc, deref, proc_lock, wakeup}
use page_fault_os_for_risc_v.Sync.Spinlock.{acquire}
use page_fault_os_for_risc_v.Proc.Exit.{drop_regions, exit}
use page_fault_os_for_risc_v.Proc.Sched.{prepare_sched}
use page_fault_os_for_risc_v.Fs.Vfs.Calls.{FileSystem}

-- The command has no result.
abbrev pub Endless : {A : Type 0} → Cmd Kernel A → Type 0
Endless {A} m = (s : Kernel) (a : A) (t : Kernel) → m s ≢ ok a t

Endless-then :
    {A B : Type 0} (m : Run Kernel A) (n : A → Cmd Kernel B)
    → ((a : A) → Endless (n a))
    → (b : B) (t : Kernel) → and_then m n ≢ ok b t
Endless-then (ok a s) n h b t = h a s b t
Endless-then (panic p) n h b t = λ e. cc
Endless-then spins n h b t = λ e. cc
Endless-then out_of_fuel n h b t = λ e. cc

-- Nor has a chain whose first command has none.
pub Endless-first :
    {A B : Type 0} (m : Run Kernel A) (n : A → Cmd Kernel B)
    → ((a : A) (s : Kernel) → m ≢ ok a s)
    → (b : B) (t : Kernel) → and_then m n ≢ ok b t
Endless-first (ok a s) n h b t = λ e. h a s refl
Endless-first (panic p) n h b t = λ e. cc
Endless-first spins n h b t = λ e. cc
Endless-first out_of_fuel n h b t = λ e. cc

Endless-deref :
    {A : Type 0} (q : Option ℕ) (f : ℕ → Cmd Kernel A)
    → ((i : ℕ) → Endless (f i))
    → Endless (deref q f)
Endless-deref none f h s a t = λ e. cc
Endless-deref (some i) f h s a t = h i s a t

-- exit() does not come back to its caller, in any state of the kernel and for any status.
pub exit-Endless :
    (fs : FileSystem) (switch : Cmd Kernel (Unit {0})) (fuel status : ℕ)
    → Endless (exit fs switch fuel status)
unfolding exit
exit-Endless fs switch fuel status s b t =
    Endless-then (curproc s) _
      (λ q. Endless-deref q _ λ i s1.
        Endless-then (drop_regions fs switch fuel nommapfile 0 i _) _ λ _ s2 b2 t2.
          Endless-then (wakeup _ _) _
            (λ _ s3.
              Endless-then (acquire (proc_lock i) s3) _
                (λ _ s4. Endless-then (prepare_sched switch s4) _ (λ _ s5 b5 t5 e. cc)))
            b2 t2)
      b t
