-- ===== src/Syscall/Execve.antt =====
-- kern/syscall/syscallproc.cpp: sys_execve(). The path and the word that is fetched are at addresses of the
-- kernel stack; the array `argv` is a function, whose value at MAXARG is what stands behind the array.
use page_fault_os_for_risc_v.Prelude.{ℕ, zero, suc, ◌+◌, ◌*◌, ◌||◌, ltb, ◌==◌, if◌then◌else◌}
use page_fault_os_for_risc_v.Kernel.{Kernel}
use page_fault_os_for_risc_v.Kernel.Run.{Cmd, Status, done, failed, pure, ◌>>=◌, ◌>>◌}
use page_fault_os_for_risc_v.Mm.Layout.{u64, page_size}
use page_fault_os_for_risc_v.Mm.Kalloc.{kalloc, kfree}
use page_fault_os_for_risc_v.Mm.PageTable.{load, store}
use page_fault_os_for_risc_v.Proc.{maxpath, set_at}
use page_fault_os_for_risc_v.Proc.Exec.{maxarg, exec}
use page_fault_os_for_risc_v.Fs.Vfs.{length}
use page_fault_os_for_risc_v.Fs.Vfs.Calls.{FileSystem}
use page_fault_os_for_risc_v.Syscall.{argaddr, fetchaddr, fetchstr}
use page_fault_os_for_risc_v.Syscall.Words.{minus_one, with_text, text}

-- The arguments that were taken, and whether all of them were.
pub record Taken : Type 0 where
  pub status : Status
  pub argv : ℕ → ℕ

abbrev pub taken : Status → (ℕ → ℕ) → Cmd Kernel Taken
taken r argv = pure (record { status = r; argv = argv })

-- The word at `uargv`, in the variable at `uarg`.
abbrev pub next_arg : (uargv i uarg : ℕ) → Cmd Kernel Status
next_arg uargv i uarg = if uargv == 0 then pure done else fetchaddr (u64 (uargv + 8 * i)) uarg

unfoldable pub take_args : (n i uargv uarg : ℕ) → (ℕ → ℕ) → Cmd Kernel Taken
take_args zero i uargv uarg argv = taken failed argv
take_args (suc n) i uargv uarg argv =
    let next = take_args n (i + 1) uargv uarg in
    do
      r ← next_arg uargv i uarg
      elim r [
        | failed ↦ taken failed argv
        | done ↦ do
          s ← load uarg
          if s == 0 || uargv == 0 then taken done (set_at argv i 0) else do
            page ← kalloc
            if page == 0 then taken failed (set_at argv i 0) else do
              t ← fetchstr s page page_size
              elim t [
                | failed ↦ taken failed (set_at argv i page)
                | done ↦ next (set_at argv i page)
              ]
      ]

-- The pages of the arguments from `i` on, up to the first null pointer.
unfoldable pub free_args : (n i : ℕ) → (ℕ → ℕ) → Cmd Kernel (Unit {0})
free_args zero i argv = pure tt
free_args (suc n) i argv =
    let rest = free_args n (i + 1) argv in if argv i == 0 then pure tt else do kfree (argv i); rest

-- memset(argv, 0, sizeof(argv)), the word behind the array being `behind`.
abbrev pub no_args : (behind : ℕ) → ℕ → ℕ
no_args behind i = if ltb i maxarg then 0 else behind

-- `cal_ab_path` is vfscalAbPath(), which the source declares and does not define.
module _ (cal_ab_path : (path : ℕ) → Cmd Kernel (Unit {0}))
    (set_satp : (kpt : ℕ) → Cmd Kernel (Unit {0})) (fs : FileSystem) where
  unfoldable pub run_program : (path elf ph : ℕ) → Taken → Cmd Kernel ℕ
  run_program path elf ph a = elim a.status [
    | failed ↦ do free_args (maxarg + 1) 0 a.argv; pure minus_one
    | done ↦ do
      cal_ab_path path
      name ← text path
      r ← exec set_satp fs elf ph name a.argv
      free_args (maxarg + 1) 0 a.argv
      pure r
  ]

  unfoldable pub sys_execve : (path uarg elf ph behind : ℕ) → Cmd Kernel ℕ
  unfolding take_args run_program
  sys_execve path uarg elf ph behind = do
    store uarg 0
    with_text 0 path maxpath λ name. do
      uargv ← argaddr 1
      if length name == 0 then pure minus_one else do
        a ← take_args (maxarg + 1) 0 uargv uarg (no_args behind)
        run_program path elf ph a
