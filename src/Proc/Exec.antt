-- ===== src/Proc/Exec.antt =====
-- kern/proc/exec.cpp: loading a program. The headers of the file are read to addresses of the kernel stack,
-- and the strings of the arguments are at addresses of the kernel.
pub mod Refused
use page_fault_os_for_risc_v.Prelude.{
  ℕ, zero, suc, ◌+◌, ◌-◌, ◌*◌, ◌/◌, ◌%◌, ◌^◌, Bool, true, false, ◌&&◌, ◌||◌, not, Option, none,
  some, ltb, leb, ◌==◌, if◌then◌else◌,
}
use page_fault_os_for_risc_v.Prelude.Int.{ℤ, pos, negsuc}
use page_fault_os_for_risc_v.Kernel.{Kernel}
use page_fault_os_for_risc_v.Kernel.Run.{
  Cmd, Status, done, failed, out_of_fuel, pure, ◌>>=◌, ◌>>◌, modify, gets, abort, loadseg_align,
  loadseg_absent,
}
use page_fault_os_for_risc_v.Mm.Layout.{u64, page_size, page_round_down, max_uva, px}
use page_fault_os_for_risc_v.Mm.Bytes.{get_byte}
use page_fault_os_for_risc_v.Mm.Kalloc.{kalloc}
use page_fault_os_for_risc_v.Mm.Copy.{Source, at, copyout}
use page_fault_os_for_risc_v.Mm.PageTable.{load, store, walkaddr}
use page_fault_os_for_risc_v.Mm.Uvm.{uvm_alloc, move_bytes}
use page_fault_os_for_risc_v.Libs.CString.{strlen}
use page_fault_os_for_risc_v.Proc.{set_at, change_proc, get_proc, curproc, deref}
use page_fault_os_for_risc_v.Proc.Arguments.{Pushed, push_args, push_pointers}
use page_fault_os_for_risc_v.Proc.Exit.{widen}
use page_fault_os_for_risc_v.Fs.Vfs.{PathName, length}
use page_fault_os_for_risc_v.Fs.Vfs.Calls.{FileSystem, vfsdread}

-- MAXARG, ELF_MAGIC, ELF_PROG_LOAD, and the sizes of the two headers.
abbrev pub maxarg : ℕ
maxarg = 32

abbrev pub elf_magic : ℕ
elf_magic = 0x464c457f

abbrev pub elf_prog_load : ℕ
elf_prog_load = 1

abbrev pub elf_size : ℕ
elf_size = 64

abbrev pub prog_size : ℕ
prog_size = 56

-- The fields of a `struct elfhdr` that exec() reads.
pub record ElfHeader : Type 0 where
  pub magic : ℕ
  pub entry : ℕ
  pub phoff : ℕ
  pub phnum : ℕ

-- The fields of a `struct prohdr` that exec() reads.
pub record ProgHeader : Type 0 where
  pub kind : ℕ
  pub off : ℕ
  pub vaddr : ℕ
  pub filesz : ℕ
  pub memsz : ℕ

unfoldable pub load_elf : (a : ℕ) → Cmd Kernel ElfHeader
load_elf a = do
  m ← load a
  e ← load (a + 24)
  o ← load (a + 32)
  n ← load (a + 56)
  pure (record { magic = m % 2 ^ 32; entry = e; phoff = o; phnum = n % 2 ^ 16 })

unfoldable pub load_prog : (a : ℕ) → Cmd Kernel ProgHeader
load_prog a = do
  t ← load a
  o ← load (a + 8)
  v ← load (a + 16)
  f ← load (a + 32)
  m ← load (a + 40)
  pure (record { kind = t % 2 ^ 32; off = o; vaddr = v; filesz = f; memsz = m })

-- The size_t that vfsdread() returns is `n`.
abbrev pub is_count : ℕ → ℤ → Bool
is_count n (pos m) = m == n
is_count n (negsuc m) = false

-- The first program headers that exec() refuses.
abbrev pub is_bad : ProgHeader → Bool
is_bad h = ltb h.memsz h.filesz || ltb (u64 (h.vaddr + h.memsz)) h.vaddr

module _ (fs : FileSystem) where
  -- `i`, `offset` and `sz` are uints.
  unfoldable pub loadseg_loop : (fuel pt va : ℕ) → PathName → (offset sz i : ℕ) → Cmd Kernel Status
  loadseg_loop zero pt va path offset sz i = λ _. out_of_fuel
  loadseg_loop (suc fuel) pt va path offset sz i =
      let rest = loadseg_loop fuel pt va path offset sz ((i + page_size) % 2 ^ 32) in
      let n : ℕ = if ltb (sz - i) page_size then sz - i else page_size in
      if not (ltb i sz) then pure done else do
        pa ← walkaddr pt (u64 (va + i))
        if pa == 0 then abort loadseg_absent else do
          r ← vfsdread fs path pa n ((offset + i) % 2 ^ 32)
          if is_count n r then rest else pure failed

  -- One round for each page, and one for the last test.
  unfoldable pub loadseg : (pt va : ℕ) → PathName → (offset sz : ℕ) → Cmd Kernel Status
  unfolding loadseg_loop
  loadseg pt va path offset sz =
      if not (va % page_size == 0)
      then abort loadseg_align
      else loadseg_loop (sz / page_size + 2) pt va path offset sz 0

  -- A segment that is to be loaded, behind `sz` bytes of the program: `none` is the label `bad`.
  unfoldable pub load_segment :
      (pt kpt : ℕ) → PathName → ProgHeader → (sz : ℕ) → Cmd Kernel (Option ℕ)
  unfolding loadseg
  load_segment pt kpt path h sz = if is_bad h then pure none else do
    sz1 ← uvm_alloc pt kpt sz (u64 (h.vaddr + h.memsz))
    if sz1 == 0 || not (h.vaddr % page_size == 0) then pure none else do
      r ← loadseg pt h.vaddr path (h.off % 2 ^ 32) (h.filesz % 2 ^ 32)
      elim r [ failed ↦ pure none | done ↦ pure (some sz1) ]

  abbrev pub then_go : Cmd Kernel (Option ℕ) → (ℕ → Cmd Kernel (Option ℕ)) → Cmd Kernel (Option ℕ)
  then_go m f = do r ← m; elim r [ none ↦ pure none | some n ↦ f n ]

  -- `n` program headers from `off` on, an int; `ph` is the address of the local variable.
  unfoldable pub load_program : (n off pt kpt ph : ℕ) → PathName → (sz : ℕ) → Cmd Kernel (Option ℕ)
  unfolding load_segment
  load_program zero off pt kpt ph path sz = pure (some sz)
  load_program (suc n) off pt kpt ph path sz =
      let next = load_program n ((off + prog_size) % 2 ^ 32) pt kpt ph path in
      do
        r ← vfsdread fs path ph prog_size (widen off)
        if not (is_count prog_size r) then pure none else do
          h ← load_prog ph
          if h.kind == elf_prog_load then then_go (load_segment pt kpt path h sz) next else next sz

-- &path[i], behind the last '/' of the `n` characters from `i` on.
unfoldable pub last_part : (n i last : ℕ) → PathName → ℕ
last_part zero i last p = last
last_part (suc n) i last p =
    let rest = last_part n (i + 1) (if p i == b'/' then i + 1 else last) p in
    if p i == 0 then last else rest

-- safestrcpy(p->name, last, sizeof(p->name)): a second NUL follows that of a shorter name.
abbrev pub program_name : PathName → PathName → PathName
program_name path dst j =
    let s = last_part (length path) 0 0 path in
    let l : ℕ = let m = length path - s in if ltb m 15 then m else 15 in
    if ltb j l then path (s + j) else if j == l || (j == l + 1 && ltb l 15) then 0 else dst j

unfoldable pub clear_user_entries : (n i kpt : ℕ) → Cmd Kernel (Unit {0})
clear_user_entries zero i kpt = pure tt
clear_user_entries (suc n) i kpt = do store (kpt + 8 * i) 0; clear_user_entries n (i + 1) kpt

-- The switch of process `i` to the new image, after the arguments; w_satp() is a part of the argument
-- `set_satp`.
abbrev pub a1_of : ℕ → ℕ
a1_of tf = tf + 120

module _ (set_satp : (kpt : ℕ) → Cmd Kernel (Unit {0})) where
  unfoldable pub commit : (i pt kpt sz entry : ℕ) → PathName → Pushed → Cmd Kernel ℕ
  commit i pt kpt sz entry path u = do
    p ← get_proc i
    store (a1_of p.trapframe) u.sp
    change_proc i
        λ q. record q { name = program_name path q.name; pagetable = pt; kpagetable = kpt; sz = sz }
    store (p.trapframe + 24) entry
    store (p.trapframe + 48) u.sp
    set_satp kpt
    pure u.argc

  -- The page for the stack, the arguments and the switch.
  unfoldable pub enter : (i pt kpt sz entry : ℕ) → PathName → (argv : ℕ → ℕ) → Cmd Kernel (Option ℕ)
  unfolding commit push_args push_pointers
  enter i pt kpt sz entry path argv = do
    let base : ℕ = page_round_down sz
    sz1 ← uvm_alloc pt kpt base (u64 (base + page_size))
    if sz1 == 0 then pure none else do
      let stackbase : ℕ = u64 (sz1 + (2 ^ 64 - page_size))
      a ← push_args maxarg pt stackbase argv (record { argc = 0; sp = sz1; ustack = λ _. 0 })
      elim a [
        | none ↦ pure none
        | some u ↦ do
          b ← push_pointers pt stackbase u
          elim b [
            | none ↦ pure none
            | some v ↦ do r ← commit i pt kpt sz1 entry path v; pure (some r)
          ]
      ]

  module _ (fs : FileSystem) (elf ph : ℕ) where
    -- The file's header, its segments and the stack; the table of user pages is the null pointer.
    unfoldable pub load_image : (i kpt : ℕ) → PathName → (argv : ℕ → ℕ) → Cmd Kernel (Option ℕ)
    unfolding load_program enter
    load_image i kpt path argv = do
      r ← vfsdread fs path elf elf_size 0
      if not (is_count elf_size r) then pure none else do
        h ← load_elf elf
        if not (h.magic == elf_magic) then pure none else do
          n ← load_program fs h.phnum (h.phoff % 2 ^ 32) 0 kpt ph path 0
          g ← load_elf elf
          elim n [ none ↦ pure none | some sz ↦ enter i 0 kpt sz g.entry path argv ]

    -- On the label `bad` the result is 0, and the page of the kernel table is not given back.
    abbrev pub or_zero : Option ℕ → ℕ
    or_zero none = 0
    or_zero (some n) = n

    unfoldable pub exec : PathName → (argv : ℕ → ℕ) → Cmd Kernel ℕ
    unfolding load_image clear_user_entries
    exec path argv = do
      p ← curproc
      kpt ← kalloc
      if kpt == 0
          then pure 0
          else deref p λ i. do
            c ← get_proc i
            move_bytes kpt c.kpagetable page_size
            clear_user_entries (px 2 max_uva) 0 kpt
            r ← load_image i kpt path argv
            pure (or_zero r)
