-- ===== src/Proc/Exec/Refused.antt =====
-- exec() of a file that is no program.
use page_fault_os_for_risc_v.Prelude.{
  ℕ, ◌+◌, ◌*◌, ◌%◌, ◌^◌, ◌≡◌, ◌≢◌, ◌≤◌, ◌⊎◌, inl, inr, refl, List, ◌∷◌, some, true, false, ◌==◌,
  arith,
}
use page_fault_os_for_risc_v.Prelude.Int.{ℤ}
use page_fault_os_for_risc_v.Kernel.{write_word, Kernel, Memory}
use page_fault_os_for_risc_v.Kernel.Run.{Cmd, ok}
use page_fault_os_for_risc_v.Mm.Layout.{u64, page_size}
use page_fault_os_for_risc_v.Mm.Bytes.{get_byte, put_bytes}
use page_fault_os_for_risc_v.Mm.Uvm.{move_bytes}
use page_fault_os_for_risc_v.Mm.Kalloc.Chain.{has, ◌∉◌, Chain, Chain-frame, Chain-write_word}
use page_fault_os_for_risc_v.Mm.Kalloc.Laws.{IsFree, given, kalloc-IsFree}
use page_fault_os_for_risc_v.Sync.Spinlock.Laws.{settled}
use page_fault_os_for_risc_v.Proc.Wakeup.{curproc-some}
use page_fault_os_for_risc_v.Fs.Vfs.{PathName}
use page_fault_os_for_risc_v.Fs.Vfs.Calls.{FileSystem, vfsdread}
use page_fault_os_for_risc_v.Proc.Exec.{
  elf_size, elf_magic, is_count, load_elf, clear_user_entries, load_image, exec,
}

-- Writing the whole of a page spares the first word of every other page.
put_bytes-other :
    (m : Memory) (p a : ℕ) (f : ℕ → ℕ)
    → p % page_size ≡ 0
    → a % page_size ≡ 0
    → a ≢ p
    → put_bytes m p page_size f a ≡ m a
unfolding put_bytes
put_bytes-other m p a f h i ne = ground arith

Chain-put_bytes :
    (e : ℕ) (m : Memory) (p q : ℕ) (f : ℕ → ℕ) (ps : List ℕ)
    → p % page_size ≡ 0
    → p ∉ ps
    → Chain e m q ps
    → Chain e (put_bytes m p page_size f) q ps
Chain-put_bytes e m p q f ps h out =
    Chain-frame e m (put_bytes m p page_size f) q ps
      λ a i h'. put_bytes-other m p a f h i.aligned (λ eq. cc)

-- A word that is not the first one of a page.
Chain-write_inside :
    (e : ℕ) (m : Memory) (a v p : ℕ) (ps : List ℕ)
    → a % page_size ≢ 0
    → Chain e m p ps
    → Chain e (write_word m a v) p ps
unfolding write_word
Chain-write_inside e m a v p ps off =
    Chain-frame e m (write_word m a v) p ps λ b i h. let al = i.aligned in ground arith

module _ (k : Kernel) (i p : ℕ) (ps : List ℕ) (f : IsFree k (p ∷ ps)) (c : k.current ≡ some i) where
  abbrev looked : Kernel
  looked = record k { cpu = settled k.cpu }

  looked-IsFree : IsFree looked (p ∷ ps)
  looked-IsFree = record { chain = f.chain; count = f.count; unlocked = f.unlocked; depth = refl }

  -- The page with the copy of the kernel's table.
  abbrev copied : Kernel
  copied = record (given p looked) {
    mem =
        put_bytes (given p looked).mem p page_size
          (λ j. get_byte (given p looked).mem ((k.table i).kpagetable + j));
  }

  abbrev pub cleared : Kernel
  cleared = record copied {
    mem = write_word (write_word copied.mem (p + 8 * 0) 0) (p + 8 * (0 + 1)) 0;
  }

  -- What the file system starts from: the page is not free any more.
  cleared-IsFree : IsFree cleared ps
  cleared-IsFree =
      let g = (kalloc-IsFree looked p ps looked-IsFree).1 in
      let page = f.chain.1 in
      let first : p + 8 * 0 ≡ p = omega arith in
      record {
        chain = Chain-write_inside _ _ (p + 8 * (0 + 1)) 0 _ ps (omega (arith, page.aligned)) (
            Chain-write_word _ _ (p + 8 * 0) 0 _ ps (rw first f.chain.2)
              (Chain-put_bytes _ _ p _ _ ps page.aligned f.chain.2 g.chain));
        count = g.count;
        unlocked = refl;
        depth = refl;
      }

  module _ (set_satp : (kpt : ℕ) → Cmd Kernel (Unit {0})) (fs : FileSystem) (elf ph : ℕ)
      (path : PathName) where
    -- With a free page, outside every critical section, for the running process: where the read() of the 64
    -- bytes of the ELF header, which comes after the page for the kernel's table was taken and filled,
    -- changes at most the header, which is in no free page, and gives another number of bytes or no ELF
    -- file, exec() returns 0, which is no error code, and has lost a page: the first of the free pages is
    -- not free any more, the other ones are, and `npages` is one less; the processes are as before.
    pub exec_refused :
        (r : ℤ) (m : Memory)
        → vfsdread fs path elf elf_size 0 cleared ≡ ok r (record cleared { mem = m })
        → ((a : ℕ) → (a + 8 ≤ elf) ⊎ (elf + elf_size ≤ a) → m a ≡ cleared.mem a)
        → ((q : ℕ) → has q ps ≡ true → (q + 8 ≤ elf) ⊎ (elf + elf_size ≤ q))
        → ((is_count elf_size r ≡ false)
            ⊎ ((is_count elf_size r ≡ true) × ((m elf % 2 ^ 32 == elf_magic) ≡ false)))
        → (argv : ℕ → ℕ)
        → (t : Kernel) × (exec set_satp fs elf ph path argv k ≡ ok 0 t)
          × IsFree t ps
          × (p ∉ ps)
          × (k.kmem.npages ≡ u64 (t.kmem.npages + 1))
          × (t.table ≡ k.table)
    unfolding exec load_image load_elf clear_user_entries move_bytes
    exec_refused r m e only apart bad argv =
        let start = curproc-some k i f.depth c in
        let page = (kalloc-IsFree looked p ps looked-IsFree).0 in
        let nz : (p == 0) ≡ false = let z = f.chain.1.ne_zero in ground arith in
        let g = cleared-IsFree in
        (
          record cleared { mem = m },
          elim bad [
            | inl b ↦ rw (start, page, nz, e, b) refl
            | inr (y, b) ↦ rw (start, page, nz, e, y, b) refl
          ],
          record {
            chain = Chain-frame _ cleared.mem m _ ps (λ a i h. only a (apart a h)) g.chain;
            count = g.count;
            unlocked = refl;
            depth = refl;
          },
          f.chain.2,
          omega (arith, g.count, f.count),
          refl,
        )
