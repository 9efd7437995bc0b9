-- ===== src/Mm/Kalloc.antt =====
-- kern/mm/kalloc.cpp. A free page holds the address of the next one in its first word.
pub mod Chain
pub mod Laws
pub mod Boot
use page_fault_os_for_risc_v.Prelude.{
  ℕ, zero, suc, ◌+◌, ◌-◌, ◌*◌, ◌%◌, ◌^◌, ◌/◌, Bool, refl, not, ◌||◌, ltb, ◌==◌, if◌then◌else◌,
}
use page_fault_os_for_risc_v.Kernel.{Kernel, Kmem, write_word}
use page_fault_os_for_risc_v.Kernel.Run.{
  Cmd, out_of_fuel, pure, ◌>>=◌, ◌>>◌, modify, gets, abort, kfree_invalid,
}
use page_fault_os_for_risc_v.Sync.Spinlock.{LockRef, initlock, acquire, release}
use page_fault_os_for_risc_v.Mm.Layout.{u64, page_size, phys_stop, page_round_down, fill_page}

abbrev pub kmem_lock : LockRef
kmem_lock = record {
  get = λ k. k.kmem.lock;
  put = λ l k. record k { kmem = record (k.kmem) { lock = l } };
  get-put = λ l k. refl;
  put-cpu = λ l k. refl;
  put-hart = λ l k. refl;
  get-cpu = λ c k. refl;
}

-- The test of kfree(): not aligned, below the kernel's end, or above PHYSTOP.
abbrev pub is_invalid : Kernel → ℕ → Bool
is_invalid k pa = not (pa % page_size == 0) || ltb pa k.kernel_end || ltb phys_stop pa

-- memset(pa, c, PGSIZE)
abbrev pub memset_page : ℕ → ℕ → Cmd Kernel (Unit {0})
memset_page pa c = modify λ k. record k { mem = fill_page k.mem pa c }

-- r->next = kmem.freelist; kmem.freelist = r; kmem.npages++;
abbrev pub push_page : ℕ → Kernel → Kernel
push_page r k = record k {
  mem = write_word k.mem r k.kmem.freelist;
  kmem = record (k.kmem) { freelist = r; npages = u64 (k.kmem.npages + 1) };
}

-- if(r){ kmem.freelist = r->next; kmem.npages--; }
abbrev pub pop_page : ℕ → Kernel → Kernel
pop_page r k = if r == 0 then k else record k {
  kmem = record (k.kmem) { freelist = k.mem r; npages = u64 (k.kmem.npages + 2 ^ 64 - 1) };
}

unfoldable pub kfree : ℕ → Cmd Kernel (Unit {0})
unfolding fill_page write_word acquire release
kfree pa k =
    if is_invalid k pa
    then abort kfree_invalid k
    else (do memset_page pa 1; acquire kmem_lock; modify (push_page pa); release kmem_lock) k

unfoldable pub kalloc : Cmd Kernel ℕ
unfolding fill_page acquire release
kalloc = do
  acquire kmem_lock
  r ← gets λ k. k.kmem.freelist
  modify (pop_page r)
  release kmem_lock
  if r == 0 then pure tt else memset_page r 5
  pure r

-- kmem.npages << PGSHIFT
unfoldable pub freemem_amount : Kernel → ℕ
freemem_amount k = u64 (k.kmem.npages * page_size)

-- for(; p + PGSIZE < pa_end; p += PGSIZE) kfree(p);
unfoldable pub free_from : ℕ → ℕ → ℕ → Cmd Kernel (Unit {0})
free_from zero p pa_end = λ _. out_of_fuel
free_from (suc fuel) p pa_end =
    let rest = free_from fuel (p + page_size) pa_end in
    if ltb (p + page_size) pa_end then kfree p >> rest else pure tt

-- As many rounds as there can be pages, and one for the last test.
unfoldable pub free_range : ℕ → ℕ → Cmd Kernel (Unit {0})
free_range pa_start pa_end = free_from (pa_end / page_size + 1) (page_round_down pa_start) pa_end

unfoldable pub kinit : (name_lock : Cmd Kernel (Unit {0})) → Cmd Kernel (Unit {0})
unfolding initlock
kinit name_lock = do
  initlock kmem_lock name_lock
  modify λ k. record k { kmem = record (k.kmem) { freelist = 0; npages = 0 } }
  end ← gets λ k. k.kernel_end
  free_range end phys_stop
