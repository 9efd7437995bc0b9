-- ===== src/Fs/Bio/Stuck.antt =====
-- The buffer layer under the nested use of curproc() in acquiresleep().
use page_fault_os_for_risc_v.Prelude.{
  ℕ, suc, ◌+◌, ◌%◌, ◌-◌, ◌^◌, ◌≡◌, ◌⊎◌, refl, true, false, none, some, arith, eq→==, inl, inr,
}
use page_fault_os_for_risc_v.Kernel.{Buf, Kernel}
use page_fault_os_for_risc_v.Kernel.Run
use page_fault_os_for_risc_v.Kernel.Run.{Cmd, ok, panic, ◌>>◌}
use page_fault_os_for_risc_v.Sync.Spinlock.{free_lock, holding}
use page_fault_os_for_risc_v.Sync.Spinlock.Laws.{
  taken, acquire-ok, release-ok, holding-taken, release-other,
}
use page_fault_os_for_risc_v.Sync.Sleeplock.{acquiresleep, acquiresleep_stuck}
use page_fault_os_for_risc_v.Fs.Bio.{
  layer_lock, set_buf, buf_sleeplock, Choice, hit, miss, choose, take, alloc_buffer, free_buffer,
}

-- The kernel after the lock of the layer was given back.
abbrev left : Kernel → Kernel
left t = record (layer_lock.put free_lock t) { cpu = record t.cpu { noff = 0; intr = false } }

-- A buffer's sleep lock cannot be taken.
buf_stuck :
    (switch : Cmd Kernel (Unit {0})) (s : Kernel) (fuel i : ℕ)
    → (s.bufs i).sleeplock.lk.locked ≡ false
    → acquiresleep switch (suc fuel) (buf_sleeplock i) s ≡ panic Run.pop_off
buf_stuck switch s fuel i u = acquiresleep_stuck switch (buf_sleeplock i) fuel s u (λ l n t. refl)

take_stuck :
    (switch : Cmd Kernel (Unit {0})) (t : Kernel) (fuel dev blockno ticks : ℕ) (c : Choice)
    → holding t.buf_lock t.hart ≡ true
    → t.cpu.intr ≡ false
    → t.cpu.noff ≡ 1
    → ((i : ℕ) → (t.bufs i).sleeplock.lk.locked ≡ false)
    → (take switch (suc fuel) dev blockno ticks c t ≡ panic Run.alloc_buf)
      ⊎ (take switch (suc fuel) dev blockno ticks c t ≡ panic Run.pop_off)
unfolding take
take_stuck switch t fuel dev blockno ticks (hit i) h off one free =
    let s1 : Kernel =
      set_buf i
        (record (t.bufs i) { refcnt = ((t.bufs i).refcnt + 1) % 2 ^ 32; last_use_tick = ticks })
        (left t) in
    inr (
      rw (release-ok layer_lock t h off one)
        (rw (buf_stuck switch s1 fuel i (rw (eq→== i i refl) (free i))) refl))
take_stuck switch t fuel dev blockno ticks (miss none) h off one free =
    inl (rw (release-ok layer_lock t h off one) refl)
take_stuck switch t fuel dev blockno ticks (miss (some i)) h off one free =
    let s1 : Kernel =
      set_buf i
        (record (t.bufs i) {
          valid = false;
          refcnt = 1;
          blockno = blockno;
          dev = dev;
          last_use_tick = ticks;
        })
        (left t) in
    inr (
      rw (release-ok layer_lock t h off one)
        (rw (buf_stuck switch s1 fuel i (rw (eq→== i i refl) (free i))) refl))

-- allocBuffer() returns no buffer at all: it reports that none is free, or stops in acquiresleep().
pub alloc_buffer_stuck :
    (switch : Cmd Kernel (Unit {0})) (k : Kernel) (fuel dev blockno : ℕ)
    → k.cpu.noff ≡ 0
    → k.buf_lock.locked ≡ false
    → ((i : ℕ) → (k.bufs i).sleeplock.lk.locked ≡ false)
    → (alloc_buffer switch (suc fuel) dev blockno k ≡ panic Run.alloc_buf)
      ⊎ (alloc_buffer switch (suc fuel) dev blockno k ≡ panic Run.pop_off)
unfolding alloc_buffer
alloc_buffer_stuck switch k fuel dev blockno d u free = rw (acquire-ok layer_lock k u) (
    take_stuck switch (taken layer_lock k) fuel dev blockno k.ticks (choose blockno k.bufs)
      (holding-taken layer_lock k) refl (omega arith) free)

-- freeBuffer() stops the kernel when it gives the lock of the layer back a second time.
pub free_buffer_stuck :
    (disk_write : Buf → Buf) (k : Kernel) (i : ℕ)
    → k.cpu.noff ≡ 0
    → k.buf_lock.locked ≡ false
    → free_buffer disk_write i k ≡ panic Run.release_not_held
unfolding free_buffer
free_buffer_stuck disk_write k i d u =
    let t : Kernel = taken layer_lock k in
    let t1 : Kernel =
      set_buf i (record (t.bufs i) { refcnt = ((t.bufs i).refcnt + 2 ^ 32 - 1) % 2 ^ 32 }) t in
    let s : Kernel = record (layer_lock.put free_lock t1) {
      cpu = record t1.cpu { noff = 0; intr = false };
    } in
    let s1 : Kernel = set_buf i (disk_write (s.bufs i)) s in
    rw (acquire-ok layer_lock k u) (
      rw (release-ok layer_lock t1 (holding-taken layer_lock k) refl (omega arith))
        (rw (release-other layer_lock s1 refl) refl))
