-- ===== src/Fs/Bio.antt =====
-- kern/fs/bio.cpp. `switch` is pswitch(); `disk_read` and `disk_write` are the block driver, and give the
-- buffer as it is afterwards.
pub mod Lru
pub mod Stuck
use page_fault_os_for_risc_v.Prelude.{
  ℕ, zero, suc, ◌+◌, ◌-◌, ◌%◌, ◌^◌, Bool, true, false, ◌&&◌, ◌||◌, Option, none, some, ltb, ◌==◌,
  if◌then◌else◌, ◌≡◌, refl, eq→==,
}
use page_fault_os_for_risc_v.Kernel.{Buf, Sleeplock, Kernel, on_sleeplock}
use page_fault_os_for_risc_v.Kernel.Run
use page_fault_os_for_risc_v.Kernel.Run.{Cmd, pure, ◌>>=◌, ◌>>◌, modify, gets, abort}
use page_fault_os_for_risc_v.Sync.Spinlock.{LockRef, initlock, acquire, release}
use page_fault_os_for_risc_v.Sync.Sleeplock.{SleepRef, initsleeplock, acquiresleep}

abbrev pub buffer_num : ℕ
buffer_num = 100

abbrev pub set_buf : ℕ → Buf → Kernel → Kernel
set_buf i b k = record k { bufs = λ j. if j == i then b else k.bufs j }

abbrev pub change_buf : ℕ → (Buf → Buf) → Cmd Kernel (Unit {0})
change_buf i f = modify λ k. set_buf i (f (k.bufs i)) k

abbrev pub layer_lock : LockRef
layer_lock = record {
  get = λ k. k.buf_lock;
  put = λ l k. record k { buf_lock = l };
  get-put = λ l k. refl;
  put-cpu = λ l k. refl;
  put-hart = λ l k. refl;
  get-cpu = λ c k. refl;
}

abbrev pub set_sleeplock : ℕ → Sleeplock → Kernel → Kernel
set_sleeplock i s k = set_buf i (record (k.bufs i) { sleeplock = s }) k

-- The sleep lock of the buffer `i`.
abbrev pub buf_sleeplock : ℕ → SleepRef
buf_sleeplock i = record {
  lk = record {
    get = λ k. (k.bufs i).sleeplock.lk;
    put = λ l k. set_sleeplock i (record ((k.bufs i).sleeplock) { lk = l }) k;
    get-put = λ l k. rw (eq→== i i refl) refl;
    put-cpu = λ l k. refl;
    put-hart = λ l k. refl;
    get-cpu = λ c k. refl;
  };
  locked = λ k. (k.bufs i).sleeplock.locked;
  pid = λ k. (k.bufs i).sleeplock.pid;
  set = λ l p k. set_sleeplock i (record ((k.bufs i).sleeplock) { locked = l; pid = p }) k;
  chan = on_sleeplock i;
}

-- The loop initialises the sleep lock of the first buffer, again and again.
unfoldable pub init_from :
    (name_lock name_sleeplock : Cmd Kernel (Unit {0})) → ℕ → Cmd Kernel (Unit {0})
init_from name_lock name_sleeplock zero = pure tt
init_from name_lock name_sleeplock (suc n) = do
  initsleeplock (buf_sleeplock 0) name_lock name_sleeplock
  init_from name_lock name_sleeplock n

unfoldable pub init : (name_lock name_sleeplock : Cmd Kernel (Unit {0})) → Cmd Kernel (Unit {0})
init name_lock name_sleeplock = do
  initlock layer_lock name_lock
  init_from name_lock name_sleeplock buffer_num

-- What the search of allocBuffer() comes to: a buffer with the block, or the buffer to take.
pub data Choice : Type 0 where
  hit : ℕ → Choice
  miss : Option ℕ → Choice

-- b->refcnt == 0 && (earliest == 0 || b->last_use_tick < earliest->last_use_tick)
abbrev pub is_earlier : (ℕ → Buf) → ℕ → Option ℕ → Bool
is_earlier t i earliest =
    ((t i).refcnt == 0)
    && elim earliest [ none ↦ true | some e ↦ ltb (t i).last_use_tick (t e).last_use_tick ]

-- The search through the `n` buffers from `i` on; only the number of the block is compared.
unfoldable pub choose_from : (n i : ℕ) → Option ℕ → (blockno : ℕ) → (ℕ → Buf) → Choice
choose_from zero i earliest blockno t = miss earliest
choose_from (suc n) i earliest blockno t =
    let earliest' = if is_earlier t i earliest then some i else earliest in
    let rest = choose_from n (i + 1) earliest' blockno t in
    if (t i).blockno == blockno then hit i else rest

unfoldable pub choose : (blockno : ℕ) → (ℕ → Buf) → Choice
choose blockno t = choose_from buffer_num 0 none blockno t

module _ (switch : Cmd Kernel (Unit {0})) where
  -- What follows the search: the lock of the layer is given back before the buffer is marked as used.
  unfoldable pub take : (fuel dev blockno ticks : ℕ) → Choice → Cmd Kernel ℕ
  take fuel dev blockno ticks (hit i) = do
    release layer_lock
    change_buf i (λ b. record b { refcnt = (b.refcnt + 1) % 2 ^ 32; last_use_tick = ticks })
    acquiresleep switch fuel (buf_sleeplock i)
    pure i
  take fuel dev blockno ticks (miss none) = do release layer_lock; abort Run.alloc_buf
  take fuel dev blockno ticks (miss (some i)) = do
    release layer_lock
    change_buf i (λ b. record b {
      valid = false;
      refcnt = 1;
      blockno = blockno;
      dev = dev;
      last_use_tick = ticks;
    })
    acquiresleep switch fuel (buf_sleeplock i)
    pure i

  unfoldable pub alloc_buffer : (fuel dev blockno : ℕ) → Cmd Kernel ℕ
  alloc_buffer fuel dev blockno = do
    acquire layer_lock
    k ← gets λ k. k
    take fuel dev blockno k.ticks (choose blockno k.bufs)

  unfoldable pub read : (Buf → Buf) → (fuel dev blockno : ℕ) → Cmd Kernel ℕ
  read disk_read fuel dev blockno = do
    i ← alloc_buffer fuel dev blockno
    change_buf i (λ b. if b.valid then b else disk_read b)
    change_buf i (λ b. record b { valid = true })
    pure i

-- The lock of the layer is given back twice.
unfoldable pub free_buffer : (Buf → Buf) → ℕ → Cmd Kernel (Unit {0})
free_buffer disk_write i = do
  acquire layer_lock
  change_buf i (λ b. record b { refcnt = (b.refcnt + 2 ^ 32 - 1) % 2 ^ 32 })
  release layer_lock
  change_buf i disk_write
  release layer_lock
