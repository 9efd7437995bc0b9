-- ===== src/Tests/Locks.antt =====
-- The spin lock of the page allocator.
use page_fault_os_for_risc_v.Prelude.{refl, arith}
use page_fault_os_for_risc_v.Prelude.{◌≡◌}
use page_fault_os_for_risc_v.Kernel.Run
use page_fault_os_for_risc_v.Kernel.Run.{ok, panic, pure, ◌>>◌}
use page_fault_os_for_risc_v.Sync.Spinlock.{free_lock, acquire, release}
use page_fault_os_for_risc_v.Sync.Spinlock.Laws.{
  settled, taken, acquire-release, acquire-release_nested,
}
use page_fault_os_for_risc_v.Mm.Kalloc.{kmem_lock}
use page_fault_os_for_risc_v.Tests.{idle, bare, busy}

acquire-release_example :
    (acquire kmem_lock >> release kmem_lock) bare
    ≡ ok tt (record (kmem_lock.put free_lock (taken kmem_lock bare)) { cpu = settled idle })
acquire-release_example = acquire-release kmem_lock bare refl refl

acquire-release_nested_example :
    (acquire kmem_lock >> pure tt >> release kmem_lock) busy ≡ panic Run.pop_off
acquire-release_nested_example =
    acquire-release_nested kmem_lock busy (pure tt) refl (omega arith) refl refl refl
