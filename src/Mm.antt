-- ===== src/Mm.antt =====
-- kern/mm: the layout of memory, the page allocator and the page tables.
pub mod Layout
pub mod Kalloc
pub mod PageTable
pub mod Bytes
pub mod Uvm
pub mod Copy
pub mod Kvm
