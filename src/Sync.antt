-- ===== src/Sync.antt =====
-- kern/trap/intr.cpp and kern/sync: nested interrupt disabling and spin locks.
pub mod Spinlock
pub mod Harts
pub mod Sleeplock
