-- ===== src/Libs.antt =====
-- kern/libs: the kernel's own C library.
pub mod CString
pub mod Printf
