-- ===== src/Fs.antt =====
-- kern/fs: the buffer layer and the table of open files.
pub mod Bio
pub mod File
pub mod Fat
pub mod Device
pub mod Vfs
