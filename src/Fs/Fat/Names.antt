-- ===== src/Fs/Fat/Names.antt =====
-- Long names of kern/fs/fat32.cpp: tf_create_lfn_entry() puts 13 characters of a name into a
-- directory entry, and copylfn() takes them out again. The name lies in a memory of bytes; copylfn()
-- is modelled for a buffer of the kernel, `user` being false.
pub mod Roundtrip
use page_fault_os_for_risc_v.Prelude.{
  ℕ, zero, suc, ◌+◌, ◌-◌, ◌*◌, ◌/◌, ◌%◌, Bool, ◌==◌, ◌||◌, ◌&&◌, if◌then◌else◌, true, false, ltb,
  leb, Option, none, some,
}
use page_fault_os_for_risc_v.Libs.CString.{Bytes}

-- An array of uint16.
abbrev pub Wide : Type 0
Wide = ℕ → ℕ

pub record LfnEntry : Type 0 where
  pub sequence_number : ℕ
  pub name1 : Wide
  pub attributes : ℕ
  pub reserved : ℕ
  pub checksum : ℕ
  pub name2 : Wide
  pub first_cluster : ℕ
  pub name3 : Wide

abbrev pub unused : ℕ
unused = 0xffff

abbrev pub long_name : ℕ
long_name = 0x0f

pub record Filled : Type 0 where
  pub name : Wide
  pub filename : ℕ
  pub is_done : Bool

-- One of the three loops, from index `i` on: after the NUL the places are marked as unused.
unfoldable pub fill : (rounds i : ℕ) → Bytes → (filename : ℕ) → (is_done : Bool) → Wide → Filled
fill zero i m p is_done name = record { name = name; filename = p; is_done = is_done }
fill (suc n) i m p is_done name =
    fill n (i + 1) m (p + 1) (is_done || m p == 0)
      (λ j. if j == i then (if is_done then unused else m p) else name j)

-- The entry, and where the rest of the name starts, if there is one.
unfoldable pub tf_create_lfn_entry : Bytes → (filename : ℕ) → LfnEntry → LfnEntry × Option ℕ
tf_create_lfn_entry m p e =
    let a = fill 5 0 m p false e.name1 in
    let b = fill 6 0 m a.filename a.is_done e.name2 in
    let c = fill 2 0 m b.filename b.is_done e.name3 in
    (
      record e {
        name1 = a.name;
        name2 = b.name;
        name3 = c.name;
        attributes = long_name;
        reserved = 0;
        first_cluster = 0;
      },
      if c.is_done then none else if m c.filename == 0 then none else some c.filename,
    )

-- i, where the loop over one of the arrays ends
unfoldable pub used_from : (rounds i : ℕ) → Wide → ℕ
used_from zero i name = i
used_from (suc n) i name =
    let rest = used_from n (i + 1) name in if name i == unused then i else rest

-- memmove(dst, tmp, n), with tmp[i] = name[i] & 0xff
abbrev pub put_name : Bytes → (dst n : ℕ) → Wide → Bytes
put_name t dst n name a = if leb dst a && ltb a (dst + n) then name (a - dst) % 256 else t a

-- 13 * ((sequence_number & ~0x40) - 1), added to `dst`
abbrev pub name_start : (dst : ℕ) → LfnEntry → ℕ
name_start dst e = dst + 13 * (e.sequence_number - 64 * (e.sequence_number / 64 % 2)) - 13

unfoldable pub copylfn : Bytes → LfnEntry → (dst : ℕ) → ℕ × Bytes
copylfn t e dst =
    let start = name_start dst e in
    let a = used_from 5 0 e.name1 in
    let b = used_from 6 0 e.name2 in
    let c = used_from 2 0 e.name3 in
    (
      a + b + c,
      put_name (put_name (put_name t start a e.name1) (start + a) b e.name2) (start + (a + b)) c
          e.name3,
    )
