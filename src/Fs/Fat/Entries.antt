-- ===== src/Fs/Fat/Entries.antt =====
-- kern/fs/fat32.cpp: the entries of a directory, 32 bytes at an address, and the names in them. The bytes that a
-- function builds up are a function from places.
pub mod Match
pub mod Checksum
use page_fault_os_for_risc_v.Prelude.{
  ℕ, zero, suc, ◌+◌, ◌-◌, ◌*◌, ◌/◌, ◌%◌, ◌^◌, Bool, true, false, ◌&&◌, ◌||◌, Option, none, some,
  ltb, leb, ◌==◌, if◌then◌else◌,
}
use page_fault_os_for_risc_v.Libs.CString.{Bytes, to_low_case}

abbrev pub Name : Type 0
Name = ℕ → ℕ

abbrev pub put : Name → (i c : ℕ) → Name
put s i c j = if j == i then c else s j

-- The `n` characters of the entry from `i` on that are no spaces, from place `j` on.
unfoldable pub squeeze : (n i j : ℕ) → Bytes → Name → ℕ × Name
squeeze zero i j m s = (j, s)
squeeze (suc n) i j m s =
    let space : Bool = m i == b' ' in
    squeeze n (i + 1) (if space then j else j + 1) m (if space then s else put s j (m i))

-- The name of an 8.3 entry with its dot, which goes if there is no extension, and the NUL.
unfoldable pub short_name : (entry : ℕ) → Bytes → Name
unfolding squeeze
short_name entry m =
    let (j, s) = squeeze 8 entry 0 m (λ _. 0) in
    let (j', s') = squeeze 3 (entry + 8) (j + 1) m (put s j b'.') in
    put s' (if j' == j + 1 then j else j') 0

-- The low bytes of the 13 characters of a long name, and the NUL.
abbrev pub long_name : (entry : ℕ) → Bytes → Name
long_name entry m i =
    if ltb i 5
    then m (entry + 1 + 2 * i)
    else if ltb i 11
    then m (entry + 14 + 2 * (i - 5))
    else if ltb i 13
    then m (entry + 28 + 2 * (i - 11))
    else 0

-- TF_ATTR_LONG_NAME
abbrev pub is_long : (entry : ℕ) → Bytes → Bool
is_long entry m = m (entry + 11) == 0x0f

-- The length of the first part of a path: `none` if the fuel runs out.
unfoldable pub part_length : (fuel i : ℕ) → Name → Option ℕ
part_length zero i s = none
part_length (suc fuel) i s =
    let rest = part_length fuel (i + 1) s in if s i == b'/' || s i == 0 then some i else rest

-- strncasecmp(p, q, n) == 0, from character `i` on
unfoldable pub same_letters : (n i : ℕ) → (p q : Name) → Bool
same_letters zero i p q = true
same_letters (suc n) i p q =
    let rest = same_letters n (i + 1) p q in
    if to_low_case (p i) == to_low_case (q i) then p i == 0 || rest else false

-- The comparison of a first part of length `i`.
abbrev pub matches : (i : ℕ) → (name file : Name) → Bool
matches i name file =
    if ltb 13 i then same_letters 13 0 name file else file i == 0 && same_letters i 0 name file

abbrev pub map_part : (fuel : ℕ) → Name → (ℕ → Bool) → Option Bool
map_part fuel s f = elim (part_length fuel 0 s) [ none ↦ none | some i ↦ some (f i) ]

unfoldable pub tf_compare_filename_segment : (fuel entry : ℕ) → Bytes → Name → Option Bool
tf_compare_filename_segment fuel entry m name =
    let file : Name = if is_long entry m then long_name entry m else short_name entry m in
    map_part fuel name λ i. matches i name file

-- One round of tf_lfn_checksum(); the sum is a char.
abbrev pub add_to_sum : (sum c : ℕ) → ℕ
add_to_sum sum c = (sum % 2 * 2 ^ 7 + sum / 2 + c) % 2 ^ 8

unfoldable pub checksum_from : (n i sum : ℕ) → Name → ℕ
checksum_from zero i sum s = sum
checksum_from (suc n) i sum s = checksum_from n (i + 1) (add_to_sum sum (s i)) s

unfoldable pub tf_lfn_checksum : Name → ℕ
unfolding checksum_from
tf_lfn_checksum s = checksum_from 11 0 0 s
