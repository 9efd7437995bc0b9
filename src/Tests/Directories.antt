-- ===== src/Tests/Directories.antt =====
-- Names in the entries of a directory.
use page_fault_os_for_risc_v.Prelude.{
  ℕ, ◌<◌, ◌≡◌, ◌≢◌, ◌↔◌, refl, true, some, ◌==◌, if◌then◌else◌, arith,
}
use page_fault_os_for_risc_v.Libs.CString.{to_low_case}
use page_fault_os_for_risc_v.Fs.Fat.Entries.{
  Name, squeeze, short_name, part_length, same_letters, matches, tf_compare_filename_segment,
  checksum_from, tf_lfn_checksum,
}
use page_fault_os_for_risc_v.Fs.Fat.Entries.Match.{matches_iff}
use page_fault_os_for_risc_v.Fs.Fat.Entries.Checksum.{tf_lfn_checksum_lem}

-- "A       TXT" and "B       TXT"
abbrev short : (first : ℕ) → Name
short first j =
    if j == 0
    then first
    else if j == 8
    then b'T'
    else if j == 9
    then b'X'
    else if j == 10
    then b'T'
    else b' '

tf_lfn_checksum_lem_example : tf_lfn_checksum (short b'A') ≢ tf_lfn_checksum (short b'B')
tf_lfn_checksum_lem_example =
    tf_lfn_checksum_lem 0 (short b'A') (short b'B') (omega arith) (omega arith) (omega arith)
      (omega arith) (λ j l ne. ground arith)

checksum_of_a : tf_lfn_checksum (short b'A') ≡ 93
unfolding tf_lfn_checksum checksum_from
checksum_of_a = refl

-- "a.txt/b", and the name of the entry
abbrev path : Name
path j =
    if j == 0
    then b'a'
    else if j == 1
    then b'.'
    else if j == 2
    then b't'
    else if j == 3
    then b'x'
    else if j == 4
    then b't'
    else if j == 5
    then b'/'
    else if j == 6
    then b'b'
    else 0

found : tf_compare_filename_segment 10 0 (short b'A') path ≡ some true
unfolding tf_compare_filename_segment short_name squeeze part_length same_letters to_low_case
found = refl

matches_iff_example : (matches 5 path (short_name 0 (short b'A')) ≡ true) ↔ (
    (short_name 0 (short b'A') 5 ≡ 0)
    × ((j : ℕ) → j < 5 → to_low_case (path j) ≡ to_low_case (short_name 0 (short b'A') j)))
matches_iff_example =
    matches_iff 5 path (short_name 0 (short b'A')) (omega arith) (λ j l. ground arith)
