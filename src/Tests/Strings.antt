-- ===== src/Tests/Strings.antt =====
-- The functions of string.c on short strings.
use page_fault_os_for_risc_v.Prelude.{
  ℕ, ◌+◌, ◌<◌, ◌≡◌, ◌↔◌, refl, false, arith, ◌==◌, if◌then◌else◌, some, inr,
}
use page_fault_os_for_risc_v.Prelude.Int.{pos}
use page_fault_os_for_risc_v.Libs.CString.{
  Bytes, memset, memcmp, memmove, strncmp, strncpy, safestrcpy, strlen, strrchr, strchr,
}
use page_fault_os_for_risc_v.Libs.CString.Move.{within, memset_lem, memmove_lem}
use page_fault_os_for_risc_v.Libs.CString.Compare.{SameBytes, SameString, memcmp_iff, strncmp_iff}
use page_fault_os_for_risc_v.Libs.CString.Copy.{StringIn, strncpy_lem, cut, safestrcpy_lem}
use page_fault_os_for_risc_v.Libs.CString.Search.{
  IsString, strlen_lem, NotBefore, strchr_found, strchr_missing, strrchr_found, strrchr_missing,
}

-- "bib" at 4, and behind it fives; nothing elsewhere.
abbrev text : Bytes
text a =
    if a == 4
    then b'b'
    else if a == 5
    then b'i'
    else if a == 6
    then b'b'
    else if a == 7
    then 0
    else 5

text-IsString : IsString text 4 3
text-IsString = record { filled = λ i lt. ground arith; ended = refl }

text-StringIn : (n : ℕ) → StringIn text 4 n 3
text-StringIn n = record { filled = λ i lt lt'. ground arith; ended = λ lt. refl }

memset_lem_example : memset text 5 259 2 6 ≡ 3
memset_lem_example = memset_lem text 5 259 2 6

memmove_lem_run : memmove text 5 4 3 6 ≡ b'i'
memmove_lem_run = memmove_lem text 5 4 3 6

memcmp_iff_example : (memcmp text 4 6 1 ≡ pos 0) ↔ SameBytes text 4 6 1
memcmp_iff_example = memcmp_iff text 4 6 1

strncmp_iff_run : (strncmp text 4 6 2 ≡ pos 0) ↔ SameString text 4 6 2
strncmp_iff_run = strncmp_iff text 4 6 2

strncpy_lem_run : strncpy text 10 4 5 14 ≡ 0
strncpy_lem_run = strncpy_lem text 10 4 5 3 14 (inr (omega arith)) (text-StringIn 5)

safestrcpy_lem_run :
    ((i : ℕ) → i < cut 3 2 → safestrcpy text 10 4 3 (10 + i) ≡ text (4 + i))
    × (safestrcpy text 10 4 3 12 ≡ 0)
    × ((a : ℕ) → within 10 3 a ≡ false → safestrcpy text 10 4 3 a ≡ text a)
safestrcpy_lem_run =
    safestrcpy_lem text 10 4 3 3 (inr (omega arith)) (text-StringIn 2) (omega arith)

strlen_lem_example : strlen 4 text 4 ≡ some 3
strlen_lem_example = strlen_lem 4 text 4 3 text-IsString (omega arith)

strchr_found_example : strchr 4 text 4 b'b' ≡ some 4
strchr_found_example =
    strchr_found 4 text 4 b'b' 3 0 text-IsString (omega arith) (omega arith) refl
      (λ j lt. absurd (omega arith))

no_z : NotBefore text 4 b'z' 3
no_z = λ j lt. ground arith

strchr_missing_example : strchr 4 text 4 b'z' ≡ some 0
strchr_missing_example = strchr_missing 4 text 4 b'z' 3 text-IsString (omega arith) no_z

strrchr_found_run : strrchr 4 text 4 b'b' ≡ some 6
strrchr_found_run =
    strrchr_found 4 text 4 b'b' 3 2 text-IsString (omega arith) (omega arith) refl
      (λ j lt. absurd (omega arith))

strrchr_missing_example : strrchr 4 text 4 b'z' ≡ some 0
strrchr_missing_example = strrchr_missing 4 text 4 b'z' 3 text-IsString (omega arith) no_z
