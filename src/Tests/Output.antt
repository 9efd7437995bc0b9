-- ===== src/Tests/Output.antt =====
-- Runs of printf() and of what it calls.
use page_fault_os_for_risc_v.Prelude.{
  ◌-◌, ◌^◌, ℕ, List, [], ◌∷◌, true, false, some, none, ◌≡◌, refl, arith,
}
use page_fault_os_for_risc_v.Libs.Printf.{
  digit, put_digits, backwards, put_sign, printint, printptr, directive, printf_from, printf, int,
  string,
}
use page_fault_os_for_risc_v.Libs.Printf.Roundtrip.{read_digits, printint_lem, printptr_lem}

-- "pid %d: %x%s%%%c" of 1, -31, a null pointer
pid_line :
    printf
      (b'p' ∷ b'%' ∷ b'd' ∷ b':' ∷ b'%' ∷ b'x' ∷ b'%' ∷ b's' ∷ b'%' ∷ b'%' ∷ b'%' ∷ b'c' ∷ [])
      (int 12 ∷ int (2 ^ 32 - 31) ∷ string none ∷ [])
    ≡ some (
        b'p' ∷ b'1' ∷ b'2' ∷ b':' ∷ b'-' ∷ b'1' ∷ b'f' ∷ b'(' ∷ b'n' ∷ b'u' ∷ b'l' ∷ b'l' ∷ b')'
        ∷ b'%' ∷ b'%' ∷ b'c' ∷ [])
unfolding printf_from directive printint put_sign put_digits backwards digit
pid_line = refl

missing_argument : printf (b'%' ∷ b'd' ∷ []) [] ≡ none
unfolding printf_from
missing_argument = refl

-- In base 2 the digits of the largest word do not fit.
base_two : printint (2 ^ 32 - 1) 2 false ≡ none
unfolding printint put_sign put_digits
base_two = refl

printint_lem_example :
    (cs : List ℕ) × (printint (2 ^ 31) 10 true ≡ some (b'-' ∷ cs)) × (read_digits 10 0 cs ≡ 2 ^ 31)
printint_lem_example = printint_lem 10 (omega arith) (omega arith) (2 ^ 31) true (omega arith)

printptr_lem_run :
    (cs : List ℕ) × (printptr 0x80200000 ≡ b'0' ∷ b'x' ∷ cs) × (read_digits 16 0 cs ≡ 0x80200000)
printptr_lem_run = printptr_lem 0x80200000 (omega arith)
