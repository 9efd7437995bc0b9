-- ===== src/Mm/Copy.antt =====
-- kern/mm/vm.cpp: copying between the kernel and user addresses, which are translated by KGetKaddr().
-- An address in the kernel is one of the memory of words.
pub mod Laws
use page_fault_os_for_risc_v.Prelude.{
  ℕ, zero, suc, ◌+◌, ◌-◌, ◌*◌, ◌/◌, ◌%◌, ◌^◌, ◌||◌, Bool, true, false, not, ltb, leb, ◌==◌,
  if◌then◌else◌,
}
use page_fault_os_for_risc_v.Kernel.{Kernel}
use page_fault_os_for_risc_v.Kernel.Run.{
  Cmd, Status, done, failed, out_of_fuel, pure, ◌>>=◌, ◌>>◌, modify, gets,
}
use page_fault_os_for_risc_v.Mm.Layout.{u64, page_size, page_round_down}
use page_fault_os_for_risc_v.Mm.Bytes.{get_byte, put_bytes}
use page_fault_os_for_risc_v.Mm.PageTable.{kget_kaddr}
use page_fault_os_for_risc_v.Mm.Uvm.{move_bytes}

-- How much of `len` bytes from `va` on lies in the first page: n = PGSIZE - (va - va0), at most `len`.
abbrev pub in_page : (va len : ℕ) → ℕ
in_page va len = let n = page_size - (va - page_round_down va) in if ltb len n then len else n

-- What copyout() reads: the byte at each place, in memory or in a variable of its caller.
abbrev pub Source : Type 0
Source = ℕ → Kernel → ℕ

-- The source at a pointer into memory.
abbrev pub at : ℕ → Source
at p i k = get_byte k.mem (p + i)

unfoldable pub copyout_loop : (fuel pt dst : ℕ) → Source → (len : ℕ) → Cmd Kernel Status
copyout_loop zero pt dst src len = λ _. out_of_fuel
copyout_loop (suc fuel) pt dst src len =
    let n = in_page dst len in
    let rest =
      copyout_loop fuel pt (u64 (page_round_down dst + page_size)) (λ i. src (n + i)) (len - n) in
    if len == 0 then pure done else do
      pa ← kget_kaddr pt (page_round_down dst)
      if pa == 0 then pure failed else do
        modify λ k. record k {
          mem = put_bytes k.mem (pa + (dst - page_round_down dst)) n (λ i. src i k);
        }
        rest

-- Each round but the first and the last copies a page.
unfoldable pub copyout : (pt dst : ℕ) → Source → (len : ℕ) → Cmd Kernel Status
copyout pt dst src len = copyout_loop (len / page_size + 3) pt dst src len

unfoldable pub copyin_loop : (fuel pt dst src len : ℕ) → Cmd Kernel Status
copyin_loop zero pt dst src len = λ _. out_of_fuel
copyin_loop (suc fuel) pt dst src len =
    let n = in_page src len in
    let rest =
      copyin_loop fuel pt (u64 (dst + n)) (u64 (page_round_down src + page_size)) (len - n) in
    if len == 0 then pure done else do
      pa ← kget_kaddr pt (page_round_down src)
      if pa == 0 then pure failed else do move_bytes dst (pa + (src - page_round_down src)) n; rest

unfoldable pub copyin : (pt dst src len : ℕ) → Cmd Kernel Status
copyin pt dst src len = copyin_loop (len / page_size + 3) pt dst src len

-- The inner loop of copyinstr() over `n` bytes of a page: whether it met the NUL.
unfoldable pub copy_string : (n dst p : ℕ) → Cmd Kernel Bool
copy_string zero dst p = pure false
copy_string (suc n) dst p =
    let rest = copy_string n (dst + 1) (p + 1) in
    do
      c ← gets λ k. get_byte k.mem p
      modify λ k. record k { mem = put_bytes k.mem dst 1 (λ _. c) }
      if c == 0 then pure true else rest

unfoldable pub copyinstr_loop : (fuel pt dst src max : ℕ) → Cmd Kernel Status
copyinstr_loop zero pt dst src max = λ _. out_of_fuel
copyinstr_loop (suc fuel) pt dst src max =
    let n = in_page src max in
    let rest =
      copyinstr_loop fuel pt (u64 (dst + n)) (u64 (page_round_down src + page_size)) (max - n) in
    if max == 0 then pure failed else do
      pa ← kget_kaddr pt (page_round_down src)
      if pa == 0 then pure failed else do
        got_null ← copy_string n dst (pa + (src - page_round_down src))
        if got_null then pure done else rest

unfoldable pub copyinstr : (pt dst src max : ℕ) → Cmd Kernel Status
copyinstr pt dst src max = copyinstr_loop (max / page_size + 3) pt dst src max
