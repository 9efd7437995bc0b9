-- ===== src/Mm/Copy/Laws.antt =====
-- copyout() and copyin() within a page, and the ends of their loops.
use page_fault_os_for_risc_v.Prelude.{
  ℕ, zero, suc, ◌+◌, ◌-◌, ◌*◌, ◌/◌, ◌%◌, ◌≤◌, ◌<◌, ◌≡◌, ◌≢◌, ◌∙◌, refl, false, arith, ◌==◌,
  Bool-cases, inl, inr,
}
use page_fault_os_for_risc_v.Kernel.{Kernel}
use page_fault_os_for_risc_v.Kernel.Run.{ok, done, out_of_fuel, >>=-ends}
use page_fault_os_for_risc_v.Mm.Layout.{u64, page_size, page_round_down}
use page_fault_os_for_risc_v.Mm.Bytes.{get_byte, put_bytes, get_byte-moved}
use page_fault_os_for_risc_v.Mm.PageTable.{walk, kget_kaddr}
use page_fault_os_for_risc_v.Mm.PageTable.Ends.{walk-ends}
use page_fault_os_for_risc_v.Mm.Uvm.{move_bytes}
use page_fault_os_for_risc_v.Mm.Copy.{
  Source, at, in_page, copyout_loop, copyout, copyin_loop, copyin,
}

-- The memory after `n` bytes moved from `s` to `d`.
abbrev pub with_moved : (d s n : ℕ) → Kernel → Kernel
with_moved d s n k = record k { mem = put_bytes k.mem d n (λ i. get_byte k.mem (s + i)) }

module _ (k : Kernel) (pt va pa len : ℕ) (some_bytes : 0 < len)
    (one_page : va % page_size + len ≤ page_size) (pos : 0 < pa)
    (mapped : kget_kaddr pt (page_round_down va) k ≡ ok pa k) where
  all_in_page : in_page va len ≡ len
  all_in_page = ground arith

  abbrev offset : ℕ
  offset = va - page_round_down va

  -- Within a mapped page copyout() returns 0 and writes the bytes of the kernel at the page's address.
  pub copyout_page :
      (src : ℕ) → copyout pt va (at src) len k ≡ ok done (with_moved (pa + offset) src len k)
  unfolding copyout copyout_loop
  copyout_page src =
      let rounds : len / page_size + 3 ≡ suc (suc (len / page_size + 1)) = omega arith in
      let nz : (len == 0) ≡ false = ground arith in
      let ne : (pa == 0) ≡ false = ground arith in
      let none_left : len - len ≡ 0 = omega arith in
      rw rounds (rw nz (rw (mapped, ne, all_in_page, none_left) refl))

  -- copyin() likewise.
  pub copyin_page :
      (dst : ℕ) → copyin pt dst va len k ≡ ok done (with_moved dst (pa + offset) len k)
  unfolding copyin copyin_loop move_bytes
  copyin_page dst =
      let rounds : len / page_size + 3 ≡ suc (suc (len / page_size + 1)) = omega arith in
      let nz : (len == 0) ≡ false = ground arith in
      let ne : (pa == 0) ≡ false = ground arith in
      let none_left : len - len ≡ 0 = omega arith in
      rw rounds (rw nz (rw (mapped, ne, all_in_page, none_left) refl))

-- What copyout() wrote to a user page, copyin() reads back, byte by byte, provided that the page is still
-- mapped to the same address after the write.
pub copyin-copyout :
    (k : Kernel) (pt va pa len src dst i : ℕ)
    → i < len
    → va % page_size + len ≤ page_size
    → 0 < pa
    → kget_kaddr pt (page_round_down va) k ≡ ok pa k
    → let k1 = with_moved (pa + (va - page_round_down va)) src len k in
      kget_kaddr pt (page_round_down va) k1 ≡ ok pa k1
      → (k2 : Kernel) × (copyout pt va (at src) len k ≡ ok done k1)
        × (copyin pt dst va len k1 ≡ ok done k2)
        × (get_byte k2.mem (dst + i) ≡ get_byte k.mem (src + i))
copyin-copyout k pt va pa len src dst i lt one pos mapped again =
    let a : ℕ = pa + (va - page_round_down va) in
    let k1 : Kernel = with_moved a src len k in
    (
      with_moved dst a len k1,
      copyout_page k pt va pa len (omega arith) one pos mapped src,
      copyin_page k1 pt va pa len (omega arith) one pos again dst,
      get_byte-moved k1.mem dst a len i lt ∙ get_byte-moved k.mem a src len i lt,
    )

kget_kaddr-ends : (pt va : ℕ) (k : Kernel) → kget_kaddr pt va k ≢ out_of_fuel
unfolding kget_kaddr
kget_kaddr-ends pt va k =
    >>=-ends (walk pt va false k) _ (walk-ends pt va false k) λ a s. ground arith

-- One round, with the rest of the loop a command that ends.
copyout_loop-round :
    (f pt dst len : ℕ) (src : Source) (k : Kernel)
    → (len ≢ 0
        → (s : Kernel)
        → copyout_loop f pt
            (u64 (page_round_down dst + page_size))
            (λ i. src (in_page dst len + i))
            (len - in_page dst len)
            s
          ≢ out_of_fuel)
    → copyout_loop (suc f) pt dst src len k ≢ out_of_fuel
unfolding copyout_loop
copyout_loop-round f pt dst len src k h = elim (Bool-cases (len == 0)) [
  | inl z ↦ rw z (λ e. cc)
  | inr nz ↦ rw nz (
      >>=-ends (kget_kaddr pt (page_round_down dst) k) _ (kget_kaddr-ends pt _ k) λ pa s.
        elim (Bool-cases (pa == 0)) [
          | inl z ↦ rw z (λ e. cc)
          | inr ne ↦ rw ne (h (ground arith) _)
        ])
]

copyout_loop-ends :
    (f pt dst len : ℕ) (src : Source) (k : Kernel)
    → dst % page_size + len ≤ f * page_size
    → copyout_loop (suc f) pt dst src len k ≢ out_of_fuel
copyout_loop-ends zero pt dst len src k h =
    copyout_loop-round 0 pt dst len src k (λ nz s. absurd (omega arith))
copyout_loop-ends (suc f) pt dst len src k h =
    copyout_loop-round (suc f) pt dst len src k
      λ nz s. copyout_loop-ends f pt _ (len - in_page dst len) _ s (ground arith)

-- copyout() ends, whatever the addresses: the rounds of the model are enough.
pub copyout-ends :
    (pt dst len : ℕ) (src : Source) (k : Kernel) → copyout pt dst src len k ≢ out_of_fuel
unfolding copyout
copyout-ends pt dst len src k =
    let rounds : len / page_size + 3 ≡ suc (len / page_size + 2) = omega arith in
    rw rounds (copyout_loop-ends (len / page_size + 2) pt dst len src k (omega arith))
