-- ===== src/Proc/Alloc/Trampoline.antt =====
-- proc_pagetable(): the mapping of the trampoline, whose physical address and size are swapped.
use page_fault_os_for_risc_v.Prelude.{
  ℕ, suc, ◌+◌, ◌^◌, ◌<◌, ◌≡◌, ◌≢◌, refl, true, false, arith, ◌==◌, Bool-cases, inl, inr,
}
use page_fault_os_for_risc_v.Kernel.{Kernel}
use page_fault_os_for_risc_v.Kernel.Run.{Run, ok, done, failed, pure, and_then, >>=-yields}
use page_fault_os_for_risc_v.Mm.Layout.{page_size, max_va, trampoline, flag_r, flag_x}
use page_fault_os_for_risc_v.Mm.PageTable.{walk, map_loop, map_pages}
use page_fault_os_for_risc_v.Mm.PageTable.Ends.{walk_high}
use page_fault_os_for_risc_v.Mm.Uvm.{uvm_create, uvm_free}
use page_fault_os_for_risc_v.Proc.Alloc.{proc_pagetable}

-- At MAXVA the loop of MapPages() stops the kernel.
map_loop_above :
    (f pt last pa perm : ℕ) (k k' : Kernel) → map_loop (suc f) pt max_va last pa perm k ≢ ok done k'
unfolding map_loop
map_loop_above f pt last pa perm k k' = rw (walk_high pt max_va true k (omega arith)) (λ e. cc)

map_loop_top :
    (f pt last pa perm : ℕ) (k k' : Kernel)
    → last ≢ trampoline
    → map_loop (suc (suc f)) pt trampoline last pa perm k ≢ ok done k'
unfolding map_loop
map_loop_top f pt last pa perm k k' ne h =
    >>=-yields (λ st. st ≢ done) (walk pt trampoline true k) _
      (λ a s e. elim (Bool-cases (a == 0)) [
        | inl z ↦ rw z (λ b t e' q. cc)
        | inr nz ↦ rw nz (elim (Bool-cases (s.mem a == 0)) [
          | inr full ↦ rw full (λ b t e' q. cc)
          | inl empty ↦
              let d : (trampoline == last) ≡ false = ground arith in
              rw (empty, d) (λ b t e' q. map_loop_above f pt last _ perm _ t (rw q at e'))
        ])
      ])
      done k' h refl

map_pages_top :
    (pt tramp perm : ℕ) (k k' : Kernel)
    → page_size < tramp
    → tramp < 2 ^ 56
    → map_pages pt trampoline page_size tramp perm k ≢ ok done k'
unfolding map_pages
map_pages_top pt tramp perm k k' lo hi = map_loop_top _ pt _ page_size perm k k' (omega arith)

-- A command that ends with `pure 0` gives 0.
yields_zero :
    (m : Run Kernel (Unit {0})) (r : ℕ) (k' : Kernel) → and_then m (λ _. pure 0) ≡ ok r k' → r ≡ 0
yields_zero m = >>=-yields (λ r. r ≡ 0) m (λ _. pure 0) (λ a s e b t e'. cc)

-- proc_pagetable() never gives a process a page table: if the trampoline's code lies behind the first
-- page, no call returns anything but the null pointer.
pub proc_pagetable_null :
    (depth tramp tf r : ℕ) (k k' : Kernel)
    → page_size < tramp
    → tramp < 2 ^ 56
    → r ≢ 0
    → proc_pagetable depth tramp tf k ≢ ok r k'
unfolding proc_pagetable
proc_pagetable_null depth tramp tf r k k' lo hi ne h = ne (
    >>=-yields (λ r. r ≡ 0) (uvm_create k) _
      (λ pt s e. elim (Bool-cases (pt == 0)) [
        | inl z ↦ rw z (λ b t e'. cc)
        | inr nz ↦ rw nz (
            >>=-yields (λ r. r ≡ 0) (map_pages pt trampoline page_size tramp (flag_r + flag_x) s) _
              (elim [
                | done ↦ λ s1 e1. absurd (map_pages_top pt tramp (flag_r + flag_x) s s1 lo hi e1)
                | failed ↦ λ s1 e1. yields_zero (uvm_free depth pt 0 s1)
              ]))
      ])
      r k' h)
