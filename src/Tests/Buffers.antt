-- ===== src/Tests/Buffers.antt =====
-- The buffer layer and the table of open files.
use page_fault_os_for_risc_v.Prelude.{none, ◌≢◌, ◌<◌, some, ℕ, ◌≡◌, ◌⊎◌, refl, ◌==◌, if◌then◌else◌}
use page_fault_os_for_risc_v.Kernel.Run
use page_fault_os_for_risc_v.Kernel.Run.{ok, panic, done, failed, out_of_fuel, pure}
use page_fault_os_for_risc_v.Kernel.{Buf}
use page_fault_os_for_risc_v.Fs.Bio.{buffer_num, choose, alloc_buffer, free_buffer}
use page_fault_os_for_risc_v.Fs.Bio.Lru.{Chosen, choose-Chosen}
use page_fault_os_for_risc_v.Fs.Bio.Stuck.{alloc_buffer_stuck, free_buffer_stuck}
use page_fault_os_for_risc_v.Fs.File.{filealloc}
use page_fault_os_for_risc_v.Fs.File.Table.{closed, opened, granted, filealloc_first}
use page_fault_os_for_risc_v.Proc.{nfile}
use page_fault_os_for_risc_v.Tests.{new_buf, bare}

-- The buffer 1 holds the block 7, and the buffer 2 was used last.
abbrev used : ℕ → Buf
used i =
    if i == 1
    then record new_buf { blockno = 7 }
    else if i == 2
    then record new_buf { last_use_tick = 9 }
    else new_buf

choose-Chosen_example : Chosen used buffer_num 8 (choose 8 used)
choose-Chosen_example = choose-Chosen 8 used

alloc_buffer_stuck_run :
    (alloc_buffer (pure tt) 1 0 7 bare ≡ panic Run.alloc_buf)
    ⊎ (alloc_buffer (pure tt) 1 0 7 bare ≡ panic Run.pop_off)
alloc_buffer_stuck_run = alloc_buffer_stuck (pure tt) bare 0 0 7 refl refl (λ i. refl)

free_buffer_stuck_run : free_buffer (λ b. b) 3 bare ≡ panic Run.release_not_held
free_buffer_stuck_run = free_buffer_stuck (λ b. b) bare 3 refl refl

filealloc_first_run :
    ((g : ℕ) × (filealloc bare ≡ ok (some g) (granted bare refl g))
      × (g < nfile)
      × ((bare.files g).ref ≡ 0)
      × ((j : ℕ) → j < g → (bare.files j).ref ≢ 0))
    ⊎ ((filealloc bare ≡ ok none (closed (opened bare refl)))
        × ((j : ℕ) → j < nfile → (bare.files j).ref ≢ 0))
filealloc_first_run = filealloc_first bare refl refl
