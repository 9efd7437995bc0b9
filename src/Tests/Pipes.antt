-- ===== src/Tests/Pipes.antt =====
-- A pipe as a queue, and reading from an empty one.
use page_fault_os_for_risc_v.Prelude.{
  ◌-◌, ◌^◌, ◌≡◌, ◌≢◌, refl, [], ◌∷◌, ◌++◌, true, false, arith, some, none,
}
use page_fault_os_for_risc_v.Kernel.Run
use page_fault_os_for_risc_v.Kernel.Run.{ok, panic, done, failed, out_of_fuel, pure}
use page_fault_os_for_risc_v.Kernel.{Pipe}
use page_fault_os_for_risc_v.Pipe.{pop, push, piperead}
use page_fault_os_for_risc_v.Pipe.Queue.{IsPipe, contents, pop-contents, push-contents}
use page_fault_os_for_risc_v.Pipe.Empty.{finished, outside, piperead_empty}
use page_fault_os_for_risc_v.Tests.{new_pipe, one_process}

new_pipe-IsPipe : IsPipe new_pipe
new_pipe-IsPipe = record { fits = omega arith; reads = omega arith; writes = omega arith }

-- One byte waits, behind the end of the counters' range.
abbrev wrapped : Pipe
wrapped = record new_pipe { nread = 2 ^ 32 - 1; nwrite = 0; buf = λ i. 65 }

wrapped-IsPipe : IsPipe wrapped
wrapped-IsPipe = record { fits = omega arith; reads = omega arith; writes = omega arith }

push-contents_example :
    (contents (push 65 new_pipe) ≡ contents new_pipe ++ (65 ∷ [])) × IsPipe (push 65 new_pipe)
push-contents_example = push-contents new_pipe 65 new_pipe-IsPipe refl

pop-contents_example : (contents wrapped ≡ 65 ∷ contents (pop wrapped)) × IsPipe (pop wrapped)
pop-contents_example = pop-contents wrapped wrapped-IsPipe refl

piperead_empty_run :
    let r = piperead (pure tt) 1 0 0x1000 8 one_process in
    (true ≡ false → r ≡ ok (some 0) (finished (pure tt) one_process 0 1 refl refl refl refl))
    × (true ≡ true
        → (one_process.table 1).killed ≢ 0
        → r ≡ ok none (outside (pure tt) one_process 0 1 refl refl refl refl))
    × (true ≡ true → (one_process.table 1).killed ≡ 0 → r ≡ panic Run.pop_off)
piperead_empty_run = piperead_empty (pure tt) one_process 0 1 refl refl refl refl 0 0x1000 8
