-- ===== src/Spinlock/Tests.antt =====
-- One processor goes into the lock while another one waits.
use k210_os.Prelude.{ℕ, ◌≡◌, refl, true, false}
use k210_os.Spinlock.{
  Cpu, push_off, System, initlock, spinning, acquire_start, acquire_swap, acquire_end, holding,
  starts, swaps, enters, Reachable, start, then_step, put_cpu, put_phase,
}
use k210_os.Spinlock.Exclusion.{inside-same}

abbrev cpus : ℕ → Cpu
cpus = λ i. record { irq = true; depth_of_ir = 0; ir_enable = false }

abbrev started : System
started = put_phase (put_cpu (initlock cpus) 1 (push_off (cpus 1))) 1 spinning

run : Reachable (initlock cpus) (acquire_end (acquire_swap started 1) 1)
unfolding initlock acquire_start acquire_swap holding
run = then_step (then_step (then_step start (starts 1 refl refl)) (swaps 1 refl)) (enters 1 refl)

abbrev one : ℕ
one = 1

inside-same_example : one ≡ one
unfolding initlock acquire_end acquire_swap
inside-same_example = inside-same cpus (acquire_end (acquire_swap started 1) 1) 1 1 run refl refl
