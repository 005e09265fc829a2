-- ===== src/Console/Tests.antt =====
-- A console with a line, a number printed, and a state in which nobody holds a lock.
use k210_os.Prelude.{
  ◌≡◌, refl, true, none, false, [], ◌∷◌, ◌++◌, replicate, arith, ok, Yields, store, load,
}
use k210_os.Strings.{atoi}
use k210_os.Task.{Kernel, TaskControlBlock, running}
use k210_os.Console.{Console, consoleread, has_read, cons_puts, cons_puts_n, cons_putc}
use k210_os.Console.Line.{line, pending, served, HasInput, consoleread-line}
use k210_os.Console.Printing.{
  printint, put_digits, put_sign, vprintk, vprintk_loop, convert, plain_run, percents, int_arg,
  ptr_arg, str_arg,
}
use k210_os.Console.Printing.Ends.{Ends, vprintk-Ends}
use k210_os.Console.Printing.Decimal.{printint-atoi}

abbrev task : TaskControlBlock
task = record {
  pid = 3;
  tcb_lock = false;
  task_status = running;
  base_size = 4096;
  root = 9;
  exit_code = 0;
  parent = 0;
  child = [];
  linked = false;
  cwd = 0;
  ofile = [];
}

abbrev kernel : Kernel
kernel = record {
  tcb = λ t. task;
  ready_queue = [];
  all_task = [];
  waits = λ q. [];
  current = 2;
  idle = false;
  memory = λ ppn i. 0;
  ftable = [];
  locked = λ l. false;
}

-- The indices of the ring are about to wrap around.
abbrev console : Console
console = record { buf = 10 ∷ 99 ∷ replicate 124 0 ++ 97 ∷ 98 ∷ []; r = 0xFFFFFFFE; w = 2; e = 2 }

console-HasInput : HasInput console 4
console-HasInput = record {
  size = refl;
  read_index = omega arith;
  few = omega arith;
  write_index = refl;
}

consoleread-line_example :
    consoleread 5 7 kernel (λ i. true) 9 console
    ≡ served console (line false 9 (pending console.buf console.r 4))
consoleread-line_example =
    consoleread-line 5 7 kernel (λ i. true) 9 4 console refl (λ i. refl) console-HasInput

one_line :
    consoleread 5 7 kernel (λ i. true) 9 console
    ≡ ok (has_read (97 ∷ 98 ∷ 10 ∷ []) (record console { r = 1 }))
unfolding line pending served
one_line = consoleread-line 5 7 kernel (λ i. true) 9 4 console refl (λ i. refl) console-HasInput

printint-atoi_example :
    Yields
      (λ out. atoi (out ++ 0 ∷ []) ≡ ok 0x80000000)
      (printint (replicate 17 7) 0x80000000 10 true)
printint-atoi_example = printint-atoi (replicate 17 7) 0x80000000 refl (omega arith)

least :
    printint (replicate 17 7) 0x80000000 10 true
    ≡ ok (45 ∷ 50 ∷ 49 ∷ 52 ∷ 55 ∷ 52 ∷ 56 ∷ 51 ∷ 54 ∷ 52 ∷ 56 ∷ [])
unfolding store load printint put_digits put_sign cons_puts cons_putc
least = refl

-- "a%%%d:%s" with -5 and NULL
formatted :
    vprintk
      (replicate 17 7)
      (97 ∷ 37 ∷ 37 ∷ 37 ∷ 100 ∷ 58 ∷ 37 ∷ 115 ∷ 0 ∷ [])
      (int_arg 0xFFFFFFFB ∷ str_arg none ∷ [])
    ≡ ok (97 ∷ 37 ∷ 45 ∷ 53 ∷ 58 ∷ 40 ∷ 110 ∷ 117 ∷ 108 ∷ 108 ∷ 41 ∷ [])
unfolding vprintk vprintk_loop convert plain_run percents store load printint put_digits put_sign
    cons_puts cons_puts_n cons_putc
formatted = refl

vprintk-Ends_example :
    Ends (vprintk (replicate 17 7) (37 ∷ 37 ∷ 37 ∷ 112 ∷ 0 ∷ []) (ptr_arg 171 ∷ []))
vprintk-Ends_example =
    vprintk-Ends (replicate 17 7) (37 ∷ 37 ∷ 37 ∷ 112 ∷ 0 ∷ []) (ptr_arg 171 ∷ [])
