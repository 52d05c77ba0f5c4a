-- ===== src/Signals/Tests.antt =====
-- Runs of signal delivery, and its theorems at concrete processes.
use model_lib.Common.{ℕ, ◌≡◌, refl, true, false, some, none, [], ◌∷◌, arith}
use model_lib.Signals.{IsrState, Process, deliver, sig_set_handler, sig_handle_pending, sig_return}
use model_lib.Signals.Deliver.{Handles, sig_handle_pending-Handles, return_after_handler}

abbrev regs : ℕ → IsrState
regs ip = record {
  ds = 35;
  edi = 1;
  esi = 2;
  ebp = 3;
  esp = 4;
  ebx = 5;
  edx = 6;
  ecx = 7;
  eax = 8;
  int_no = 128;
  err_code = 0;
  eip = ip;
  cs = 27;
  eflags = 514;
  useresp = 9;
  ss = 35;
}

-- Both signals are pending, and only the second has a handler.
abbrev proc : Process
proc = record {
  pending_signals = true ∷ true ∷ [];
  sig_handlers = 0 ∷ 0x4000 ∷ [];
  sig_return_state = regs 0;
  in_sig = false;
}

second_handler : (sig_handle_pending (some proc) false (regs 0x1000)).1 ≡ regs 0x4000
unfolding sig_handle_pending deliver
second_handler = refl

kernel_left_alone : sig_handle_pending (some proc) true (regs 0x1000) ≡ (some proc, regs 0x1000)
unfolding sig_handle_pending
kernel_left_alone = refl

return_outside : sig_return proc (regs 0x1000) ≡ none
unfolding sig_return
return_outside = refl

no_such_signal : sig_set_handler proc 3 0x5000 ≡ none
unfolding sig_set_handler
no_such_signal = refl

sig_handle_pending-Handles_example :
    Handles proc (regs 0x1000) (sig_handle_pending (some proc) false (regs 0x1000))
sig_handle_pending-Handles_example = sig_handle_pending-Handles proc (regs 0x1000) refl

return_after_handler_example :
    (q : Process) × (t : IsrState) × (r : Process) × (sig_handle_pending
        (some proc)
        false
        (regs 0x1000)
      ≡ (some q, t))
    × (sig_return q (regs 0x4044) ≡ some (r, regs 0x1000))
    × (r.in_sig ≡ false)
return_after_handler_example =
    return_after_handler proc (regs 0x1000) (regs 0x4044) 1 refl (omega arith) refl
