-- ===== src/Signals.antt =====
-- kernel/signals/signal.c: the signals of a process. NULL is `none` for a process and 0 for a
-- handler. A signal number outside 1 to SIG_COUNT, which the code does not test and which leads
-- outside the arrays, and a failed ASSERT give `none`.
pub mod Deliver
mod Tests
use model_lib.Common.{
  ℕ, zero, suc, Bool, true, false, not, ◌&&◌, ◌||◌, Option, none, some, List, if◌then◌else◌, ◌==◌,
  ltb, get_or, set,
}

pub record IsrState : Type 0 where
  pub ds : ℕ
  pub edi : ℕ
  pub esi : ℕ
  pub ebp : ℕ
  pub esp : ℕ
  pub ebx : ℕ
  pub edx : ℕ
  pub ecx : ℕ
  pub eax : ℕ
  pub int_no : ℕ
  pub err_code : ℕ
  pub eip : ℕ
  pub cs : ℕ
  pub eflags : ℕ
  pub useresp : ℕ
  pub ss : ℕ

-- `process_t`, as far as its signals go.
pub record Process : Type 0 where
  pub pending_signals : List Bool
  pub sig_handlers : List ℕ
  pub sig_return_state : IsrState
  pub in_sig : Bool

abbrev pub sig_count : ℕ
sig_count = 2

-- `sig - 1` as an index of the arrays.
abbrev pub slot : ℕ → Option ℕ
slot zero = none
slot (suc i) = if ltb i sig_count then some i else none

abbrev set_slot : Process → ℕ → Option ℕ → Option Process
set_slot p handler none = none
set_slot p handler (some i) = some (record p { sig_handlers = set p.sig_handlers i handler })

pub sig_set_handler : Process → (sig handler : ℕ) → Option Process
sig_set_handler p sig handler = set_slot p handler (slot sig)

abbrev pub queue_slot : Process → Option ℕ → Option (Bool × Option Process)
queue_slot p none = none
queue_slot p (some i) =
    if get_or p.sig_handlers i 0 == 0
    then some (false, some p)
    else some (true, some (record p { pending_signals = set p.pending_signals i true }))

pub sig_queue_signal : Option Process → (sig : ℕ) → Option (Bool × Option Process)
sig_queue_signal none sig = some (false, none)
sig_queue_signal (some p) sig = queue_slot p (slot sig)

-- The test of the loop in `sig_handle_pending`, and what it does when the test holds.
abbrev pub due : Process → ℕ → Bool
due p i = get_or p.pending_signals i false && not (get_or p.sig_handlers i 0 == 0)

abbrev pub taken : Process → ℕ → IsrState → Process × IsrState
taken p i s = (
  record p { pending_signals = set p.pending_signals i false; sig_return_state = s; in_sig = true },
  record s { eip = get_or p.sig_handlers i 0 },
)

-- The loop of `sig_handle_pending`, with `n` signals left.
pub deliver : Process → (n i : ℕ) → IsrState → Process × IsrState
deliver p zero i s = (p, s)
deliver p (suc n) i s = let rest = deliver p n (suc i) s in if due p i then taken p i s else rest

-- `proc` is the running process, and `is_kernel` whether it is the kernel's own.
pub sig_handle_pending : Option Process → (is_kernel : Bool) → IsrState → Option Process × IsrState
sig_handle_pending none is_kernel s = (none, s)
sig_handle_pending (some p) is_kernel s =
    if is_kernel || p.in_sig
    then (some p, s)
    else let got = deliver p sig_count 0 s in (some got.0, got.1)

pub sig_return : Process → IsrState → Option (Process × IsrState)
sig_return p s = if p.in_sig then some (record p { in_sig = false }, p.sig_return_state) else none
