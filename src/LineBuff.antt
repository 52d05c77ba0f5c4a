-- ===== src/LineBuff.antt =====
-- drivers/console/line_buff.c and history.c: the line being edited and the lines entered before.
-- `none` is a failed ASSERT or an access outside `result`, which C leaves undefined. A history is
-- the list of its strings, the latest first.
pub mod Shift
pub mod Edit
pub mod Recall
pub mod Keys
mod Tests
use model_lib.Common.{
  and_then, ℕ, zero, suc, ◌+◌, ◌-◌, Bool, true, false, Option, none, some, List, [], ◌∷◌,
  if◌then◌else◌, ◌==◌, ltb, leb, length, get_or, get_elem?, set, replicate, add32, sub32,
}
use model_lib.CString.{strlen, strcpy}
use model_lib.KeyCodes.{key_backspace, key_new_line, key_del, key_left, key_right, key_up, key_down}

pub record LineBuff : Type 0 where
  pub result : List ℕ
  pub len : ℕ
  pub cur_pos : ℕ
  pub history_pos : ℕ
  pub cursor_start_x : ℕ

pub record History : Type 0 where
  pub items : List (List ℕ)
  pub len : ℕ

pub data LbResult : Type 0 where
  replace ignore append_code line_break : LbResult

-- A write into `result`.
abbrev pub write : List ℕ → (i v : ℕ) → Option (List ℕ)
write xs i v = if ltb i (length xs) then some (set xs i v) else none

pub con_his_create : History
con_his_create = record { items = []; len = 0 }

pub con_his_add : History → List ℕ → History
con_his_add h str = record { items = str ∷ h.items; len = add32 h.len 1 }

-- What `con_his_get` returns: NULL, a string, or what stands behind the list's head, which is not
-- an item.
pub data Entry : Type 0 where
  no_entry head_entry : Entry
  entry : List ℕ → Entry

walk : List (List ℕ) → ℕ → Entry
walk [] zero = head_entry
walk [] (suc index) = no_entry
walk (x ∷ xs) zero = entry x
walk (x ∷ xs) (suc index) = walk xs index

pub con_his_get : History → ℕ → Entry
unfolding walk
con_his_get h index = walk h.items index

-- The loop of `_insert`, with `n` rounds left.
pub open_gap : List ℕ → (cur n : ℕ) → Option (List ℕ)
open_gap xs cur zero = some xs
open_gap xs cur (suc n) =
    and_then (write xs (cur + suc n) (get_or xs (cur + n) 0)) (λ ys. open_gap ys cur n)

-- The loop of `_remove`, with `n` rounds left.
pub close_gap : List ℕ → (n i : ℕ) → Option (List ℕ)
close_gap xs zero i = some xs
close_gap xs (suc n) i =
    and_then (get_elem? xs (suc i)) (λ v. and_then (write xs i v) (λ ys. close_gap ys n (suc i)))

-- `_insert` past the loop.
abbrev pub put_code : LineBuff → ℕ → List ℕ → Option LineBuff
put_code lb code xs = and_then (write xs lb.cur_pos code) (λ ys.
    and_then (write ys (add32 lb.len 1) 0)
      (λ zs. some (record lb { result = zs; cur_pos = add32 lb.cur_pos 1; len = add32 lb.len 1 })))

pub insert : LineBuff → ℕ → Option LineBuff
insert lb code =
    if leb lb.cur_pos lb.len
    then (if lb.len == 1024
        then some lb
        else if ltb lb.cur_pos lb.len
        then and_then (open_gap lb.result lb.cur_pos (lb.len + 1 - lb.cur_pos)) (put_code lb code)
        else put_code lb code lb.result)
    else none

pub remove : LineBuff → Option LineBuff
remove lb =
    and_then (close_gap lb.result (lb.len + 1 - lb.cur_pos) lb.cur_pos)
      (λ xs. some (record lb { result = xs; len = sub32 lb.len 1 }))

pub lb_init : LineBuff
lb_init = record {
  result = replicate 1024 0;
  len = 0;
  cur_pos = 0;
  history_pos = 0;
  cursor_start_x = 0;
}

-- The line of the history shown in place of the one edited.
abbrev pub show : LineBuff → Entry → Option (LbResult × LineBuff)
show lb (entry str) =
    if ltb (strlen str) (length lb.result)
    then some (
      replace,
      record lb { result = strcpy lb.result str; len = strlen str; cur_pos = strlen str },
    )
    else none
show lb _ = none

abbrev pub removed : Option LineBuff → Option (LbResult × LineBuff)
removed o = and_then o (λ lb. some (replace, lb))

pub key_history_up : LineBuff → History → Option (LbResult × LineBuff)
key_history_up lb h =
    if lb.history_pos == h.len
    then some (ignore, lb)
    else show (record lb { history_pos = add32 lb.history_pos 1 })
        (con_his_get h (sub32 (add32 lb.history_pos 1) 1))

pub key_history_down : LineBuff → History → Option (LbResult × LineBuff)
key_history_down lb h =
    if lb.history_pos == 0
    then some (ignore, lb)
    else let lb' = record lb { history_pos = sub32 lb.history_pos 1 } in
      if lb'.history_pos == 0
      then and_then (write lb'.result 0 0)
          (λ xs. some (replace, record lb' { result = xs; len = 0; cur_pos = 0 }))
      else show lb' (con_his_get h (sub32 lb'.history_pos 1))

pub lb_add_code : LineBuff → ℕ → History → Option (LbResult × LineBuff)
lb_add_code lb code h =
    if code == key_new_line
    then some (line_break, lb)
    else if code == key_up
    then key_history_up lb h
    else if code == key_down
    then key_history_down lb h
    else if code == key_backspace
    then (if lb.cur_pos == 0
        then some (replace, lb)
        else removed (remove (record lb { cur_pos = sub32 lb.cur_pos 1 })))
    else if code == key_del
    then (if ltb lb.cur_pos lb.len then removed (remove lb) else some (ignore, lb))
    else if code == key_left
    then (if lb.cur_pos == 0
        then some (replace, lb)
        else some (ignore, record lb { cur_pos = sub32 lb.cur_pos 1 }))
    else if code == key_right
    then (if lb.cur_pos == lb.len
        then some (replace, lb)
        else some (ignore, record lb { cur_pos = add32 lb.cur_pos 1 }))
    else and_then (insert lb code) (λ t. some (append_code, t))
