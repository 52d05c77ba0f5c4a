-- ===== src/LineBuff/Tests.antt =====
-- Runs of the line editor, and its theorems at concrete lines.
use model_lib.Common.{ℕ, ◌-◌, ◌≡◌, refl, some, List, [], ◌∷◌, arith, replicate, set, ◌++◌}
use model_lib.CString.{strlen}
use model_lib.KeyCodes.{key_up}
use model_lib.LineBuff.{
  LineBuff, History, no_entry, head_entry, entry, con_his_create, con_his_add, con_his_get, walk,
  insert, remove, lb_init, lb_add_code,
}
use model_lib.LineBuff.Edit.{IsValid, Inserted, Removed, insert-Inserted, remove-Removed}
use model_lib.LineBuff.Recall.{IsHistory, Keeps}
use model_lib.LineBuff.Keys.{lb_add_code-Keeps}

-- A line of 1024 bytes that starts with these.
abbrev line_of : List ℕ → (n cur : ℕ) → LineBuff
line_of s n cur = record {
  result = s ++ replicate (1024 - n) 0;
  len = n;
  cur_pos = cur;
  history_pos = 0;
  cursor_start_x = 0;
}

abbrev ad : LineBuff
ad = line_of (b'a' ∷ b'd' ∷ []) 2 1

abbrev past : History
past = record { items = (b'l' ∷ b's' ∷ 0 ∷ []) ∷ (b'c' ∷ b'd' ∷ 0 ∷ []) ∷ []; len = 2 }

history_of_two :
    con_his_add (con_his_add con_his_create (b'c' ∷ b'd' ∷ 0 ∷ [])) (b'l' ∷ b's' ∷ 0 ∷ []) ≡ past
unfolding con_his_add con_his_create
history_of_two = refl

second : con_his_get past 1 ≡ entry (b'c' ∷ b'd' ∷ 0 ∷ [])
unfolding con_his_get walk
second = refl

behind_last : con_his_get past 2 ≡ head_entry
unfolding con_his_get walk
behind_last = refl

beyond : con_his_get past 3 ≡ no_entry
unfolding con_his_get walk
beyond = refl

ad-IsValid : IsValid ad
ad-IsValid = record { size = refl; cursor = omega arith; fits = omega arith; end = refl }

past-IsHistory : IsHistory past
unfolding strlen
past-IsHistory = record {
  short = (omega arith, (omega arith, tt));
  counted = refl;
  bounded = omega arith;
}

insert-Inserted_example : (t : LineBuff) × (insert ad b'n' ≡ some t) × Inserted ad b'n' t
insert-Inserted_example = insert-Inserted ad b'n' ad-IsValid (omega arith)

remove-Removed_example : (t : LineBuff) × (remove ad ≡ some t) × Removed ad t
remove-Removed_example = remove-Removed ad ad-IsValid (omega arith) (omega arith)

lb_init-IsValid : IsValid lb_init
unfolding lb_init
lb_init-IsValid = record { size = refl; cursor = omega arith; fits = omega arith; end = refl }

-- A line of 1023 characters with the cursor at its start.
abbrev full_line : LineBuff
full_line = record {
  result = set (replicate 1024 b'x') 1023 0;
  len = 1023;
  cur_pos = 0;
  history_pos = 0;
  cursor_start_x = 0;
}

full_line-IsValid : IsValid full_line
full_line-IsValid = record { size = refl; cursor = omega arith; fits = omega arith; end = refl }

lb_add_code-Keeps_example : Keeps past (lb_add_code ad key_up past)
lb_add_code-Keeps_example =
    lb_add_code-Keeps past past-IsHistory ad key_up
      (record { valid = ad-IsValid; place = omega arith }) (omega arith)
