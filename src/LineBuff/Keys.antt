-- ===== src/LineBuff/Keys.antt =====
-- drivers/console/line_buff.c: `lb_add_code` on every key, with the history of
-- drivers/console/history.c.
use model_lib.Common.{
  and_then, ℕ, ◌+◌, ◌-◌, ◌<◌, ◌≤◌, ◌≡◌, ◌≢◌, refl, inl, inr, some, arith, if◌then◌else◌, ltb, ◌==◌,
  Bool-cases, add32, sub32,
}
use model_lib.KeyCodes.{key_backspace, key_new_line, key_del, key_left, key_right, key_up, key_down}
use model_lib.LineBuff.{
  LineBuff, History, replace, ignore, append_code, line_break, insert, remove, removed, lb_add_code,
}
use model_lib.LineBuff.Edit.{insert-Inserted, remove-Removed}
use model_lib.LineBuff.Recall.{IsHistory, IsLine, Keeps, up-Keeps, down-Keeps}

module _ (h : History) (past : IsHistory h) where
  back-Keeps :
      (lb : LineBuff)
      → IsLine h lb
      → lb.cur_pos < lb.len
      → lb.len + 1 < 1024
      → Keeps h (removed (remove lb))
  back-Keeps lb l on room =
      let r = remove-Removed lb l.valid on room in
      let place = l.place in
      let same = r.2.place in
      let there : r.0.history_pos ≤ h.len = omega arith in
      (replace, r.0, rw r.1 refl, record { valid = r.2.valid; place = there })

  insert-Keeps :
      (lb : LineBuff) (code : ℕ)
      → IsLine h lb
      → lb.len + 1 < 1024
      → Keeps h (and_then (insert lb code) (λ t. some (append_code, t)))
  insert-Keeps lb code l room =
      let r = insert-Inserted lb code l.valid room in
      let place = l.place in
      let same = r.2.place in
      let there : r.0.history_pos ≤ h.len = omega arith in
      (append_code, r.0, rw r.1 refl, record { valid = r.2.valid; place = there })

  -- A valid line with its cursor elsewhere.
  moved-IsLine :
      (lb : LineBuff) (p : ℕ) → IsLine h lb → p ≤ lb.len → IsLine h (record lb { cur_pos = p })
  moved-IsLine lb p l c = record {
    valid = record { size = l.valid.size; cursor = c; fits = l.valid.fits; end = l.valid.end };
    place = l.place;
  }

  backspace-Keeps :
      (lb : LineBuff)
      → IsLine h lb
      → lb.len + 1 < 1024
      → Keeps h (
          if lb.cur_pos == 0
          then some (replace, lb)
          else removed (remove (record lb { cur_pos = sub32 lb.cur_pos 1 })))
  backspace-Keeps lb l room = elim (Bool-cases (lb.cur_pos == 0)) [
    | inl e ↦ rw e (replace, lb, refl, l)
    | inr e ↦
        let c = l.valid.cursor in
        let ne : lb.cur_pos ≢ 0 = ground (arith, e) in
        let less : sub32 lb.cur_pos 1 ≡ lb.cur_pos - 1 = omega arith in
        rw (e, less)
          (back-Keeps _ (moved-IsLine lb (lb.cur_pos - 1) l (omega arith)) (omega arith) room)
  ]

  del-Keeps :
      (lb : LineBuff)
      → IsLine h lb
      → lb.len + 1 < 1024
      → Keeps h (if ltb lb.cur_pos lb.len then removed (remove lb) else some (ignore, lb))
  del-Keeps lb l room = elim (Bool-cases (ltb lb.cur_pos lb.len)) [
    | inl e ↦ rw e (back-Keeps lb l (ground (arith, e)) room)
    | inr e ↦ rw e (ignore, lb, refl, l)
  ]

  left-Keeps :
      (lb : LineBuff)
      → IsLine h lb
      → Keeps h (
          if lb.cur_pos == 0
          then some (replace, lb)
          else some (ignore, record lb { cur_pos = sub32 lb.cur_pos 1 }))
  left-Keeps lb l = elim (Bool-cases (lb.cur_pos == 0)) [
    | inl e ↦ rw e (replace, lb, refl, l)
    | inr e ↦
        let c = l.valid.cursor in
        let f = l.valid.fits in
        let ne : lb.cur_pos ≢ 0 = ground (arith, e) in
        rw e (ignore, _, refl, moved-IsLine lb (sub32 lb.cur_pos 1) l (omega arith))
  ]

  right-Keeps :
      (lb : LineBuff)
      → IsLine h lb
      → Keeps h (
          if lb.cur_pos == lb.len
          then some (replace, lb)
          else some (ignore, record lb { cur_pos = add32 lb.cur_pos 1 }))
  right-Keeps lb l = elim (Bool-cases (lb.cur_pos == lb.len)) [
    | inl e ↦ rw e (replace, lb, refl, l)
    | inr e ↦
        let c = l.valid.cursor in
        let f = l.valid.fits in
        let ne : lb.cur_pos ≢ lb.len = ground (arith, e) in
        rw e (ignore, _, refl, moved-IsLine lb (add32 lb.cur_pos 1) l (omega arith))
  ]

  -- With a history of strings that fit into a line, and a line with room for one more character
  -- whose place in the history exists, `lb_add_code` of any code ends: no ASSERT fails, it reads and
  -- writes only within the line, and it leaves a valid line whose place in the history exists.
  pub lb_add_code-Keeps :
      (lb : LineBuff) (code : ℕ) → IsLine h lb → lb.len + 1 < 1024 → Keeps h (lb_add_code lb code h)
  unfolding lb_add_code
  lb_add_code-Keeps lb code l room = elim (Bool-cases (code == key_new_line)) [
    | inl e ↦ rw e (line_break, lb, refl, l)
    | inr e ↦ rw e (elim (Bool-cases (code == key_up)) [
      | inl e ↦ rw e (up-Keeps h past lb l)
      | inr e ↦ rw e (elim (Bool-cases (code == key_down)) [
        | inl e ↦ rw e (down-Keeps h past lb l)
        | inr e ↦ rw e (elim (Bool-cases (code == key_backspace)) [
          | inl e ↦ rw e (backspace-Keeps lb l room)
          | inr e ↦ rw e (elim (Bool-cases (code == key_del)) [
            | inl e ↦ rw e (del-Keeps lb l room)
            | inr e ↦ rw e (elim (Bool-cases (code == key_left)) [
              | inl e ↦ rw e (left-Keeps lb l)
              | inr e ↦ rw e (elim (Bool-cases (code == key_right)) [
                | inl e ↦ rw e (right-Keeps lb l)
                | inr e ↦ rw e (insert-Keeps lb code l room)
              ])
            ])
          ])
        ])
      ])
    ])
  ]

pub line_break_lem :
    (lb : LineBuff) (h : History) → lb_add_code lb key_new_line h ≡ some (line_break, lb)
unfolding lb_add_code
line_break_lem lb h = refl
