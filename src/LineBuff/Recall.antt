-- ===== src/LineBuff/Recall.antt =====
-- drivers/console/line_buff.c and history.c: walking through the lines entered before.
use model_lib.Common.{
  ℕ, zero, suc, ◌+◌, ◌-◌, ◌<◌, ◌≤◌, ◌≡◌, ◌≢◌, refl, ◌∙◌, inl, inr, true, Option, some, List, [],
  ◌∷◌, arith, ltb, ◌==◌, Bool-cases, length, set, add32, sub32, u32_mod, length-set,
  get_or-set_self,
}
use model_lib.CString.{strlen, strcpy}
use model_lib.CString.Copy.{text-strcpy, strcpy-end}
use model_lib.LineBuff.{
  LineBuff, History, entry, LbResult, replace, ignore, show, walk, con_his_get, key_history_up,
  key_history_down,
}
use model_lib.LineBuff.Shift.{write-some}
use model_lib.LineBuff.Edit.{IsValid}

-- Every string of the history fits into the line with its terminator.
abbrev pub Short : List (List ℕ) → Type 0
Short [] = Unit {0}
Short (x ∷ xs) = (strlen x < 1024) × Short xs

pub record IsHistory (h : History) : Type 0 where
  pub short : Short h.items
  pub counted : h.len ≡ length h.items
  pub bounded : h.len + 1 < u32_mod

-- A line and its place in the history.
pub record IsLine (h : History) (lb : LineBuff) : Type 0 where
  pub valid : IsValid lb
  pub place : lb.history_pos ≤ h.len

-- `lb_add_code` ends without a failed ASSERT or an access outside the line, and leaves a line.
abbrev pub Keeps : History → Option (LbResult × LineBuff) → Type 0
Keeps h o = (r : LbResult) × (t : LineBuff) × (o ≡ some (r, t)) × IsLine h t

walk-entry :
    (xs : List (List ℕ)) (i : ℕ)
    → Short xs
    → i < length xs
    → (x : List ℕ) × (walk xs i ≡ entry x) × (strlen x < 1024)
unfolding walk
walk-entry [] i s h = absurd (omega arith)
walk-entry (x ∷ xs) zero s h = (x, refl, s.0)
walk-entry (x ∷ xs) (suc i) s h = walk-entry xs i s.1 (omega arith)

module _ (h : History) (past : IsHistory h) where
  show-Keeps :
      (lb : LineBuff) (i : ℕ) → IsLine h lb → i < h.len → Keeps h (show lb (con_his_get h i))
  unfolding con_his_get
  show-Keeps lb i l small =
      let counted = past.counted in
      let size = l.valid.size in
      let w = walk-entry h.items i past.short (omega arith) in
      let fits = w.2 in
      let room : strlen w.0 < length lb.result = omega arith in
      let test : ltb (strlen w.0) (length lb.result) ≡ true = ground arith in
      (
        replace,
        record lb { result = strcpy lb.result w.0; len = strlen w.0; cur_pos = strlen w.0 },
        rw (w.1, test) refl,
        record {
          valid = record {
            size = (text-strcpy lb.result w.0 room).2 ∙ size;
            cursor = omega arith;
            fits = fits;
            end = strcpy-end lb.result w.0 room;
          };
          place = l.place;
        },
      )

  pub up-Keeps : (lb : LineBuff) → IsLine h lb → Keeps h (key_history_up lb h)
  unfolding key_history_up
  up-Keeps lb l =
      let place = l.place in
      let bounded = past.bounded in
      elim (Bool-cases (lb.history_pos == h.len)) [
        | inl e ↦ rw e (ignore, lb, refl, l)
        | inr e ↦
            let ne : lb.history_pos ≢ h.len = ground (arith, e) in
            let moved : add32 lb.history_pos 1 ≡ lb.history_pos + 1 = omega arith in
            let index : sub32 (lb.history_pos + 1) 1 ≡ lb.history_pos = omega arith in
            let l' : IsLine h (record lb { history_pos = lb.history_pos + 1 }) = record {
              valid = record {
                size = l.valid.size;
                cursor = l.valid.cursor;
                fits = l.valid.fits;
                end = l.valid.end;
              };
              place = omega arith;
            } in
            rw (e, moved, index) (show-Keeps _ lb.history_pos l' (omega arith))
      ]

  pub down-Keeps : (lb : LineBuff) → IsLine h lb → Keeps h (key_history_down lb h)
  unfolding key_history_down
  down-Keeps lb l =
      let place = l.place in
      let bounded = past.bounded in
      let size = l.valid.size in
      elim (Bool-cases (lb.history_pos == 0)) [
        | inl e ↦ rw e (ignore, lb, refl, l)
        | inr e ↦
            let ne : lb.history_pos ≢ 0 = ground (arith, e) in
            let p = lb.history_pos - 1 in
            let moved : sub32 lb.history_pos 1 ≡ lb.history_pos - 1 = omega arith in
            let at_line : IsLine h (record lb { history_pos = p }) = record {
              valid = record {
                size = l.valid.size;
                cursor = l.valid.cursor;
                fits = l.valid.fits;
                end = l.valid.end;
              };
              place = omega arith;
            } in
            elim (Bool-cases (p == 0)) [
              | inl f ↦
                  let first = write-some lb.result 0 0 (omega arith) in
                  rw (e, moved, f, first)
                    (
                      replace,
                      record lb {
                        result = set lb.result 0 0;
                        len = 0;
                        cur_pos = 0;
                        history_pos = p;
                      },
                      refl,
                      record {
                        valid = record {
                          size = length-set lb.result 0 0 ∙ size;
                          cursor = omega arith;
                          fits = omega arith;
                          end = get_or-set_self lb.result 0 0 0 (omega arith);
                        };
                        place = omega arith;
                      },
                    )
              | inr f ↦
                  let ne' : p ≢ 0 = ground (arith, f) in
                  let index : sub32 p 1 ≡ p - 1 = omega arith in
                  rw (e, moved, f, index) (show-Keeps _ (p - 1) at_line (omega arith))
            ]
      ]
