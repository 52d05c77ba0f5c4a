-- ===== src/Console/Enter.antt =====
-- drivers/console/console.c: the line that the Enter key hands to the readers of the console.
use model_lib.Common.{
  ℕ, zero, suc, ◌+◌, ◌%◌, ◌^◌, ◌≤◌, ◌<◌, ◌≡◌, refl, sym, ap, ◌∙◌, true, false, some, List, [], ◌∷◌,
  ◌++◌, arith, ◌==◌, length, get_or, take, drop, length-append, length-take,
}
use mathlib.Core.List.{append_assoc, append-nil}
use model_lib.KeyCodes.{key_new_line}
use model_lib.Keyboard.{KbEvent}
use model_lib.Cbuff
use model_lib.Cbuff.{Cbuff}
use model_lib.Cbuff.Inv.{IsValid, put-IsValid, len-put}
use model_lib.Cbuff.Refine.{contents, put_refines}
use model_lib.Cbuff.Queue
use model_lib.LineBuff.{LineBuff, line_break, lb_init}
use model_lib.Console.{Console, place_char, end_line, end_screen, put_visible}
use model_lib.Console.Lines.{
  put_line, accept_line, finish_key, start_line, on_kb_event, kb_is_ctrl, Taken, read_con,
}
use model_lib.LineBuff.Keys.{line_break_lem}
use model_lib.Console.Read.{read_con-IsRead}
use model_lib.Console.Putc.{putc_visible}

-- A put with room, and bytes that fit.
put-room :
    (b : Cbuff) (x : ℕ)
    → IsValid b
    → length (contents b) < b.len
    → x < 256
    → contents (Cbuff.put 8 b x) ≡ contents b ++ x ∷ []
unfolding Queue.put
put-room b x v room small =
    let open_ : (length (contents b) == b.len) ≡ false = ground arith in
    let byte : x % 2 ^ 8 ≡ x = omega arith in put_refines v 8 x ∙ rw (open_, byte) refl

take-drop :
    (xs : List ℕ) (i n : ℕ)
    → i < length xs
    → take (suc n) (drop i xs) ≡ get_or xs i 0 ∷ take n (drop (suc i) xs)
take-drop [] i n h = absurd (omega arith)
take-drop (x ∷ xs) zero n h = refl
take-drop (x ∷ xs) (suc i) n h = take-drop xs i n (omega arith)

put_line-IsValid : (b : Cbuff) (xs : List ℕ) (i n : ℕ) → IsValid b → IsValid (put_line b xs i n)
unfolding put_line
put_line-IsValid b xs i zero v = v
put_line-IsValid b xs i (suc n) v =
    put_line-IsValid (Cbuff.put 8 b (get_or xs i 0)) xs (suc i) n (put-IsValid 8 _ v)

put_line-len : (b : Cbuff) (xs : List ℕ) (i n : ℕ) → (put_line b xs i n).len ≡ b.len
unfolding put_line
put_line-len b xs i zero = refl
put_line-len b xs i (suc n) =
    put_line-len (Cbuff.put 8 b (get_or xs i 0)) xs (suc i) n ∙ len-put b 8 _

contents-put_line :
    (b : Cbuff) (xs : List ℕ) (i n : ℕ)
    → IsValid b
    → ((j : ℕ) → get_or xs j 0 < 256)
    → i + n ≤ length xs
    → length (contents b) + n ≤ b.len
    → contents (put_line b xs i n) ≡ contents b ++ take n (drop i xs)
unfolding put_line
contents-put_line b xs i zero v small inside room = sym (append-nil (contents b))
contents-put_line b xs i (suc n) v small inside room =
    let x = get_or xs i 0 in
    let b' = Cbuff.put 8 b x in
    let one = put-room b x v (omega arith) (small i) in
    let size : length (contents b') ≡ length (contents b) + 1 =
      ap length one ∙ length-append (contents b) (x ∷ []) in
    let rest =
      contents-put_line b' xs (suc i) n (put-IsValid 8 x v) small (omega arith)
        (omega (arith, len-put b 8 x)) in
    rest
    ∙ rw (one, take-drop xs i n (omega arith))
        (append_assoc (contents b) (x ∷ []) (take n (drop (suc i) xs)))

-- The characters of the line that is being edited.
abbrev pub line_text : LineBuff → List ℕ
line_text lb = take lb.len lb.result

-- What an entered line needs: it is held in its storage as bytes, and the input buffer has room for
-- it and for the end of line.
pub record IsReady (s : Console) : Type 0 where
  pub printing : s.in_esc ≡ false
  pub input : IsValid s.input_buff
  pub held : s.line_buff.len ≤ length s.line_buff.result
  pub bytes : (j : ℕ) → get_or s.line_buff.result j 0 < 256
  pub room : length (contents s.input_buff) + s.line_buff.len < s.input_buff.len

contents-accept :
    (s : Console)
    → IsReady s
    → (contents (accept_line s).input_buff
        ≡ contents s.input_buff ++ (line_text s.line_buff ++ key_new_line ∷ []))
      × IsValid (accept_line s).input_buff
unfolding accept_line
contents-accept s h =
    let line = s.line_buff in
    let b = put_line s.input_buff line.result 0 line.len in
    let v = put_line-IsValid s.input_buff line.result 0 line.len h.input in
    let all =
      contents-put_line s.input_buff line.result 0 line.len h.input h.bytes (omega (arith, h.held))
        (omega (arith, h.room)) in
    let size : length (contents b) ≡ length (contents s.input_buff) + line.len =
      ap length all
      ∙ length-append (contents s.input_buff) (line_text line)
      ∙ omega (arith, length-take line.len line.result, h.held) in
    let last =
      put-room b key_new_line v
        (omega (arith, put_line-len s.input_buff line.result 0 line.len, h.room)) (omega arith) in
    (
      last ∙ rw all (append_assoc (contents s.input_buff) (line_text line) (key_new_line ∷ [])),
      put-IsValid 8 key_new_line v,
    )

-- What is printed changes neither the line nor the input.
visible_keeps :
    (s : Console) (c : ℕ)
    → ((put_visible s c).line_buff ≡ s.line_buff)
      × ((put_visible s c).input_buff ≡ s.input_buff)
      × ((put_visible s c).in_esc ≡ s.in_esc)
unfolding put_visible place_char end_line end_screen
visible_keeps s c = (ground arith, ground arith, ground arith)

start_keeps :
    (s : Console)
    → ((start_line s).result ≡ s.line_buff.result) × ((start_line s).len ≡ s.line_buff.len)
start_keeps s = (ground arith, ground arith)

break_line :
    (s : Console) (cur_len : ℕ)
    → s.in_esc ≡ false
    → finish_key s key_new_line cur_len line_break
      ≡ some (accept_line (put_visible s key_new_line), true)
unfolding finish_key
break_line s cur_len e = rw (putc_visible s key_new_line refl e) refl

accept_starts : (s : Console) → (accept_line s).line_buff ≡ lb_init
unfolding accept_line
accept_starts s = refl

-- The console at the end of the line, with the line as it is looked at.
abbrev broken : Console → Console
broken s = put_visible (record s { line_buff = start_line s }) key_new_line

broken_keeps :
    (s : Console)
    → (line_text (broken s).line_buff ≡ line_text s.line_buff)
      × ((broken s).input_buff ≡ s.input_buff)
broken_keeps s =
    let s' : Console = record s { line_buff = start_line s } in
    let k = visible_keeps s' key_new_line in
    let l = start_keeps s in (ap line_text k.0 ∙ rw (l.0, l.1) refl, k.1)

broken-IsReady : (s : Console) → IsReady s → IsReady (broken s)
broken-IsReady s h =
    let s' : Console = record s { line_buff = start_line s } in
    let k = visible_keeps s' key_new_line in
    let l = start_keeps s in
    record {
      printing = k.2 ∙ h.printing;
      input = rw k.1 h.input;
      held = rw (k.0, l.0, l.1) h.held;
      bytes = rw (k.0, l.0) h.bytes;
      room = rw (k.0, k.1, l.1) h.room;
    }

key_enter :
    (s : Console) (kbe : KbEvent)
    → s.in_esc ≡ false
    → kbe.pressed ≡ true
    → kbe.code ≡ key_new_line
    → kb_is_ctrl kbe.state ≡ false
    → on_kb_event s kbe ≡ some (accept_line (broken s), true)
unfolding on_kb_event
key_enter s kbe printing down enter no_ctrl =
    rw (down, no_ctrl, enter, line_break_lem (start_line s) s.history)
      (break_line (record s { line_buff = start_line s }) s.line_buff.len printing)

take_whole : (xs : List ℕ) → take (length xs) xs ≡ xs
take_whole [] = refl
take_whole (x ∷ xs) = ap (λ l. x ∷ l) (take_whole xs)

-- Enter, pressed on a console that is ready for it, puts the characters of the line and an end of
-- line behind the input that was waiting, starts a new line and wakes the readers; and a program
-- that then reads that many bytes gets exactly these, in order, without waiting.
pub enter-read :
    (s : Console) (kbe : KbEvent)
    → IsReady s
    → kbe.pressed ≡ true
    → kbe.code ≡ key_new_line
    → kb_is_ctrl kbe.state ≡ false
    → let input = contents s.input_buff ++ (line_text s.line_buff ++ key_new_line ∷ []) in
      (t : Console) × (on_kb_event s kbe ≡ some (t, true))
      × (t.line_buff ≡ lb_init)
      × (r : Taken) × (read_con t.input_buff (length input) ≡ some r)
      × (r.bytes ≡ input)
      × (r.left ≡ 0)
enter-read s kbe ready down enter no_ctrl =
    let t = accept_line (broken s) in
    let input = contents s.input_buff ++ (line_text s.line_buff ++ key_new_line ∷ []) in
    let accepted = contents-accept (broken s) (broken-IsReady s ready) in
    let keeps = broken_keeps s in
    let now : contents t.input_buff ≡ input = accepted.0 ∙ rw (keeps.0, keeps.1) refl in
    let r = read_con-IsRead t.input_buff (length input) accepted.1 in
    (
      t,
      key_enter s kbe ready.printing down enter no_ctrl,
      accept_starts (broken s),
      r.0,
      r.1,
      r.2.bytes ∙ rw now (take_whole input),
      r.2.left ∙ rw now (omega arith),
    )
