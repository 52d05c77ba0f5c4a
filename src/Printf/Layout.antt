-- ===== src/Printf/Layout.antt =====
-- libc/printf_helper.c: what `_emit_str` leaves in the buffer.
use model_lib.Common.{
  ℕ, zero, suc, ◌+◌, ◌-◌, ◌<◌, ◌≤◌, ◌≡◌, refl, ap, ◌∙◌, sym, inl, inr, Bool, true, false, List, [],
  ◌∷◌, ◌++◌, arith, if◌then◌else◌, ltb, ◌==◌, Bool-cases, length, set, take, replicate, add32,
  u32_mod, length-set,
}
use mathlib.Core.Path.{subst}
use model_lib.CString.Copy.{text}
use model_lib.Printf.{Out, emit, emit_pad, emit_chars, width_of, emit_str}

unfoldable pub emit_list : (buff_sz : ℕ) → List ℕ → Out → Out
emit_list sz [] o = o
emit_list sz (c ∷ cs) o = emit_list sz cs (emit sz c o)

pub emit_list-append :
    (sz : ℕ) (xs ys : List ℕ) (o : Out)
    → emit_list sz (xs ++ ys) o ≡ emit_list sz ys (emit_list sz xs o)
unfolding emit_list
emit_list-append sz [] ys o = refl
emit_list-append sz (x ∷ xs) ys o = emit_list-append sz xs ys (emit sz x o)

emit_pad-emit_list :
    (sz pad n : ℕ) (o : Out) → emit_pad sz pad n o ≡ emit_list sz (replicate n pad) o
unfolding emit_pad emit_list
emit_pad-emit_list sz pad zero o = refl
emit_pad-emit_list sz pad (suc n) o = emit_pad-emit_list sz pad n (emit sz pad o)

take-none : (n : ℕ) → take {A = ℕ} n [] ≡ []
take-none zero = refl
take-none (suc n) = refl

emit_chars-emit_list :
    (sz : ℕ) (s : List ℕ) (n : ℕ) (o : Out) → emit_chars sz s n o ≡ emit_list sz (take n (text s)) o
unfolding emit_chars emit_list text
emit_chars-emit_list sz [] n o = ap (λ cs. emit_list sz cs o) (sym (take-none n))
emit_chars-emit_list sz (c ∷ s) zero o = refl
emit_chars-emit_list sz (c ∷ s) (suc n) o = elim (Bool-cases (c == 0)) [
  | inl e ↦ rw e refl
  | inr e ↦ rw e (emit_chars-emit_list sz s n (emit sz c o))
]

-- `r` is `o` with `cs` appended to what stands before its place.
pub record Appended (o : Out) (cs : List ℕ) (r : Out) : Type 0 where
  pub text : take r.pos r.buff ≡ take o.pos o.buff ++ cs
  pub pos : r.pos ≡ o.pos + length cs
  pub count : r.count ≡ o.count + length cs
  pub size : length r.buff ≡ length o.buff

append_nil : (xs : List ℕ) → xs ++ [] ≡ xs
append_nil [] = refl
append_nil (x ∷ xs) = ap (λ t. x ∷ t) (append_nil xs)

append_assoc : (xs ys zs : List ℕ) → (xs ++ ys) ++ zs ≡ xs ++ (ys ++ zs)
append_assoc [] ys zs = refl
append_assoc (x ∷ xs) ys zs = ap (λ t. x ∷ t) (append_assoc xs ys zs)

take-set : (xs : List ℕ) (i v : ℕ) → i < length xs → take (suc i) (set xs i v) ≡ take i xs ++ v ∷ []
take-set [] i v h = absurd (omega arith)
take-set (x ∷ xs) zero v h = refl
take-set (x ∷ xs) (suc i) v h = ap (λ t. x ∷ t) (take-set xs i v (omega arith))

pub emit_list-Appended :
    (sz : ℕ) (cs : List ℕ) (o : Out)
    → o.pos ≤ sz
    → sz ≤ length o.buff
    → sz < u32_mod
    → Appended o (take (sz - o.pos) cs) (emit_list sz cs o)
unfolding emit_list emit
emit_list-Appended sz [] o h fits small = rw (take-none (sz - o.pos)) (record {
  text = sym (append_nil (take o.pos o.buff));
  pos = omega arith;
  count = omega arith;
  size = refl;
})
emit_list-Appended sz (c ∷ cs) o h fits small = elim (Bool-cases (ltb o.pos sz)) [
  | inl e ↦
      let room : o.pos < sz = ground (arith, e) in
      let next : add32 o.pos 1 ≡ suc o.pos = omega arith in
      let left : sz - o.pos ≡ suc (sz - suc o.pos) = omega arith in
      let o' : Out = record { buff = set o.buff o.pos c; pos = suc o.pos; count = o.count + 1 } in
      let size = length-set o.buff o.pos c in
      let ih = emit_list-Appended sz cs o' (omega arith) (omega (arith, size)) small in
      let pos = ih.pos in
      let count = ih.count in
      let one = ap (λ t. t ++ take (sz - suc o.pos) cs) (take-set o.buff o.pos c (omega arith)) in
      rw (e, next, left)
        (record {
          text =
              ih.text ∙ one ∙ append_assoc (take o.pos o.buff) (c ∷ []) (take (sz - suc o.pos) cs);
          pos = omega arith;
          count = omega arith;
          size = ih.size ∙ size;
        })
  | inr e ↦
      let over : sz ≤ o.pos = ground (arith, e) in
      let ih = emit_list-Appended sz cs o h fits small in
      let left : sz - o.pos ≡ 0 = omega arith in rw (e, left) (rw left at ih)
]

-- The characters that `_emit_str` writes: at most the width of the string, and the padding before
-- or behind.
unfoldable pub laid_out : List ℕ → (len width pad : ℕ) → (r_justify : Bool) → List ℕ
laid_out str len width pad r_justify =
    let w = width_of len width in
    let pads = replicate (w - len) pad in
    let shown = take w (text str) in if r_justify then pads ++ shown else shown ++ pads

pub emit_str-emit_list :
    (sz : ℕ) (str : List ℕ) (len width pad : ℕ) (r_justify : Bool) (o : Out)
    → emit_str sz str len width pad r_justify o
      ≡ emit_list sz (laid_out str len width pad r_justify) o
unfolding emit_str laid_out
emit_str-emit_list sz str len width pad true o =
    let w = width_of len width in
    let pads = replicate (w - len) pad in
    emit_chars-emit_list sz str w (emit_pad sz pad (w - len) o)
    ∙ ap (emit_list sz (take w (text str))) (emit_pad-emit_list sz pad (w - len) o)
    ∙ sym (emit_list-append sz pads (take w (text str)) o)
emit_str-emit_list sz str len width pad false o =
    let w = width_of len width in
    let pads = replicate (w - len) pad in
    emit_pad-emit_list sz pad (w - len) (emit_chars sz str w o)
    ∙ ap (emit_list sz pads) (emit_chars-emit_list sz str w o)
    ∙ sym (emit_list-append sz (take w (text str)) pads o)

-- With its place within the bound and the bound within the buffer, `_emit_str` appends the padded
-- string as far as the bound allows: the characters before its place stay, those written follow
-- them, the place and the count grow by their number, and the buffer keeps its size.
pub emit_str-Appended :
    (sz : ℕ) (str : List ℕ) (len width pad : ℕ) (r_justify : Bool) (o : Out)
    → o.pos ≤ sz
    → sz ≤ length o.buff
    → sz < u32_mod
    → Appended o
        (take (sz - o.pos) (laid_out str len width pad r_justify))
        (emit_str sz str len width pad r_justify o)
emit_str-Appended sz str len width pad r_justify o h fits small =
    subst (Appended o (take (sz - o.pos) (laid_out str len width pad r_justify)))
      (sym (emit_str-emit_list sz str len width pad r_justify o))
      (emit_list-Appended sz (laid_out str len width pad r_justify) o h fits small)
