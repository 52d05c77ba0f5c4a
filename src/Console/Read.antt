-- ===== src/Console/Read.antt =====
-- drivers/console/console.c: what `_read_con` takes from the input buffer.
use model_lib.Common.{
  ℕ, zero, suc, ◌-◌, ◌≡◌, refl, ap, ◌∙◌, none, some, List, [], ◌∷◌, arith, length, take, drop,
}
use model_lib.Cbuff
use model_lib.Cbuff.{Cbuff}
use model_lib.Cbuff.Inv.{IsValid, get-IsValid}
use model_lib.Cbuff.Refine.{contents, get_refines}
use model_lib.Cbuff.Queue
use model_lib.Console.Lines.{Taken, add_byte, read_con}

-- A reader takes the oldest bytes, and waits for as many as it lacks.
pub record IsRead (q : List ℕ) (n : ℕ) (t : Taken) : Type 0 where
  pub bytes : t.bytes ≡ take n q
  pub left : t.left ≡ n - length q
  pub kept : contents t.from ≡ drop n q
  pub valid : IsValid t.from

IsRead-cons :
    (b b' : Cbuff) (v n : ℕ) (q : List ℕ)
    (r : (t : Taken) × (read_con b' n ≡ some t) × IsRead q n t)
    → Cbuff.get b ≡ (some (some v), b')
    → (t : Taken) × (read_con b (suc n) ≡ some t) × IsRead (v ∷ q) (suc n) t
unfolding read_con
IsRead-cons b b' v n q (t, e, h) g = (
  add_byte v t,
  rw (g, e) refl,
  record {
    bytes = ap (λ l. v ∷ l) h.bytes;
    left = omega (arith, h.left);
    kept = h.kept;
    valid = h.valid;
  },
)

IsRead-nil :
    (b b' : Cbuff) (n : ℕ)
    → Cbuff.get b ≡ (none, b')
    → IsValid b'
    → contents b' ≡ []
    → (t : Taken) × (read_con b (suc n) ≡ some t) × IsRead [] (suc n) t
unfolding read_con
IsRead-nil b b' n g v e = (
  record { bytes = []; left = suc n; from = b' },
  rw g refl,
  record { bytes = refl; left = omega arith; kept = e; valid = v },
)

Reads : Cbuff → List ℕ → ℕ → Type 0
Reads b q n = (t : Taken) × (read_con b n ≡ some t) × IsRead q n t

read_step :
    (b : Cbuff) (n : ℕ) (q : List ℕ)
    → IsValid b
    → contents b ≡ q
    → Reads (Cbuff.get b).1 (contents (Cbuff.get b).1) n
    → Reads b q (suc n)
unfolding Queue.get Reads
read_step b n [] v e ih =
    let at : ((Cbuff.get b).0, contents (Cbuff.get b).1) ≡ (none, []) = get_refines v ∙ rw e refl in
    IsRead-nil b (Cbuff.get b).1 n (ap (λ p. (p.0, (Cbuff.get b).1)) at) (get-IsValid v)
      (ap (λ p. p.1) at)
read_step b n (x ∷ q) v e ih =
    let at : ((Cbuff.get b).0, contents (Cbuff.get b).1) ≡ (some (some x), q) =
      get_refines v ∙ rw e refl in
    let rest : Reads (Cbuff.get b).1 q n = rw (ap (λ p. p.1) at) at ih in
    IsRead-cons b (Cbuff.get b).1 x n q rest (ap (λ p. (p.0, (Cbuff.get b).1)) at)

-- `_read_con` takes the oldest bytes of the input, in order and as many as it wants or there are, and
-- leaves the others; it waits for as many as it lacks.
pub read_con-IsRead :
    (b : Cbuff) (n : ℕ)
    → IsValid b
    → (t : Taken) × (read_con b n ≡ some t) × IsRead (contents b) n t
unfolding read_con Reads
read_con-IsRead b zero v = (
  record { bytes = []; left = 0; from = b },
  refl,
  record { bytes = refl; left = omega arith; kept = refl; valid = v },
)
read_con-IsRead b (suc n) v =
    read_step b n (contents b) v refl (read_con-IsRead (Cbuff.get b).1 n (get-IsValid v))
