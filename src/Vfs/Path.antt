-- ===== src/Vfs/Path.antt =====
-- kernel/vfs/vfs.c: what a path from the root stands for.
use mathlib.Core.Logic.{◌↔◌}
use model_lib.Common.{
  ℕ, suc, ◌<◌, ◌≤◌, ◌≡◌, ◌≢◌, refl, ap, inl, inr, true, false, none, some, List, [], ◌∷◌, arith,
  ◌==◌, Bool-cases, get_or, ltb,
}
use model_lib.CString.{strlen, streq}
use model_lib.CString.Copy.{text}
use model_lib.CString.Compare.{streq_iff}
use model_lib.Vfs.{Ptr, Nodes, Found, fs_get_abs_path, copied, skip}
use model_lib.Vfs.Cut.{names, text_end, text_more}
use model_lib.Vfs.Walk.{LedTo, get_node-LedTo}

strlen-copied : (s : List ℕ) → strlen (copied s) ≡ strlen s
unfolding strlen text
strlen-copied [] = refl
strlen-copied (c ∷ s) = elim (Bool-cases (c == 0)) [
  | inl e ↦ rw e refl
  | inr e ↦ rw (e, e) (ap suc (strlen-copied s))
]

pub text-copied : (s : List ℕ) → text (copied s) ≡ text s
unfolding text
text-copied [] = refl
text-copied (c ∷ s) = elim (Bool-cases (c == 0)) [
  | inl e ↦ rw e refl
  | inr e ↦ rw (e, e) (ap (λ t. c ∷ t) (text-copied s))
]

strlen-skip : (path : List ℕ) → strlen (skip path) ≤ strlen path
unfolding strlen
strlen-skip [] = omega arith
strlen-skip (c ∷ s) = ground arith

skip_more : (path : List ℕ) → 0 < strlen path → text path ≢ b'/' ∷ [] → 0 < strlen (skip path)
unfolding strlen text
skip_more [] h ne = absurd (omega arith)
skip_more (c ∷ s) h ne = elim (Bool-cases (c == b'/')) [
  | inl e ↦ rw e (elim (Bool-cases (get_or s 0 0 == 0)) [
    | inl z ↦
        let n0 : (c == 0) ≡ false = ground arith in
        let same : c ≡ b'/' = ground arith in absurd (ne (rw (n0, text_end s z, same) refl))
    | inr z ↦ (text_more s z).0
  ])
  | inr e ↦ rw e h
]

-- `fs_get_abs_path` on a path that is not empty, with fuel for its bytes, ends. A path of 1,024
-- bytes or more gives NULL. Any other gives the node that its names lead to from the root, be there
-- a separator in front of the first name or none, and the root for the path "/". With a node other
-- than by "/" it gives as the parent what all names but the last lead to; for "/" nothing is
-- written there.
pub fs_get_abs_path-LedTo :
    (fuel : ℕ) (ns : Nodes) (root : Ptr) (path : List ℕ)
    → 0 < strlen path
    → strlen path < fuel
    → (r : Found) × (fs_get_abs_path fuel ns root path ≡ some r)
      × (1024 ≤ strlen path → r ≡ (0, none))
      × (strlen path < 1024 → text path ≡ b'/' ∷ [] → r ≡ (root, none))
      × (strlen path < 1024 → text path ≢ b'/' ∷ [] → LedTo ns root (names (text (skip path))) r)
unfolding fs_get_abs_path text
fs_get_abs_path-LedTo fuel ns root path pos enough = elim (Bool-cases (ltb 1023 (strlen path))) [
  | inl e ↦
      rw e ((0, none), refl, λ p. refl, λ p q. absurd (ground arith), λ p q. absurd (ground arith))
  | inr e ↦
      let short : strlen path < 1024 = ground arith in
      rw e (elim (Bool-cases (streq path slash)) [
        | inl z ↦ rw z (
          (root, none),
          refl,
          λ p. absurd (omega arith),
          λ p q. refl,
          λ p q. absurd (q (is_slash.0 z)),
        )
        | inr z ↦
            let ne : text path ≢ b'/' ∷ [] = λ q. absurd (cc (z, is_slash.1 q)) in
            let len = strlen-copied (skip path) in
            let (r, runs, led) =
              get_node-LedTo fuel ns root (copied (skip path)) (rw len (skip_more path pos ne))
                (omega (arith, enough, len, strlen-skip path)) in
            rw z (
              r,
              runs,
              λ p. absurd (omega arith),
              λ p q. absurd (ne q),
              λ p q. rw (text-copied (skip path)) at led,
            )
      ])
]
  where
    slash : List ℕ
    slash = b'/' ∷ 0 ∷ []

    is_slash : (streq path slash ≡ true) ↔ (text path ≡ b'/' ∷ [])
    is_slash = streq_iff path slash
