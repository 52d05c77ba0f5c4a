-- ===== src/Cbuff/Queue.antt =====
-- What a circular buffer promises: a queue of at most `cap` elements, oldest first, that drops
-- its oldest element to make room.
use model_lib.Common.{
  ℕ, ◌%◌, ◌^◌, Option, none, some, List, [], ◌∷◌, ◌++◌, if◌then◌else◌, ◌==◌, length, drop,
}

unfoldable pub put : (w cap : ℕ) → List ℕ → ℕ → List ℕ
put w cap q v = (if length q == cap then drop 1 q else q) ++ (v % 2 ^ w) ∷ []

unfoldable pub get : List ℕ → Option (Option ℕ) × List ℕ
get [] = (none, [])
get (x ∷ q) = (some (some x), q)
