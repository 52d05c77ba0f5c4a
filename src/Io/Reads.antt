-- ===== src/Io/Reads.antt =====
-- kernel/io/io.c: reads of a file, one after the other.
use Prim.Native.Nat.{min}
use model_lib.Common.{and_then, ℕ, ◌+◌, ◌<◌, Option, some, List, [], ◌∷◌, ◌++◌}
use model_lib.Ramfs.{Ramfs}
use model_lib.Vfs.Driver.{Driver}
use model_lib.Io.{Io, io_read}

module _ {W : Type 0} (dr : Driver W) where
  -- Reads of the lengths given, one after the other: the bytes of all of them.
  unfoldable pub read_all : Io → W → (fd : ℕ) → List ℕ → Option (List ℕ)
  read_all s w fd [] = some []
  read_all s w fd (len ∷ lens) =
      and_then (io_read dr s w fd len)
        (λ (bytes, sz, s', w'). and_then (read_all s' w' fd lens) (λ rest. some (bytes ++ rest)))

-- What reads of these lengths come to for a file of `len` bytes: no read is longer than the file.
unfoldable pub capped : (len : ℕ) → List ℕ → ℕ
capped len [] = 0
capped len (n ∷ ns) = min len n + capped len ns

-- No read of no bytes, which the RAM disk does not take.
abbrev pub SomeBytes : List ℕ → Type 0
SomeBytes [] = Unit {0}
SomeBytes (n ∷ ns) = (0 < n) × SomeBytes ns
