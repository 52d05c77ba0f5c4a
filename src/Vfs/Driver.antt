-- ===== src/Vfs/Driver.antt =====
-- kernel/vfs/vfs.c: the calls into a file system. The state of all file systems is a type `W`; a
-- callback of a node is `none` where the pointer is NULL.
use model_lib.Common.{ℕ, suc, Bool, false, Option, none, some, List, [], if◌then◌else◌}
use model_lib.CString.{strlen}
use model_lib.Vfs.{Ptr, Nodes, Found, fs_is_dir, fs_get_abs_path}

-- The callbacks of the nodes. `on_read` gives the bytes it stores and its result.
pub record Driver (W : Type 0) : Type 0 where
  pub nodes : W → Nodes
  pub root : Ptr
  pub on_open : Ptr → Option (W → Option Ptr → Bool × W)
  pub on_close : Ptr → Option (W → W)
  pub on_read : Ptr → Option (W → (off sz : ℕ) → List ℕ × ℕ × W)
  pub on_write : Ptr → Option (W → List ℕ → (off sz : ℕ) → ℕ × W)
  pub on_create_child : Ptr → Option (W → List ℕ → (flags : ℕ) → Ptr × W)

module _ {W : Type 0} where
  abbrev call_open : Option (W → Option Ptr → Bool × W) → W → Option Ptr → Bool × W
  call_open none w parent = (false, w)
  call_open (some f) w parent = f w parent

  abbrev call_close : Option (W → W) → W → W
  call_close none w = w
  call_close (some f) w = f w

  abbrev call_read : Option (W → (off sz : ℕ) → List ℕ × ℕ × W) → W → (off sz : ℕ) → List ℕ × ℕ × W
  call_read none w off sz = ([], 0, w)
  call_read (some f) w off sz = f w off sz

  abbrev call_write : Option (W → List ℕ → (off sz : ℕ) → ℕ × W) → W → List ℕ → (off sz : ℕ) → ℕ × W
  call_write none w buff off sz = (0, w)
  call_write (some f) w buff off sz = f w buff off sz

  abbrev call_create :
      Option (W → List ℕ → (flags : ℕ) → Ptr × W) → W → List ℕ → (flags : ℕ) → Ptr × W
  call_create none w name flags = (0, w)
  call_create (some f) w name flags = f w name flags

module _ {W : Type 0} (dr : Driver W) where
  unfoldable pub fs_open : W → (parent : Option Ptr) → Ptr → Bool × W
  fs_open w parent n = call_open (dr.on_open n) w parent

  unfoldable pub fs_close : W → Ptr → W
  fs_close w n = call_close (dr.on_close n) w

  unfoldable pub fs_read : W → Ptr → (off sz : ℕ) → List ℕ × ℕ × W
  fs_read w n off sz = call_read (dr.on_read n) w off sz

  unfoldable pub fs_write : W → Ptr → List ℕ → (off sz : ℕ) → ℕ × W
  fs_write w n buff off sz = call_write (dr.on_write n) w buff off sz

  unfoldable pub fs_create_child : W → Ptr → (name : List ℕ) → (flags : ℕ) → Ptr × W
  unfolding fs_is_dir
  fs_create_child w n name flags =
      if fs_is_dir (dr.nodes w n) then call_create (dr.on_create_child n) w name flags else (0, w)

  -- A path looked up in the present state, with fuel for its bytes.
  abbrev pub find_path : W → List ℕ → Option Found
  find_path w path = fs_get_abs_path (suc (strlen path)) (dr.nodes w) dr.root path
