-- ===== src/Io.antt =====
-- kernel/io/io.c: the files that the processes and the kernel have open. The map from process ids is
-- a function, as HashTbl shows its table to be one. A slot of `fds` holds the descriptor that the
-- pointer leads to, since no two pointers lead to the same one. The result `none` is a failed ASSERT,
-- a read through NULL or an access outside `fds`. Directories that are open are left out.
pub mod Open
pub mod Free
pub mod Reads
pub mod Leaf
mod Tests
use Prim.Native.Nat.{bit_and}
use model_lib.Common.{
  and_then, ℕ, zero, suc, ◌+◌, ◌-◌, ◌%◌, ◌^◌, Bool, true, false, ◌&&◌, ◌||◌, not, Option, none,
  some, List, [], ◌∷◌, if◌then◌else◌, ◌==◌, ltb, u32_mod, get_elem?, get_or, set, take, drop,
  replicate,
}
use model_lib.CString.{strrchr}
use model_lib.Vfs.{Ptr, Node}
use model_lib.Vfs.Driver.{Driver, fs_close, fs_read, fs_write}

abbrev pub invalid_fd : ℕ
invalid_fd = 0xffffffff

abbrev pub fd_kflag_mask : ℕ
fd_kflag_mask = 0x80000000

abbrev pub max_fd_cnt : ℕ
max_fd_cnt = 64

-- `proc_file_desc_t`.
pub record Desc : Type 0 where
  pub node : Ptr
  pub flags : ℕ
  pub offset : ℕ

abbrev pub Fds : Type 0
Fds = List (Option Desc)

-- `_kfile_data`, `_proc_io` and the id of the running process.
pub record Io : Type 0 where
  pub kfile : Option Fds
  pub procs : ℕ → Option Fds
  pub cur : ℕ

abbrev pub is_kfile : (fd : ℕ) → Bool
is_kfile fd = not (bit_and fd fd_kflag_mask == 0)

-- `fd & ~FD_KFLAG_MASK`.
abbrev pub low : (fd : ℕ) → ℕ
low fd = fd % 2 ^ 31

unfoldable pub data_of : Bool → Io → Option Fds
data_of true s = s.kfile
data_of false s = s.procs s.cur

unfoldable pub with_data : Bool → Io → Fds → Io
with_data true s fds = record s { kfile = some fds }
with_data false s fds = record s { procs = λ p. if p == s.cur then some fds else s.procs p }

abbrev pub is_free : Option Desc → Bool
is_free none = true
is_free (some d) = d.node == 0

-- `_find_free_fd`, from the slot `i` on.
unfoldable pub free_from : (i : ℕ) → Fds → ℕ
free_from i [] = invalid_fd
free_from i (slot ∷ fds) = let rest = free_from (suc i) fds in if is_free slot then i else rest

unfoldable pub find_free_fd : Fds → ℕ
find_free_fd fds = free_from 0 fds

-- The write of NULL to the node of a slot.
abbrev pub clear_node : Fds → (i : ℕ) → Option (Option Desc) → Option Fds
clear_node fds i none = none
clear_node fds i (some none) = none
clear_node fds i (some (some d)) = some (set fds i (some (record d { node = 0 })))

unfoldable pub release_fd : Fds → (fd : ℕ) → Option Fds
release_fd fds fd = if fd == invalid_fd then some fds else clear_node fds fd (get_elem? fds fd)

abbrev pub create_file_desc : Ptr → (flags : ℕ) → Desc
create_file_desc node flags = record { node = node; flags = flags; offset = 0 }

abbrev slot_of : Option Fds → (i : ℕ) → Option (Option Desc)
slot_of none i = some none
slot_of (some fds) i = get_elem? fds i

unfoldable pub get_file_desc : Io → (fd : ℕ) → Option (Option Desc)
unfolding data_of
get_file_desc s fd = slot_of (data_of (is_kfile fd) s) (low fd)

-- A write to the descriptor that `get_file_desc` found.
abbrev put_in : Bool → Io → (i : ℕ) → Desc → Option Fds → Io
put_in k s i d none = s
put_in k s i d (some fds) = with_data k s (set fds i (some d))

unfoldable pub put_desc : Io → (fd : ℕ) → Desc → Io
unfolding with_data
put_desc s fd d = put_in (is_kfile fd) s (low fd) d (data_of (is_kfile fd) s)

-- `file->offset += sz` on 64 bits.
abbrev pub advance : Desc → ℕ → Desc
advance d sz = record d { offset = (d.offset + sz) % 2 ^ 64 }

unfoldable pub io_init : (cur : ℕ) → Io
io_init cur = record { kfile = some (replicate max_fd_cnt none); procs = λ p. none; cur = cur }

-- `_proc_init`.
unfoldable pub proc_init : Io → (id : ℕ) → Option Io
proc_init s id = go (s.procs id)
  where
    go : Option Fds → Option Io
    go (some fds) = none
    go none =
        some (record s {
          procs = λ p. if p == id then some (replicate max_fd_cnt none) else s.procs p;
        })

module _ {W : Type 0} (dr : Driver W) where
  -- The offset is passed on in 32 bits.
  abbrev read_desc : Io → W → (fd len : ℕ) → Option (Option Desc) → Option (List ℕ × ℕ × Io × W)
  read_desc s w fd len none = none
  read_desc s w fd len (some none) = some ([], 0, s, w)
  read_desc s w fd len (some (some d)) =
      let (bytes, sz, w') = fs_read dr w d.node (d.offset % u32_mod) len in
      if d.node == 0 then none else some (bytes, sz, put_desc s fd (advance d sz), w')

  unfoldable pub io_read : Io → W → (fd len : ℕ) → Option (List ℕ × ℕ × Io × W)
  unfolding get_file_desc put_desc fs_read
  io_read s w fd len = read_desc s w fd len (get_file_desc s fd)

  abbrev write_desc :
      Io → W → (fd : ℕ) → List ℕ → (len : ℕ) → Option (Option Desc) → Option (ℕ × Io × W)
  write_desc s w fd buff len none = none
  write_desc s w fd buff len (some none) = some (0, s, w)
  write_desc s w fd buff len (some (some d)) =
      let (sz, w') = fs_write dr w d.node buff (d.offset % u32_mod) len in
      if d.node == 0 then none else some (sz, put_desc s fd (advance d sz), w')

  unfoldable pub io_write : Io → W → (fd : ℕ) → List ℕ → (len : ℕ) → Option (ℕ × Io × W)
  unfolding get_file_desc put_desc fs_write
  io_write s w fd buff len = write_desc s w fd buff len (get_file_desc s fd)

  abbrev seek_desc : Io → W → (fd offset : ℕ) → Option (Option Desc) → Option Io
  seek_desc s w fd offset none = none
  seek_desc s w fd offset (some none) = some s
  seek_desc s w fd offset (some (some d)) =
      let len = (dr.nodes w d.node).len in
      if d.node == 0
      then none
      else some (put_desc s fd (record d { offset = if ltb len offset then len else offset }))

  -- The argument `origin` is not looked at.
  unfoldable pub io_seek : Io → W → (fd offset origin : ℕ) → Option Io
  unfolding get_file_desc put_desc
  io_seek s w fd offset origin = seek_desc s w fd offset (get_file_desc s fd)

  abbrev close_desc : Io → W → (k : Bool) → Fds → (i : ℕ) → Option (Option Desc) → Option (Io × W)
  close_desc s w k fds i none = none
  close_desc s w k fds i (some none) = some (s, w)
  close_desc s w k fds i (some (some d)) =
      if d.node == 0
      then none
      else and_then (clear_node fds i (some (some d))) (λ fds'.
        and_then (release_fd fds' i) (λ fds''. some (with_data k s fds'', fs_close dr w d.node)))

  abbrev close_in : Io → W → (k : Bool) → (i : ℕ) → Option Fds → Option (Io × W)
  close_in s w k i none = none
  close_in s w k i (some fds) = close_desc s w k fds i (get_elem? fds i)

  unfoldable pub io_close : Io → W → (fd : ℕ) → Option (Io × W)
  unfolding data_of with_data release_fd fs_close
  io_close s w fd =
      if fd == invalid_fd
      then some (s, w)
      else close_in s w (is_kfile fd) (low fd) (data_of (is_kfile fd) s)

-- `io_path_split_leaf`: the directory's part and the offset of the leaf, or NULL.
abbrev split_at : List ℕ → Option ℕ → Option (List ℕ × List ℕ)
split_at path none = none
split_at path (some i) =
    if get_or path (suc i) 0 == 0 then none else some (set path i 0, drop (suc i) path)

unfoldable pub io_path_split_leaf : List ℕ → Option (List ℕ × List ℕ)
io_path_split_leaf path = split_at path (strrchr path b'/')
