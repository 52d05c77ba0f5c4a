-- ===== src/Io/Open.antt =====
-- kernel/io/io.c: opening and making files, and the descriptors that a process starts with.
use Prim.Native.Nat.{bit_and}
use model_lib.Common.{
  and_then, ℕ, ◌+◌, Bool, true, false, ◌&&◌, ◌||◌, not, Option, none, some, List, if◌then◌else◌,
  ◌==◌, get_elem?, set,
}
use model_lib.Common.Int.{ℤ, pos, negsuc}
use model_lib.Vfs.{Ptr, copied, fs_dir}
use model_lib.Vfs.Driver.{Driver, fs_open, fs_create_child, find_path}
use model_lib.Io.{
  Io, Fds, Desc, invalid_fd, fd_kflag_mask, find_free_fd, release_fd, create_file_desc, data_of,
  with_data, io_path_split_leaf, get_file_desc, proc_init,
}

abbrev pub fs_file : ℕ
fs_file = 1

abbrev pub open_read : ℕ
open_read = 1

abbrev pub open_write : ℕ
open_write = 2

abbrev pub open_create : ℕ
open_create = 4

abbrev pub open_append : ℕ
open_append = 8

abbrev pub open_kfile : ℕ
open_kfile = 16

abbrev has_flag : (flags f : ℕ) → Bool
has_flag flags f = not (bit_and flags f == 0)

-- A file descriptor with the table and the file systems that it leaves.
abbrev pub Opened : Type 0 → Type 0
Opened W = ℕ × Fds × W

module _ {W : Type 0} where
  abbrev pub give_up : Fds → (fd : ℕ) → W → Option (Opened W)
  give_up fds fd w = and_then (release_fd fds fd) (λ fds'. some (invalid_fd, fds', w))

  abbrev pub opened : Fds → (fd : ℕ) → Ptr → (flags : ℕ) → Bool × W → Option (Opened W)
  opened fds fd node flags (true, w) = some (fd, set fds fd (some (create_file_desc node flags)), w)
  opened fds fd node flags (false, w) = give_up fds fd w

  abbrev pub created : Fds → (fd flags : ℕ) → Ptr × W → Option (Opened W)
  created fds fd flags (node, w) =
      if node == 0
      then give_up fds fd w
      else some (fd, set fds fd (some (create_file_desc node flags)), w)

module _ {W : Type 0} (dr : Driver W) where
  -- `_open_file`; `fs_open` is not called when no descriptor is free.
  unfoldable pub open_file :
      Fds → W → (parent : Option Ptr) → (node : Ptr) → (flags : ℕ) → Option (Opened W)
  unfolding fs_open release_fd find_free_fd
  open_file fds w parent node flags =
      let fd = find_free_fd fds in
      if fd == invalid_fd
      then give_up fds fd w
      else opened fds fd node flags (fs_open dr w parent node)

  abbrev create_leaf : Fds → W → (flags : ℕ) → Option (List ℕ × List ℕ) → Option (Opened W)
  create_leaf fds w flags none = give_up fds invalid_fd w
  create_leaf fds w flags (some (dir_name, file_name)) =
      let fd = find_free_fd fds in
      if fd == invalid_fd
      then give_up fds fd w
      else and_then (find_path dr w dir_name) (λ parent.
        if parent.0 == 0
        then give_up fds fd w
        else created fds fd flags (fs_create_child dr w parent.0 file_name fs_file))

  -- `_create_file`.
  unfoldable pub create_file : Fds → W → (path : List ℕ) → (flags : ℕ) → Option (Opened W)
  unfolding fs_create_child release_fd find_free_fd io_path_split_leaf
  create_file fds w path flags = and_then (find_path dr w path) (λ there.
      if there.0 == 0
      then create_leaf fds w flags (io_path_split_leaf (copied path))
      else some (invalid_fd, fds, w))

  -- What `io_open` does for a path that is to exist.
  unfoldable pub open_path : Fds → W → (path : List ℕ) → (flags : ℕ) → Option (Opened W)
  unfolding open_file
  open_path fds w path flags = and_then (find_path dr w path) (λ there.
      if there.0 == 0 then some (invalid_fd, fds, w) else open_file fds w there.1 there.0 flags)

  abbrev for_read : (flags : ℕ) → (path : List ℕ) → Opened W → Option (Opened W)
  for_read flags path (fd, fds, w) =
      let done = open_path fds w path flags in
      if has_flag flags open_read then done else some (fd, fds, w)

  abbrev for_create : (flags : ℕ) → (path : List ℕ) → Opened W → Option (Opened W)
  for_create flags path (fd, fds, w) =
      let done = create_file fds w path flags in
      if (fd == invalid_fd) && has_flag flags open_create then done else some (fd, fds, w)

  abbrev for_write : (flags : ℕ) → (path : List ℕ) → Opened W → Option (Opened W)
  for_write flags path (fd, fds, w) =
      let done = open_path fds w path flags in
      if (fd == invalid_fd) && (has_flag flags open_write || has_flag flags open_append)
      then done
      else some (fd, fds, w)

  -- A descriptor is below the flag, so that `|` adds it.
  abbrev tagged : (k : Bool) → (fd : ℕ) → ℕ
  tagged k fd = if not (fd == invalid_fd) && k then fd + fd_kflag_mask else fd

  abbrev open_in : Io → W → (path : List ℕ) → (flags : ℕ) → Option Fds → Option (ℕ × Io × W)
  open_in s w path flags none = none
  open_in s w path flags (some fds) =
      let k = has_flag flags open_kfile in
      and_then (for_read flags path (invalid_fd, fds, w)) (λ a.
        and_then (for_create flags path a) (λ b.
          and_then (for_write flags path b) (λ c. some (tagged k c.0, with_data k s c.1, c.2))))

  unfoldable pub io_open : Io → W → (path : List ℕ) → (flags : ℕ) → Option (ℕ × Io × W)
  unfolding open_path create_file with_data data_of
  io_open s w path flags = open_in s w path flags (data_of (has_flag flags open_kfile) s)

  pub io_exists : W → (path : List ℕ) → Option Bool
  io_exists w path = and_then (find_path dr w path) (λ r. some (not (r.0 == 0)))

  abbrev make_dir : W → Option (List ℕ × List ℕ) → Option (ℤ × W)
  make_dir w none = some (negsuc 0, w)
  make_dir w (some (dir_name, file_name)) = and_then (find_path dr w dir_name) (λ parent.
      let (node, w') = fs_create_child dr w parent.0 file_name fs_dir in
      if parent.0 == 0
      then some (negsuc 0, w)
      else if node == 0
      then some (negsuc 0, w')
      else some (pos 0, w'))

  unfoldable pub io_mkdir : W → (path : List ℕ) → Option (ℤ × W)
  unfolding fs_create_child io_path_split_leaf
  io_mkdir w path = make_dir w (io_path_split_leaf (copied path))

-- The copy of a descriptor starts at offset 0.
abbrev dup_into : Io → (dest_p dest : ℕ) → Option (Option Desc) → Option Fds → Option (Bool × Io)
dup_into s dest_p dest none fds = none
dup_into s dest_p dest (some none) fds = some (false, s)
dup_into s dest_p dest (some (some d)) none = none
dup_into s dest_p dest (some (some d)) (some fds) = and_then (get_elem? fds dest) (λ slot. some (
  true,
  record s {
    procs = λ p.
        if p == dest_p
        then some (set fds dest (some (create_file_desc d.node d.flags)))
        else s.procs p;
  },
))

unfoldable pub io_dup_fd : Io → (source dest_p dest : ℕ) → Option (Bool × Io)
unfolding get_file_desc
io_dup_fd s source dest_p dest =
    if (source == invalid_fd) || (dest == invalid_fd)
    then some (false, s)
    else dup_into s dest_p dest (get_file_desc s source) (s.procs dest_p)

-- One of the three descriptors: the console's if none is given.
abbrev start_fd : (con : Ptr) → (id : ℕ) → (source dest flags : ℕ) → Io → Option Io
start_fd con id source dest flags s =
    let dup = io_dup_fd s source id dest in
    if source == invalid_fd
    then and_then (s.procs id) (λ fds. some (record s {
      procs = λ p.
          if p == id then some (set fds dest (some (create_file_desc con flags))) else s.procs p;
    }))
    else and_then dup (λ r. some r.1)

-- `io_proc_start`; `con` is the node of "/dev/con1".
unfoldable pub io_proc_start : Io → (con : Ptr) → (id fd0 fd1 fd2 : ℕ) → Option Io
unfolding proc_init io_dup_fd
io_proc_start s con id fd0 fd1 fd2 = and_then (proc_init s id) (λ s0.
    and_then (start_fd con id fd0 0 open_read s0)
      (λ s1. and_then (start_fd con id fd1 1 open_write s1) (start_fd con id fd2 2 open_read)))
