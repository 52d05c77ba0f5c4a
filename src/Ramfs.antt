-- ===== src/Ramfs.antt =====
-- kernel/ramfs/ramfs.c: the tree of the RAM disk and the reads of its files. The nodes and the
-- lists of the children stand in stores by address, and an address that kmalloc gave is a
-- parameter. A name of 64 bytes or more, which fs_create_node writes past its buffer, is the result
-- `none`.
pub mod Found
mod Tests
use model_lib.Common.{
  and_then, ℕ, zero, suc, ◌+◌, ◌-◌, ◌%◌, Bool, true, false, not, Option, none, some, List, [], ◌∷◌,
  if◌then◌else◌, ◌==◌, ltb, u32_mod, get_or, set, take, drop,
}
use model_lib.CString.{strlen, streq, strchr}
use model_lib.Vfs.{Ptr, copied, fs_dir}

-- A node of this file system; `data` of a file is the place of its bytes on the disk.
pub record RamNode : Type 0 where
  pub name : List ℕ
  pub len : ℕ
  pub flags : ℕ
  pub inode : ℕ
  pub data_at : ℕ

-- The nodes, the children of each directory, `_next_inode` and the bytes of the disk.
pub record Ramfs : Type 0 where
  pub nodes : Ptr → RamNode
  pub children : Ptr → List Ptr
  pub next_inode : ℕ
  pub disk : List ℕ

abbrev pub store : {A : Type 0} → (Ptr → A) → Ptr → A → Ptr → A
store f p a q = if q == p then a else f q

unfoldable pub find_in : (Ptr → RamNode) → List Ptr → (name : List ℕ) → Ptr
find_in nodes [] name = 0
find_in nodes (child ∷ children) name =
    let rest = find_in nodes children name in if streq name (nodes child).name then child else rest

-- `_fs_find_child`.
unfoldable pub ram_find_child : Ramfs → Ptr → (name : List ℕ) → Ptr
unfolding find_in
ram_find_child r node name = find_in r.nodes (r.children node) name

abbrev pub min32 : ℕ → ℕ → ℕ
min32 a b = if ltb a b then a else b

-- `_read_file`: the bytes stored and the result. The ASSERTs on the pointers are left out.
unfoldable pub read_file : Ramfs → Ptr → (off sz : ℕ) → Option (List ℕ × ℕ)
read_file r f off sz =
    let read_sz = min32 (r.nodes f).len sz in
    if sz == 0 then none else some (take read_sz (drop ((r.nodes f).data_at + off) r.disk), read_sz)

abbrev read_result : Ramfs → Option (List ℕ × ℕ) → List ℕ × ℕ × Ramfs
read_result r none = ([], 0, r)
read_result r (some (bytes, sz)) = (bytes, sz, r)

-- `_read_file` as the callback that a file's node gets. A callback of a node cannot fail here: the
-- read of no bytes at all, whose ASSERT fails, is to be ruled out where this is used.
unfoldable pub ram_read : Ptr → Ramfs → (off sz : ℕ) → List ℕ × ℕ × Ramfs
unfolding read_file
ram_read f r off sz = read_result r (read_file r f off sz)

-- The node that `_create_dir_node` fills in.
abbrev pub dir_node : (inode : ℕ) → (name : List ℕ) → RamNode
dir_node inode name = record {
  name = copied name;
  len = 0;
  flags = fs_dir;
  inode = inode;
  data_at = 0;
}

-- `_create_dir_node`.
unfoldable pub create_dir_node : Ramfs → (at : Ptr) → (name : List ℕ) → Option Ramfs
create_dir_node r at name =
    if ltb (strlen name) 64
    then some (record r {
      nodes = store r.nodes at (dir_node r.next_inode name);
      children = store r.children at [];
      next_inode = (r.next_inode + 1) % u32_mod;
    })
    else none

-- `list_add` to the children of a directory.
abbrev pub add_child : Ramfs → (parent node : Ptr) → Ramfs
add_child r parent node = record r { children = store r.children parent (node ∷ r.children parent) }

unfoldable pub find_or_add_dir : Ramfs → (at parent : Ptr) → (name : List ℕ) → Option (Ptr × Ramfs)
unfolding ram_find_child create_dir_node
find_or_add_dir r at parent name =
    let node = ram_find_child r parent name in
    if node == 0
    then and_then (create_dir_node r at name) (λ r'. some (at, add_child r' parent at))
    else some (node, r)

-- The file that `_add_file_index` makes.
unfoldable pub add_file :
    Ramfs → (at parent : Ptr) → (name : List ℕ) → (offset len : ℕ) → Option (Ptr × Ramfs)
add_file r at parent name offset len =
    let r' = record r {
      nodes = store r.nodes at (record {
        name = copied name;
        len = len;
        flags = 0;
        inode = r.next_inode;
        data_at = offset;
      });
      next_inode = (r.next_inode + 1) % u32_mod;
    } in
    if ltb (strlen name) 64 then some (at, add_child r' parent at) else none

-- `_add_file_index`, with fuel for the calls of itself; each has its own address from kmalloc.
abbrev index_at :
    Option ℕ
    → Ramfs
    → (at parent : Ptr) → (path : List ℕ) → (offset len : ℕ)
    → (deeper : Ramfs → Ptr → List ℕ → Option (Ptr × Ramfs)) → Option (Ptr × Ramfs)
index_at none r at parent path offset len deeper = add_file r at parent path offset len
index_at (some i) r at parent path offset len deeper =
    and_then (find_or_add_dir r at parent (set path i 0))
      (λ dir. deeper dir.1 dir.0 (drop (suc i) path))

unfoldable pub add_file_index :
    (fuel : ℕ)
    → Ramfs
    → (ats : ℕ → Ptr) → (parent : Ptr) → (path : List ℕ) → (offset len : ℕ) → Option (Ptr × Ramfs)
unfolding find_or_add_dir add_file
add_file_index zero r ats parent path offset len = none
add_file_index (suc fuel) r ats parent path offset len =
    index_at (strchr path b'/') r (ats fuel) parent path offset len
      (λ r' dir sep. add_file_index fuel r' ats dir sep offset len)
