-- ===== src/Vfs.antt =====
-- kernel/vfs/vfs.c, node.c and root_node.c: the nodes of the mounted file systems and the walk
-- along a path. The nodes stand in a store by address, 0 being NULL; the callback `find_child` of a
-- file system is the function that it computes on the text of a name, and the callbacks that move
-- bytes belong to the file systems. What is written through the pointer `parent` is `some`, and
-- `none` where nothing is written.
pub mod Cut
pub mod Walk
pub mod Path
pub mod Driver
mod Tests
use Prim.Native.Nat.{bit_and}
use model_lib.Common.{
  and_then, ℕ, zero, suc, ◌+◌, ◌-◌, Bool, true, false, ◌&&◌, not, Option, none, some, List, [], ◌∷◌,
  ◌++◌, if◌then◌else◌, ◌==◌, ltb, get_or, set, drop,
}
use model_lib.CString.{strlen, streq, strchr}
use model_lib.CString.Copy.{text}

abbrev pub Ptr : Type 0
Ptr = ℕ

-- `fs_node_t`, as far as paths use it.
pub record Node : Type 0 where
  pub name : List ℕ
  pub len : ℕ
  pub flags : ℕ
  pub inode : ℕ
  pub link : Ptr
  pub find_child : Option (List ℕ → Ptr)

abbrev pub Nodes : Type 0
Nodes = Ptr → Node

abbrev pub fs_dir : ℕ
fs_dir = 2

unfoldable pub fs_is_dir : Node → Bool
fs_is_dir n = not (bit_and n.flags fs_dir == 0)

unfoldable pub fs_is_link : Node → Bool
fs_is_link n = not (n.link == 0)

abbrev pub call_find : Option (List ℕ → Ptr) → List ℕ → Ptr
call_find none name = 0
call_find (some f) name = f (text name)

unfoldable pub fs_find_child : Nodes → Ptr → List ℕ → Ptr
unfolding fs_is_dir text
fs_find_child ns n name = if fs_is_dir (ns n) then call_find (ns n).find_child name else 0

-- `_get_node`, with fuel for the calls of itself: the node, NULL if there is none, and the parent.
abbrev pub Found : Type 0
Found = Ptr × Option Ptr

-- The branch on the child that has no separator behind it.
abbrev pub leaf : (n child : Ptr) → Found
leaf n child = (child, if child == 0 then none else some n)

-- What is behind the separator, and the walk along it.
abbrev pub beyond : (n sub : Ptr) → (sep : List ℕ) → (rest : Option Found) → Option Found
beyond n sub sep rest =
    if get_or sep 0 0 == 0 then some (sub, some n) else if sub == 0 then some (0, none) else rest

-- What `_get_node` does once the separator is looked for; `walk` is the call of itself.
abbrev pub at_sep :
    Option ℕ → Nodes → Ptr → List ℕ → (walk : Ptr → List ℕ → Option Found) → Option Found
at_sep none ns n path walk = some (leaf n (fs_find_child ns n path))
at_sep (some i) ns n path walk =
    let sub = fs_find_child ns n (set path i 0) in
    let sep = drop (suc i) path in beyond n sub sep (walk sub sep)

unfoldable pub get_node : ℕ → Nodes → Ptr → List ℕ → Option Found
get_node zero ns n path = none
get_node (suc fuel) ns n path = at_sep (strchr path b'/') ns n path (get_node fuel ns)

abbrev pub fs_max_path : ℕ
fs_max_path = 1024

-- `root` is what `fs_root` returns; `copied` is what `strcpy` leaves in the memory taken for the
-- path.
abbrev pub copied : List ℕ → List ℕ
copied s = text s ++ (0 ∷ [])

abbrev pub skip : List ℕ → List ℕ
skip path = if get_or path 0 0 == b'/' then drop 1 path else path

unfoldable pub fs_get_abs_path : ℕ → Nodes → (root : Ptr) → (path : List ℕ) → Option Found
unfolding get_node
fs_get_abs_path fuel ns root path =
    if ltb (fs_max_path - 1) (strlen path)
    then some (0, none)
    else if streq path (b'/' ∷ 0 ∷ [])
    then some (root, none)
    else get_node fuel ns root (copied (skip path))

-- `_fs_find_child` of the root, over the list of file systems, the last one installed first.
unfoldable pub root_find_child : Nodes → (children : List Ptr) → (name : List ℕ) → Ptr
root_find_child ns [] name = 0
root_find_child ns (child ∷ children) name =
    if streq name (ns child).name then child else root_find_child ns children name

unfoldable pub fs_install_root_fs : (children : List Ptr) → Ptr → List Ptr
fs_install_root_fs children n = n ∷ children
