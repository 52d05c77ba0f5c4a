-- ===== src/Vfs/Tests.antt =====
-- Witnesses and test runs for the walk along a path.
use model_lib.Common.{
  ℕ, ◌≡◌, ◌≢◌, refl, Option, none, some, List, [], ◌∷◌, arith, if◌then◌else◌, ◌==◌, ◌<◌, ◌≤◌,
}
use model_lib.CString.{strlen, streq, strchr, strchr_from, strcmp}
use model_lib.CString.Copy.{text}
use model_lib.Vfs.{
  Ptr, Node, Nodes, Found, get_node, fs_get_abs_path, fs_find_child, fs_is_dir, root_find_child,
  fs_install_root_fs, fs_dir, skip,
}
use model_lib.Vfs.Cut.{names}
use model_lib.Vfs.Walk.{LedTo}
use model_lib.Vfs.Path.{fs_get_abs_path-LedTo}

abbrev only : (c : ℕ) → Ptr → List ℕ → Ptr
only c n [] = 0
only c n (x ∷ []) = if x == c then n else 0
only c n (x ∷ y ∷ ys) = 0

-- The root at 1 with a directory "a" at 2, and in it a file "b" at 3.
abbrev dir : List ℕ → Option (List ℕ → Ptr) → Node
dir name find = record {
  name = name;
  len = 0;
  flags = fs_dir;
  inode = 0;
  link = 0;
  find_child = find;
}

abbrev tree : Nodes
tree n =
    if n == 1
    then dir (0 ∷ []) (some (only b'a' 2))
    else if n == 2
    then dir (b'a' ∷ 0 ∷ []) (some (only b'b' 3))
    else record { name = b'b' ∷ 0 ∷ []; len = 0; flags = 0; inode = 2; link = 0; find_child = none }

abbrev path_a_b : List ℕ
path_a_b = b'/' ∷ b'a' ∷ b'/' ∷ b'b' ∷ 0 ∷ []

abbrev path_a_end : List ℕ
path_a_end = b'a' ∷ b'/' ∷ 0 ∷ []

abbrev path_c : List ℕ
path_c = b'/' ∷ b'b' ∷ b'/' ∷ b'b' ∷ 0 ∷ []

runs :
    (fs_get_abs_path 20 tree 1 path_a_b ≡ some (3, some 2))
    × (fs_get_abs_path 20 tree 1 path_a_end ≡ some (2, some 1))
    × (fs_get_abs_path 20 tree 1 path_c ≡ some (0, none))
unfolding fs_get_abs_path get_node text strlen strchr strchr_from streq strcmp fs_find_child
    fs_is_dir
runs = (refl, refl, refl)

fs_get_abs_path-LedTo_example :
    (r : Found) × (fs_get_abs_path 20 tree 1 path_a_b ≡ some r)
    × (1024 ≤ strlen path_a_b → r ≡ (0, none))
    × (strlen path_a_b < 1024 → text path_a_b ≡ b'/' ∷ [] → r ≡ (1, none))
    × (strlen path_a_b < 1024
        → text path_a_b ≢ b'/' ∷ []
        → LedTo tree 1 (names (text (skip path_a_b))) r)
unfolding strlen
fs_get_abs_path-LedTo_example =
    fs_get_abs_path-LedTo 20 tree 1 path_a_b (ground arith) (ground arith)

abbrev first_root : List Ptr
first_root = fs_install_root_fs (fs_install_root_fs [] 2) 3

installed :
    (root_find_child tree first_root (b'b' ∷ 0 ∷ []) ≡ 3)
    × (root_find_child tree first_root (b'c' ∷ 0 ∷ []) ≡ 0)
unfolding root_find_child fs_install_root_fs streq strcmp
installed = (refl, refl)
