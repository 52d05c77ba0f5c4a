-- ===== src/Ramfs/Tests.antt =====
-- Runs of the tree of the RAM disk, and its theorem at a concrete one.
use model_lib.Common.{ℕ, ◌≡◌, refl, Option, none, some, List, [], ◌∷◌, ◌+◌, arith}
use model_lib.CString.{strlen, streq, strchr, strchr_from, strcmp}
use model_lib.CString.Copy.{text}
use model_lib.Vfs.{Ptr}
use model_lib.Ramfs.{
  Ramfs, dir_node, find_in, ram_find_child, read_file, create_dir_node, find_or_add_dir, add_file,
  add_file_index,
}
use model_lib.Ramfs.Found.{FoundOrAdded, find-find_or_add_dir}

-- The root at 1, without children.
abbrev empty_disk : Ramfs
empty_disk = record {
  nodes = λ p. dir_node 0 [];
  children = λ p. [];
  next_inode = 1;
  disk = 5 ∷ 6 ∷ 7 ∷ 8 ∷ [];
}

abbrev name_a : List ℕ
name_a = b'a' ∷ 0 ∷ []

abbrev name_b : List ℕ
name_b = b'b' ∷ 0 ∷ []

abbrev path_a_b : List ℕ
path_a_b = b'a' ∷ b'/' ∷ b'b' ∷ 0 ∷ []

abbrev state : Option (Ptr × Ramfs) → Ramfs
state none = empty_disk
state (some r) = r.1

abbrev with_file : Ramfs
with_file = state (add_file_index 4 empty_disk (λ k. 10 + k) 1 path_a_b 1 2)

indexed : (ram_find_child with_file 1 name_a ≡ 13) × (ram_find_child with_file 13 name_b ≡ 12)
unfolding add_file_index find_or_add_dir add_file create_dir_node ram_find_child find_in strlen
    streq strcmp strchr strchr_from text
indexed = (refl, refl)

-- A read at the end of the file gives its length again, and the bytes behind it.
past_end :
    (read_file with_file 12 0 9 ≡ some (6 ∷ 7 ∷ [], 2))
    × (read_file with_file 12 2 9 ≡ some (8 ∷ [], 2))
unfolding add_file_index find_or_add_dir add_file create_dir_node ram_find_child find_in strlen
    streq strcmp strchr strchr_from text read_file
past_end = (refl, refl)

-- The same disk with a directory "a" at 9.
abbrev one_dir : Ramfs
one_dir = state (find_or_add_dir empty_disk 9 1 name_a)

added_once :
    (find_or_add_dir one_dir 10 1 name_a ≡ some (9, one_dir))
    × (ram_find_child (state (find_or_add_dir one_dir 10 1 name_b)) 1 name_a ≡ 9)
unfolding find_or_add_dir create_dir_node ram_find_child find_in strlen streq strcmp text
added_once = (refl, refl)

find-find_or_add_dir_example :
    (n : Ptr) × (r' : Ramfs) × (find_or_add_dir one_dir 10 1 name_a ≡ some (n, r'))
    × FoundOrAdded one_dir 10 1 name_a n r'
    × (ram_find_child r' 1 name_a ≡ n)
    × (ram_find_child r' 1 name_b ≡ ram_find_child one_dir 1 name_b)
unfolding find_or_add_dir create_dir_node ram_find_child find_in strlen streq strcmp text
find-find_or_add_dir_example =
    find-find_or_add_dir one_dir 10 1 name_a name_b (ground arith) (ground arith) (omega arith, tt)
      (ground arith) (ground arith)
