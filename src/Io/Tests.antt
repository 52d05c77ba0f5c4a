-- ===== src/Io/Tests.antt =====
-- Runs of the calls on files, and the theorems at concrete tables.
use model_lib.Common.{
  ℕ, suc, ◌≡◌, refl, true, Option, none, some, List, [], ◌∷◌, arith, if◌then◌else◌, ◌==◌, replicate,
}
use model_lib.CString.{strlen, streq, strchr, strchr_from, strcmp}
use model_lib.CString.Copy.{text}
use model_lib.Vfs.{Ptr, Nodes, get_node, fs_get_abs_path, fs_find_child, fs_is_dir, fs_dir}
use model_lib.Vfs.Driver.{Driver, fs_open, fs_read, fs_create_child}
use model_lib.Ramfs.{Ramfs, ram_read, read_file}
use model_lib.Io.{
  Io, io_read, get_file_desc, put_desc, data_of, with_data, release_fd, find_free_fd, free_from,
  io_path_split_leaf, create_file_desc,
}
use model_lib.Io.Open.{io_open, open_path, open_file, create_file, open_read, fs_file}
use model_lib.Io.Free.{outcome, open_file-outcome}
use model_lib.Io.Reads.{read_all}
use model_lib.Io.Leaf.{Cut, io_path_split_leaf-Cut}

abbrev only_f : List ℕ → Ptr
only_f [] = 0
only_f (x ∷ []) = if x == b'f' then 2 else 0
only_f (x ∷ y ∷ ys) = 0

-- The root at 1, and in it a file "f" at 2.
abbrev small : Nodes
small n =
    if n == 1
    then record {
      name = 0 ∷ [];
      len = 0;
      flags = fs_dir;
      inode = 0;
      link = 0;
      find_child = some only_f;
    }
    else record {
      name = b'f' ∷ 0 ∷ [];
      len = 3;
      flags = fs_file;
      inode = 1;
      link = 0;
      find_child = none;
    }

-- The state of the file systems is a number that counts what is opened.
abbrev disk : Driver ℕ
disk = record {
  nodes = λ w. small;
  root = 1;
  on_open = λ n. if n == 2 then some (λ w parent. (true, suc w)) else none;
  on_close = λ n. none;
  on_read = λ n. none;
  on_write = λ n. none;
  on_create_child = λ n. none;
}

abbrev path_f : List ℕ
path_f = b'/' ∷ b'f' ∷ 0 ∷ []

abbrev path_root : List ℕ
path_root = b'/' ∷ 0 ∷ []

abbrev start : Io
start = record {
  kfile = none;
  procs = λ p. if p == 7 then some (replicate 3 none) else none;
  cur = 7;
}

abbrev fd_of : Option (ℕ × Io × ℕ) → ℕ
fd_of none = 99
fd_of (some r) = r.0

-- The first file opened is 0, and the root cannot be opened at a fresh slot.
opens :
    (fd_of (io_open disk start 0 path_f open_read) ≡ 0)
    × (io_open disk start 0 path_root open_read ≡ none)
unfolding io_open open_path open_file find_free_fd free_from release_fd fs_open data_of with_data
    fs_get_abs_path get_node text strlen strchr strchr_from streq strcmp fs_find_child fs_is_dir
    create_file fs_create_child io_path_split_leaf
opens = (refl, refl)

abbrev one_open : Io
one_open = record start {
  procs = λ p. if p == 7 then some (some (create_file_desc 2 open_read) ∷ none ∷ []) else none;
}

-- A RAM disk of four bytes with a file of the second and third of them at 2.
abbrev ram : Ramfs
ram = record {
  nodes = λ n. record { name = b'f' ∷ 0 ∷ []; len = 2; flags = 0; inode = 1; data_at = 1 };
  children = λ n. if n == 1 then 2 ∷ [] else [];
  next_inode = 2;
  disk = 5 ∷ 6 ∷ 7 ∷ 8 ∷ [];
}

abbrev ram_driver : Driver Ramfs
ram_driver = record {
  nodes = λ w. small;
  root = 1;
  on_open = λ n. if n == 2 then some (λ w parent. (true, w)) else none;
  on_close = λ n. none;
  on_read = λ n. if n == 2 then some (ram_read n) else none;
  on_write = λ n. none;
  on_create_child = λ n. none;
}

-- The second read starts at the end of the file, and still gives a byte.
reads : read_all ram_driver one_open ram 0 (2 ∷ 5 ∷ []) ≡ some (6 ∷ 7 ∷ 8 ∷ [])
unfolding read_all io_read fs_read get_file_desc put_desc data_of with_data ram_read read_file
reads = refl

open_file-outcome_example :
    open_file disk (replicate 3 none) 0 none 1 open_read
    ≡ outcome (replicate 3 none) 0 1 open_read none (fs_open disk 0 none 1)
open_file-outcome_example =
    open_file-outcome disk (replicate 3 none) 0 none 1 open_read 0 (omega arith) (omega arith) refl
      (λ j p. absurd (omega arith))

abbrev path_a_b : List ℕ
path_a_b = b'a' ∷ b'/' ∷ b'b' ∷ 0 ∷ []

io_path_split_leaf-Cut_example : Cut path_a_b (io_path_split_leaf path_a_b)
io_path_split_leaf-Cut_example = io_path_split_leaf-Cut path_a_b
