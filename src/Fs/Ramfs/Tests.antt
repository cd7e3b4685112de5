-- ===== src/Fs/Ramfs/Tests.antt =====
-- Concrete runs of kernel/src/fs/ramfs.c.
use sudo_os.Prelude.{
  ◌≤◌, ℕ, ◌≡◌, true, refl, arith, none, some, List, [], ◌∷◌, replicate, length-replicate,
}
use sudo_os.Prelude.Int.{pos}
use sudo_os.Fs.Ramfs.Dirs.{
  Dirent, ramfs_getdents64, bytes_of, Lists, list_nodes, ramfs_getdents64-fits, list_nodes-Lists,
}
use sudo_os.Fs.Ramfs.Fuel.{Walks, start_of, text_read, resolve_path-Walks}
use sudo_os.Fs.Ramfs.{slash, resolve_path, done, Fs, Node, file, dir}
use sudo_os.Fs.Ramfs.Ops.{open_file, ramfs_read, ramfs_write}
use sudo_os.Fs.Ramfs.File.{
  OpenAt, FileOf, Written, Given, ramfs_write-Written, ramfs_read-Given, ramfs_read-ramfs_write,
}

abbrev root : Node
root = record {
  name = [];
  content = none;
  size = 0;
  is_used = true;
  kind = dir;
  parent_idx = some 0;
  inode_idx = 0;
}

abbrev note : Node
note = record {
  name = b'n' ∷ [];
  content = some (replicate 4096 0);
  size = 3;
  is_used = true;
  kind = file;
  parent_idx = some 0;
  inode_idx = 1;
}

-- The file `note` is open twice, as the descriptors 3 and 4, both at its start.
abbrev two_open : Fs
two_open = record {
  files = root ∷ note ∷ [];
  handles =
      record { node = some 1; offset = 0; ref_count = 1 }
      ∷ record { node = some 1; offset = 0; ref_count = 1 }
      ∷ [];
  has_proc = true;
  cwd_inode = 0;
  fd_table = none ∷ none ∷ none ∷ some 0 ∷ some 1 ∷ [];
}

first-OpenAt : OpenAt two_open (pos 3) 0 1 0
unfolding open_file
first-OpenAt = record { descriptor = refl; in_table = omega arith; node = refl; offset_at = refl }

second-OpenAt : OpenAt two_open (pos 4) 1 1 0
unfolding open_file
second-OpenAt = record { descriptor = refl; in_table = omega arith; node = refl; offset_at = refl }

note-FileOf : FileOf two_open 1 (replicate 4096 0)
note-FileOf = record {
  in_files = omega arith;
  regular = refl;
  content = refl;
  full_page = length-replicate {A = ℕ} 4096 0;
  fits = omega arith;
}

abbrev hello : List ℕ
hello = b'h' ∷ b'e' ∷ b'l' ∷ b'l' ∷ b'o' ∷ []

ramfs_write-Written_example :
    (fs : Fs) × (ramfs_write two_open (pos 3) hello (pos 5) ≡ done (pos 5, fs))
    × Written two_open 0 1 0 (replicate 4096 0) hello fs
ramfs_write-Written_example =
    ramfs_write-Written hello 5 first-OpenAt note-FileOf (omega arith) (omega arith) (omega arith)
      (omega arith)

ramfs_read-Given_example :
    (out : List ℕ) × (fs : Fs) × (ramfs_read two_open (pos 4) (pos 5) ≡ done (pos 3, out, fs))
    × Given two_open 1 0 3 (replicate 4096 0) out fs
ramfs_read-Given_example =
    ramfs_read-Given 5 second-OpenAt note-FileOf (omega arith) (omega arith) (omega arith)

ramfs_read-ramfs_write_example :
    (fs1 : Fs) × (fs2 : Fs) × (ramfs_write two_open (pos 3) hello (pos 5) ≡ done (pos 5, fs1))
    × (ramfs_read fs1 (pos 4) (pos 5) ≡ done (pos 5, hello, fs2))
ramfs_read-ramfs_write_example =
    ramfs_read-ramfs_write hello 5 first-OpenAt second-OpenAt (λ e. absurd (omega arith))
      note-FileOf (omega arith) (omega arith) (omega arith)

-- The root is open as descriptor 3.
abbrev root_open : Fs
root_open = record {
  files = root ∷ note ∷ [];
  handles = record { node = some 0; offset = 0; ref_count = 1 } ∷ [];
  has_proc = true;
  cwd_inode = 0;
  fd_table = none ∷ none ∷ none ∷ some 0 ∷ [];
}

ramfs_getdents64-fits_example :
    (records : List Dirent) × (fs : Fs) × (ramfs_getdents64 root_open (pos 3) (pos 100)
      ≡ done (pos (bytes_of records), records, fs))
    × (bytes_of records ≤ 100)
    × (fs.files ≡ root ∷ note ∷ [])
    × (fs.fd_table ≡ none ∷ none ∷ none ∷ some 0 ∷ [])
unfolding open_file
ramfs_getdents64-fits_example = ramfs_getdents64-fits root_open (pos 3) 100 refl refl refl

list_nodes-Lists_example : Lists 1 (list_nodes root_open 0 (pos 100) 64 0 0).records
unfolding list_nodes
list_nodes-Lists_example =
    list_nodes-Lists root_open 0 (pos 100) 64 0 0 1 (omega arith) (omega arith) refl

resolve_path-Walks_example :
    Walks root_open
      (start_of root_open (slash ∷ b'n' ∷ []))
      (text_read (slash ∷ b'n' ∷ []))
      (resolve_path root_open (slash ∷ b'n' ∷ []))
resolve_path-Walks_example = resolve_path-Walks root_open (slash ∷ b'n' ∷ [])
