-- ===== src/Fs/Ramfs/Types.antt =====
-- The tables of kernel/src/fs/ramfs.c and ramfs.h, and the functions that hand out their entries.
use sudo_os.Prelude.{
  ℕ, ◌+◌, Bool, true, false, Option, none, some, List, [], ◌∷◌, ◌==◌, if◌then◌else◌, get_or, set,
}

pub data Outcome {ℓ} (A : Type ℓ) : Type ℓ where
  done : A → Outcome A
  fault : Outcome A

-- `type`: 0 in a cleared node, RAMFS_TYPE_FILE or RAMFS_TYPE_DIR.
pub data NodeType : Type 0 where
  no_type file dir : NodeType

abbrev pub is_dir : NodeType → Bool
is_dir no_type = false
is_dir file = false
is_dir dir = true

-- `ramfs_node_t`; `content` is the buffer behind the pointer, `none` for NULL.
pub record Node : Type 0 where
  pub name : List ℕ
  pub content : Option (List ℕ)
  pub size : ℕ
  pub is_used : Bool
  pub kind : NodeType
  pub parent_idx : Option ℕ
  pub inode_idx : ℕ

-- `file_t`; `node` is the index of the node it points at.
pub record Handle : Type 0 where
  pub node : Option ℕ
  pub offset : ℕ
  pub ref_count : ℕ

abbrev pub max_files : ℕ
max_files = 64

abbrev pub max_system_open_files : ℕ
max_system_open_files = 128

abbrev pub max_fd : ℕ
max_fd = 16

-- The static tables, and of the current process, if there is one, its `cwd_inode` and `fd_table`, whose
-- entries are indices into the table of open files.
pub record Fs : Type 0 where
  pub files : List Node
  pub handles : List Handle
  pub has_proc : Bool
  pub cwd_inode : ℕ
  pub fd_table : List (Option ℕ)

-- What `memset(…, 0, …)` leaves.
abbrev pub cleared_node : Node
cleared_node = record {
  name = [];
  content = none;
  size = 0;
  is_used = false;
  kind = no_type;
  parent_idx = some 0;
  inode_idx = 0;
}

abbrev pub cleared_handle : Handle
cleared_handle = record { node = none; offset = 0; ref_count = 0 }

abbrev pub node_at : Fs → ℕ → Node
node_at fs i = get_or fs.files i cleared_node

abbrev pub handle_at : Fs → ℕ → Handle
handle_at fs i = get_or fs.handles i cleared_handle

-- The index of the first node, from index `i` on, that is not used.
unfoldable pub first_unused : List Node → ℕ → Option ℕ
first_unused [] i = none
first_unused (n ∷ ns) i = let rest = first_unused ns (i + 1) in if n.is_used then rest else some i

-- `alloc_inode`
unfoldable pub alloc_inode : Fs → Option ℕ × Fs
alloc_inode fs = elim (first_unused fs.files 0) [
  | none ↦ (none, fs)
  | some i ↦ (
    some i,
    record fs { files = set fs.files i (record cleared_node { is_used = true; inode_idx = i }) },
  )
]

unfoldable pub first_closed : List Handle → ℕ → Option ℕ
first_closed [] i = none
first_closed (h ∷ hs) i =
    let rest = first_closed hs (i + 1) in if h.ref_count == 0 then some i else rest

-- `alloc_file_handle`
unfoldable pub alloc_file_handle : Fs → Option ℕ × Fs
alloc_file_handle fs = elim (first_closed fs.handles 0) [
  | none ↦ (none, fs)
  | some i ↦
      (some i, record fs { handles = set fs.handles i (record cleared_handle { ref_count = 1 }) })
]

-- `free_file_handle`; the offset stays.
unfoldable pub free_file_handle : Fs → ℕ → Fs
free_file_handle fs i = record fs {
  handles = set fs.handles i (record (handle_at fs i) { ref_count = 0; node = none });
}
