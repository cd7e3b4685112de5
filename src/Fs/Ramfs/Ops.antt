-- ===== src/Fs/Ramfs/Ops.antt =====
-- The operations of kernel/src/fs/ramfs.c that system calls reach. A result of -1 is `none` where the
-- other results are indices, and `negsuc 0` where they are counts.
use sudo_os.Prelude.{
  ℕ, zero, suc, ◌+◌, ◌-◌, ◌^◌, Bool, true, false, Option, none, some, List, [], ◌∷◌, ◌++◌, ltb, leb,
  if◌then◌else◌, length, take, drop, replicate, get_or, set,
}
use sudo_os.Prelude.Words.{add64, sub64, to_int}
use sudo_os.Prelude.Int.{ℤ, pos, negsuc}
use sudo_os.Klib.{strlen}
use sudo_os.Fs.Ramfs.{
  Outcome, done, fault, NodeType, file, dir, is_dir, Node, Handle, Fs, node_at, handle_at, max_fd,
  alloc_inode, alloc_file_handle, free_file_handle, resolve_path,
}

-- A copied name and its 0 must fit the 32 bytes of the caller's `name`.
abbrev pub name_fits : Option (List ℕ) → Bool
name_fits none = true
name_fits (some name) = ltb (strlen name) 32

-- The text in the caller's `name`, which starts as 0 bytes.
abbrev pub name_of : Option (List ℕ) → List ℕ
name_of none = []
name_of (some name) = name

-- The new node of `ramfs_open` and of `ramfs_mkdir`.
abbrev pub fresh_node : Fs → ℕ → List ℕ → NodeType → ℕ → Option (List ℕ) → Fs
fresh_node fs i name kind parent content = record fs {
  files = set fs.files i (record (node_at fs i) {
    name = name;
    kind = kind;
    parent_idx = some parent;
    size = 0;
    content = content;
  });
}

-- The creation of a missing file under O_CREAT: its index, if there was room for it.
unfoldable pub create_file : Fs → Bool → Option ℕ → List ℕ → Outcome (Option ℕ × Fs)
create_file fs memory none name = done (none, fs)
create_file fs memory (some parent) name =
    let (inode, fs') = alloc_inode fs in
    elim inode [
      | none ↦ done (none, fs')
      | some i ↦
          if memory
          then done (some i, fresh_node fs' i name file parent (some (replicate 4096 0)))
          else fault
    ]

-- The first free descriptor from `i` on, of the table's rest.
unfoldable pub first_free_fd : List (Option ℕ) → ℕ → Option ℕ
first_free_fd [] i = none
first_free_fd (none ∷ fds) i = some i
first_free_fd (some h ∷ fds) i = first_free_fd fds (i + 1)

-- The rest of `ramfs_open`, with the result of `alloc_file_handle`.
abbrev pub with_handle : Option ℕ → Fs → ℕ → Option ℕ × Fs
with_handle none fs inode = (none, fs)
with_handle (some h) fs inode =
    let fs' = record fs {
      handles = set fs.handles h (record (handle_at fs h) { node = some inode; offset = 0 });
    } in
    if fs'.has_proc
    then elim (first_free_fd (drop 3 fs'.fd_table) 3) [
      | none ↦ (none, free_file_handle fs' h)
      | some fd ↦ (some fd, record fs' { fd_table = set fs'.fd_table fd (some h) })
    ]
    else (none, free_file_handle fs' h)

-- The rest of `ramfs_open`, for the node `inode`.
unfoldable pub open_node : Fs → ℕ → Option ℕ × Fs
open_node fs inode = let (handle, fs') = alloc_file_handle fs in with_handle handle fs' inode

-- `ramfs_open`; `creat` is `flags & O_CREAT`.
unfoldable pub ramfs_open : Fs → Bool → List ℕ → Bool → Outcome (Option ℕ × Fs)
ramfs_open fs memory path creat =
    let r = resolve_path fs path in
    if name_fits r.name
    then elim r.inode [
      | some inode ↦ done (open_node fs inode)
      | none ↦
          if creat
          then elim (create_file fs memory r.parent (name_of r.name)) [
            | fault ↦ fault
            | done (none, fs') ↦ done (none, fs')
            | done (some inode, fs') ↦ done (open_node fs' inode)
          ]
          else done (none, fs)
    ]
    else fault

-- The open file of a descriptor: `none` if the descriptor is out of range or closed. Without a current
-- process the table is NULL, and a descriptor in range faults.
unfoldable pub open_file : Fs → ℤ → Outcome (Option ℕ)
open_file fs (negsuc n) = done none
open_file fs (pos fd) =
    if ltb fd max_fd
    then (if fs.has_proc then done (get_or fs.fd_table fd none) else fault)
    else done none

-- An `int` as a `uint64_t`.
abbrev pub to_u64 : ℤ → ℕ
to_u64 (pos n) = n
to_u64 (negsuc n) = 2 ^ 64 - suc n

-- The number of bytes that a read takes, as an `int`.
unfoldable pub read_len : Node → Handle → ℤ → ℤ
read_len n h count =
    if ltb n.size (add64 h.offset (to_u64 count)) then to_int (sub64 n.size h.offset) else count

-- The content is copied and the offset moves, if the number is positive; a NULL content faults.
unfoldable pub read_bytes : Fs → ℕ → Node → Handle → ℤ → Outcome (ℤ × List ℕ × Fs)
read_bytes fs i n h (negsuc k) = done (negsuc k, [], fs)
read_bytes fs i n h (pos zero) = done (pos 0, [], fs)
read_bytes fs i n h (pos (suc k)) = elim n.content [
  | none ↦ fault
  | some bytes ↦ done (
    pos (suc k),
    take (suc k) (drop h.offset bytes),
    record fs { handles = set fs.handles i (record h { offset = h.offset + suc k }) },
  )
]

-- A read of the open file `i`, whose node is the last argument.
unfoldable pub read_node : Fs → ℕ → ℤ → Option ℕ → Outcome (ℤ × List ℕ × Fs)
read_node fs i count none = fault
read_node fs i count (some inode) =
    let h = handle_at fs i in
    let n = node_at fs inode in
    if is_dir n.kind
    then done (negsuc 0, [], fs)
    else (if leb n.size h.offset
        then done (pos 0, [], fs)
        else read_bytes fs i n h (read_len n h count))

-- `ramfs_read`: the result, the bytes that `buf` gets, and the new state.
unfoldable pub ramfs_read : Fs → ℤ → ℤ → Outcome (ℤ × List ℕ × Fs)
ramfs_read fs fd count = elim (open_file fs fd) [
  | fault ↦ fault
  | done none ↦ done (negsuc 0, [], fs)
  | done (some i) ↦ read_node fs i count (handle_at fs i).node
]

-- `memcpy(content + offset, buf, n)`
unfoldable pub overwrite : List ℕ → ℕ → List ℕ → List ℕ
overwrite content offset bytes =
    take offset content ++ (bytes ++ drop (offset + length bytes) content)

-- The clipping of `count` to the 4096 bytes of a file: `(int)(max_size - offset)`.
unfoldable pub write_len : ℕ → ℤ → ℤ
write_len offset count =
    if ltb 4096 (add64 offset (to_u64 count))
    then (if leb offset 4096 then pos (4096 - offset) else negsuc (offset - 4096 - 1))
    else count

-- The copy of `k` bytes, and what follows it.
unfoldable pub store_bytes : Fs → ℕ → ℕ → List ℕ → List ℕ → ℕ → Fs
store_bytes fs i inode content buf k =
    let n = node_at fs inode in
    let h = handle_at fs i in
    let end = h.offset + k in
    record fs {
      files = set fs.files inode (record n {
        content = some (overwrite content h.offset (take k buf));
        size = if ltb n.size end then end else n.size;
      });
      handles = set fs.handles i (record h { offset = end });
    }

-- The copy takes place if the number is positive and there is a content; past the end of the buffer it
-- faults.
unfoldable pub write_bytes : Fs → ℕ → ℕ → List ℕ → ℤ → Outcome (ℤ × Fs)
write_bytes fs i inode buf (negsuc k) = done (negsuc k, fs)
write_bytes fs i inode buf (pos zero) = done (pos 0, fs)
write_bytes fs i inode buf (pos (suc k)) = elim (node_at fs inode).content [
  | none ↦ done (pos (suc k), fs)
  | some content ↦
      if leb ((handle_at fs i).offset + suc k) (length content)
      then done (pos (suc k), store_bytes fs i inode content buf (suc k))
      else fault
]

-- A write to the open file `i`, whose node is the last argument.
unfoldable pub write_node : Fs → ℕ → List ℕ → ℤ → Option ℕ → Outcome (ℤ × Fs)
write_node fs i buf count none = fault
write_node fs i buf count (some inode) =
    if is_dir (node_at fs inode).kind
    then done (negsuc 0, fs)
    else write_bytes fs i inode buf (write_len (handle_at fs i).offset count)

-- `ramfs_write`
unfoldable pub ramfs_write : Fs → ℤ → List ℕ → ℤ → Outcome (ℤ × Fs)
ramfs_write fs fd buf count = elim (open_file fs fd) [
  | fault ↦ fault
  | done none ↦ done (negsuc 0, fs)
  | done (some i) ↦ write_node fs i buf count (handle_at fs i).node
]

-- The end of `ramfs_close`.
unfoldable pub close_fd : Fs → ℤ → ℕ → Fs
close_fd fs (negsuc n) i = fs
close_fd fs (pos fd) i =
    let fs' = free_file_handle fs i in record fs' { fd_table = set fs'.fd_table fd none }

-- `ramfs_close`
unfoldable pub ramfs_close : Fs → ℤ → Outcome Fs
ramfs_close fs fd = elim (open_file fs fd) [
  | fault ↦ fault
  | done none ↦ done fs
  | done (some i) ↦ done (close_fd fs fd i)
]

-- `ramfs_mkdir`: `true` for the result 0.
unfoldable pub ramfs_mkdir : Fs → List ℕ → Outcome (Bool × Fs)
ramfs_mkdir fs path =
    let r = resolve_path fs path in
    if name_fits r.name
    then elim r.inode [
      | some inode ↦ done (false, fs)
      | none ↦ elim r.parent [
        | none ↦ done (false, fs)
        | some parent ↦
            let (new_dir, fs') = alloc_inode fs in
            elim new_dir [
              | none ↦ done (false, fs')
              | some i ↦ done (true, fresh_node fs' i (name_of r.name) dir parent none)
            ]
      ]
    ]
    else fault

-- `ramfs_chdir`
unfoldable pub ramfs_chdir : Fs → List ℕ → Bool × Fs
ramfs_chdir fs path = elim (resolve_path fs path).inode [
  | none ↦ (false, fs)
  | some inode ↦
      if is_dir (node_at fs inode).kind
      then (true, if fs.has_proc then record fs { cwd_inode = inode } else fs)
      else (false, fs)
]
