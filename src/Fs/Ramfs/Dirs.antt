-- ===== src/Fs/Ramfs/Dirs.antt =====
-- Listing a directory, the status of a node, and the first contents of the tables: `ramfs_getdents64`,
-- `ramfs_stat`, `ramfs_fstat` and `ramfs_init` of kernel/src/fs/ramfs.c.
use sudo_os.Prelude.{
  ℕ, zero, suc, ◌+◌, ◌-◌, ◌≤◌, ◌<◌, ◌≡◌, ◌⊎◌, Bool, true, ◌&&◌, refl, ap, sym, ◌∙◌, arith, Option,
  none, some, List, [], ◌∷◌, ◌++◌, ltb, if◌then◌else◌, Bool-cases, inl, inr, replicate, set,
}
use mathlib.Core.Bool.{false≢true}
use native.Mathlib.Decide.{ℕ_discrete}
use sudo_os.Prelude.Words.{align_up}
use sudo_os.Prelude.Int.{ℤ, pos, negsuc}
use sudo_os.Klib.{strlen}
use sudo_os.Fs.Ramfs.{
  Outcome, done, fault, NodeType, file, dir, is_dir, Fs, node_at, handle_at, cleared_node,
  cleared_handle, max_files, max_system_open_files, alloc_inode, same_parent, resolve_path,
}
use sudo_os.Fs.Ramfs.Ops.{open_file, overwrite}

-- `struct linux_dirent64`
pub record Dirent : Type 0 where
  pub d_ino : ℕ
  pub d_off : ℕ
  pub d_reclen : ℕ
  pub d_type : ℕ
  pub d_name : List ℕ

-- The size of the structure is 24.
abbrev pub reclen_of : List ℕ → ℕ
reclen_of name = align_up (24 + strlen name + 1) 8

-- `n > count`, as `int`
abbrev pub exceeds : ℕ → ℤ → Bool
exceeds n (pos c) = ltb c n
exceeds n (negsuc c) = true

-- What the loop leaves: the records, `search_idx` and `bpos`.
pub record Listing : Type 0 where
  pub records : List Dirent
  pub search_idx : ℕ
  pub bpos : ℕ

abbrev pub dirent : Fs → ℕ → ℕ → Dirent
dirent fs idx bpos = record {
  d_ino = idx + 1;
  d_off = bpos + reclen_of (node_at fs idx).name;
  d_reclen = reclen_of (node_at fs idx).name;
  d_type = if is_dir (node_at fs idx).kind then 4 else 8;
  d_name = (node_at fs idx).name;
}

abbrev pub is_child : Fs → ℕ → ℕ → Bool
is_child fs target idx = (node_at fs idx).is_used && same_parent (node_at fs idx).parent_idx target

-- The loop, with `n` rounds left.
unfoldable pub list_nodes : Fs → ℕ → ℤ → ℕ → ℕ → ℕ → Listing
list_nodes fs target count zero idx bpos = record { records = []; search_idx = idx; bpos = bpos }
list_nodes fs target count (suc n) idx bpos =
    let child = is_child fs target idx in
    let end = if child then bpos + reclen_of (node_at fs idx).name else bpos in
    let rest = list_nodes fs target count n (idx + 1) end in
    if child && exceeds end count
    then record { records = []; search_idx = idx; bpos = bpos }
    else (if child then record rest { records = dirent fs idx bpos ∷ rest.records } else rest)

-- The listing of the open directory `i`, whose node is the last argument.
unfoldable pub list_open : Fs → ℕ → ℤ → Option ℕ → Outcome (ℤ × List Dirent × Fs)
list_open fs i count none = fault
list_open fs i count (some inode) =
    let h = handle_at fs i in
    let l = list_nodes fs (node_at fs inode).inode_idx count (max_files - h.offset) h.offset 0 in
    if is_dir (node_at fs inode).kind
    then done (
      pos l.bpos,
      l.records,
      record fs { handles = set fs.handles i (record h { offset = l.search_idx }) },
    )
    else done (negsuc 0, [], fs)

-- `ramfs_getdents64`: the result, the records in `dirp`, and the new state.
unfoldable pub ramfs_getdents64 : Fs → ℤ → ℤ → Outcome (ℤ × List Dirent × Fs)
ramfs_getdents64 fs fd count = elim (open_file fs fd) [
  | fault ↦ fault
  | done none ↦ done (negsuc 0, [], fs)
  | done (some i) ↦ list_open fs i count (handle_at fs i).node
]

-- The fields of `struct dummy_stat` that are set.
pub record Stat : Type 0 where
  pub st_ino : ℕ
  pub st_size : ℕ
  pub st_mode : ℕ

-- `ramfs_stat`; the modes are 040777 and 0100777 in octal.
unfoldable pub ramfs_stat : Fs → List ℕ → Option Stat
ramfs_stat fs path = elim (resolve_path fs path).inode [
  | none ↦ none
  | some inode ↦ some (record {
    st_ino = inode + 1;
    st_size = (node_at fs inode).size;
    st_mode = if is_dir (node_at fs inode).kind then 0x41FF else 0x81FF;
  })
]

-- `ramfs_fstat`, which looks for the name of the open node as a path.
unfoldable pub ramfs_fstat : Fs → ℤ → Outcome (Option Stat)
ramfs_fstat fs fd = elim (open_file fs fd) [
  | fault ↦ fault
  | done none ↦ done none
  | done (some i) ↦ elim (handle_at fs i).node [
    | none ↦ fault
    | some inode ↦ done (ramfs_stat fs (node_at fs inode).name)
  ]
]

abbrev pub chain : {A B : Type 0} → Outcome A → (A → Outcome B) → Outcome B
chain fault f = fault
chain (done a) f = f a

-- A new node of `ramfs_init`; there is always room for it.
unfoldable pub make_node : Fs → List ℕ → NodeType → ℕ → Option (List ℕ) → ℕ → Outcome (ℕ × Fs)
make_node fs name kind parent content size =
    let (i, fs') = alloc_inode fs in
    elim i [
      | none ↦ fault
      | some i ↦ done (
        i,
        record fs' {
          files = set fs'.files i (record (node_at fs' i) {
            name = name;
            kind = kind;
            parent_idx = some parent;
            content = content;
            size = size;
          });
        },
      )
    ]

-- The texts that are put into the two source files.
abbrev pub shell_code : List ℕ
shell_code =
    b'/' ∷ b'/' ∷ b' ' ∷ b'T' ∷ b'h' ∷ b'i' ∷ b's' ∷ b' ' ∷ b'i' ∷ b's' ∷ b' ' ∷ b'S' ∷ b'u' ∷ b'd'
    ∷ b'o' ∷ b'O' ∷ b'S' ∷ b' ' ∷ b'S' ∷ b'h' ∷ b'e' ∷ b'l' ∷ b'l' ∷ b' ' ∷ b'S' ∷ b'o' ∷ b'u'
    ∷ b'r' ∷ b'c' ∷ b'e' ∷ b' ' ∷ b'C' ∷ b'o' ∷ b'd' ∷ b'e' ∷ b'.' ∷ b'.' ∷ b'.' ∷ 10 ∷ []

abbrev pub main_code : List ℕ
main_code =
    b'/' ∷ b'/' ∷ b' ' ∷ b'U' ∷ b's' ∷ b'e' ∷ b'r' ∷ b' ' ∷ b'M' ∷ b'a' ∷ b'i' ∷ b'n' ∷ b' ' ∷ b'E'
    ∷ b'n' ∷ b't' ∷ b'r' ∷ b'y' ∷ b' ' ∷ b'P' ∷ b'o' ∷ b'i' ∷ b'n' ∷ b't' ∷ 10 ∷ []

-- The cleared tables with the root directory; the current process is not touched.
abbrev pub root_only : Fs → Fs
root_only fs = record fs {
  files =
      set (replicate max_files cleared_node) 0
        (record cleared_node { is_used = true; kind = dir; parent_idx = none });
  handles = replicate max_system_open_files cleared_handle;
}

-- The two text files; `pages` are what `kmalloc` gives for them, `none` for NULL.
unfoldable pub add_text : Fs → ℕ → List ℕ → List ℕ → Option (List ℕ) → Outcome Fs
add_text fs usr name text none = fault
add_text fs usr name text (some page) =
    chain (make_node fs name file usr (some (overwrite page 0 (text ++ (0 ∷ [])))) (strlen text))
      (λ r. done r.1)

-- `ramfs_init`
unfoldable pub ramfs_init : Fs → List ℕ → ℕ → Option (List ℕ) → Option (List ℕ) → Outcome Fs
ramfs_init fs image size page1 page2 =
    chain (make_node (root_only fs) (b'i' ∷ b'n' ∷ b'i' ∷ b't' ∷ []) file 0 (some image) size)
      λ init. chain (make_node init.1 (b'u' ∷ b's' ∷ b'r' ∷ []) dir 0 none 0) λ usr.
        chain (make_node usr.1 (b'b' ∷ b'i' ∷ b'n' ∷ []) dir usr.0 none 0) λ bin.
          chain (make_node bin.1 (b'l' ∷ b'i' ∷ b'b' ∷ []) dir usr.0 none 0) λ lib.
            chain
              (add_text lib.1 usr.0 (b's' ∷ b'h' ∷ b'e' ∷ b'l' ∷ b'l' ∷ b'.' ∷ b'c' ∷ []) shell_code
                page1)
              λ shell.
                add_text shell usr.0
                  (b'u' ∷ b's' ∷ b'r' ∷ b'm' ∷ b'a' ∷ b'i' ∷ b'n' ∷ b'.' ∷ b'c' ∷ []) main_code
                  page2

-- The bytes that records take.
abbrev pub bytes_of : List Dirent → ℕ
bytes_of [] = 0
bytes_of (d ∷ ds) = d.d_reclen + bytes_of ds

list_nodes-fits :
    (fs : Fs) (target count n idx bpos : ℕ)
    → bpos ≤ count
    → let l = list_nodes fs target (pos count) n idx bpos in
      (l.bpos ≡ bpos + bytes_of l.records)
      × (l.bpos ≤ count)
      × (idx ≤ l.search_idx)
      × (l.search_idx ≤ idx + n)
unfolding list_nodes
list_nodes-fits fs target count zero idx bpos le = (omega arith, le, omega arith, omega arith)
list_nodes-fits fs target count (suc n) idx bpos le = elim (Bool-cases (is_child fs target idx)) [
  | inr other ↦
      let r = list_nodes-fits fs target count n (idx + 1) bpos le in
      rw other (r.0, r.1, omega arith, omega arith)
  | inl child ↦
      let end = bpos + reclen_of (node_at fs idx).name in
      elim (Bool-cases (ltb count end)) [
        | inl full ↦ rw (child, full) (omega arith, le, omega arith, omega arith)
        | inr room ↦
            let fits : end ≤ count = ground arith in
            let r = list_nodes-fits fs target count n (idx + 1) end fits in
            rw (child, room) (omega arith, r.1, omega arith, omega arith)
      ]
]

-- Node `j` is among the records.
abbrev pub Lists : ℕ → List Dirent → Type 0
Lists j [] = ⊥
Lists j (d ∷ ds) = (d.d_ino ≡ j + 1) ⊎ Lists j ds

-- No child is skipped: of the nodes from the index where the loop starts up to the one where it stops
-- (where the next call goes on), each child of the directory has a record, even when the buffer is full
-- before the end of the table.
pub list_nodes-Lists :
    (fs : Fs) (target : ℕ) (count : ℤ) (n idx bpos j : ℕ)
    → idx ≤ j
    → j < (list_nodes fs target count n idx bpos).search_idx
    → is_child fs target j ≡ true
    → Lists j (list_nodes fs target count n idx bpos).records
unfolding list_nodes
list_nodes-Lists fs target count zero idx bpos j lo hi is = absurd (omega arith)
list_nodes-Lists fs target count (suc n) idx bpos j lo hi is =
    elim (Bool-cases (is_child fs target idx)) [
      | inr other ↦
          let hi' : j < (list_nodes fs target count n (idx + 1) bpos).search_idx = rw other at hi in
          elim (ℕ_discrete idx j) [
            | yes e ↦ absurd (false≢true (sym other ∙ rw e is))
            | no ne ↦
                rw other (list_nodes-Lists fs target count n (idx + 1) bpos j (omega arith) hi' is)
          ]
      | inl child ↦
          let end = bpos + reclen_of (node_at fs idx).name in
          elim (Bool-cases (exceeds end count)) [
            | inl full ↦ let hi' : j < idx = rw (child, full) at hi in absurd (omega arith)
            | inr room ↦
                let hi' : j < (list_nodes fs target count n (idx + 1) end).search_idx =
                  rw (child, room) at hi in
                elim (ℕ_discrete idx j) [
                  | yes e ↦ rw (child, room) (inl (omega arith))
                  | no ne ↦
                      rw (child, room)
                        (inr
                          (list_nodes-Lists fs target count n (idx + 1) end j (omega arith) hi' is))
                ]
          ]
    ]

-- `ramfs_getdents64` on an open directory, with a buffer of `count` bytes, returns the number of bytes
-- that its records take, which is at most `count`, and changes no node and no descriptor.
pub ramfs_getdents64-fits :
    (fs : Fs) (fd : ℤ) {i inode : ℕ} (count : ℕ)
    → open_file fs fd ≡ done (some i)
    → (handle_at fs i).node ≡ some inode
    → is_dir (node_at fs inode).kind ≡ true
    → (records : List Dirent) × (fs' : Fs) × (ramfs_getdents64 fs fd (pos count)
        ≡ done (pos (bytes_of records), records, fs'))
      × (bytes_of records ≤ count)
      × (fs'.files ≡ fs.files)
      × (fs'.fd_table ≡ fs.fd_table)
unfolding ramfs_getdents64 list_open
ramfs_getdents64-fits fs fd {i} {inode} count opened at_node is =
    let h = handle_at fs i in
    let target = (node_at fs inode).inode_idx in
    let l = list_nodes fs target (pos count) (64 - h.offset) h.offset 0 in
    let f = list_nodes-fits fs target count (64 - h.offset) h.offset 0 (omega arith) in
    let total : l.bpos ≡ bytes_of l.records = omega (arith, f.0) in
    let fs' : Fs = record fs { handles = set fs.handles i (record h { offset = l.search_idx }) } in
    (
      l.records,
      fs',
      rw (opened, ramfs_getdents64)
          (ap (λ m. list_open fs i (pos count) m) at_node
            ∙ rw is (ap (λ b. done (pos b, l.records, fs')) total)),
      omega (arith, f.1),
      refl,
      refl,
    )
