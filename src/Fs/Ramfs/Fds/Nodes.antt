-- ===== src/Fs/Ramfs/Fds/Nodes.antt =====
-- What opening a file, making a directory and changing to one do to the descriptors, of
-- kernel/src/fs/ramfs.c.
use sudo_os.Prelude.{
  ℕ, ◌≡◌, Bool, true, false, refl, ap, subst, Option, none, some, List, if◌then◌else◌, Bool-cases,
  Option-cases, inl, inr, length, replicate,
}
use sudo_os.Fs.Ramfs.{
  Outcome, done, fault, Fs, node_at, is_dir, alloc_inode, first_unused, resolve_path, file, dir,
}
use sudo_os.Fs.Ramfs.Ops.{
  name_fits, name_of, create_file, fresh_node, open_node, ramfs_open, ramfs_mkdir, ramfs_chdir,
}
use sudo_os.Fs.Ramfs.Fds.{ref_of, Move, stays, FdChange, nothing, open_node-FdChange}
use sudo_os.Fs.Ramfs.Fds.Calls.{Yields, no_result, yields, Yields-if}

-- The descriptors and the open files are the same.
abbrev SameFds : Fs → Fs → Type 0
SameFds fs fs' = (fs'.handles ≡ fs.handles) × (fs'.fd_table ≡ fs.fd_table)

no_change : (fs fs' : Fs) → SameFds fs fs' → FdChange fs fs'
no_change fs fs' (e, g) = stays (ap length e) (λ j. ap (λ hs. ref_of hs j) e) g

after_same : (fs fs' fs'' : Fs) → SameFds fs fs' → FdChange fs' fs'' → FdChange fs fs''
after_same fs fs' fs'' (e, g) m =
    subst (λ hs. Move hs fs''.handles fs.fd_table fs''.fd_table) e
      (subst (λ fds. Move fs'.handles fs''.handles fds fs''.fd_table) g m)

alloc_inode-SameFds : (fs : Fs) → SameFds fs (alloc_inode fs).1
unfolding alloc_inode
alloc_inode-SameFds fs = elim (Option-cases (first_unused fs.files 0)) [
  | inl e ↦ rw (e, alloc_inode) (refl, refl)
  | inr (i, e) ↦ rw (e, alloc_inode) (refl, refl)
]

create_file-SameFds :
    (fs : Fs) (memory : Bool) (parent : Option ℕ) (name : List ℕ)
    → Yields (λ r. SameFds fs r.1) (create_file fs memory parent name)
unfolding create_file
create_file-SameFds fs memory none name = yields (refl, refl)
create_file-SameFds fs memory (some parent) name =
    on_inode (alloc_inode fs).0 memory (alloc_inode fs).1 (alloc_inode-SameFds fs)
  where
    on_inode :
        (inode : Option ℕ) (memory : Bool) (fs' : Fs)
        → SameFds fs fs'
        → Yields {A = Option ℕ × Fs}
            (λ r. SameFds fs r.1)
            (elim inode [
              | none ↦ done (none, fs')
              | some i ↦
                  if memory
                  then done (some i, fresh_node fs' i name file parent (some (replicate 4096 0)))
                  else fault
            ])
    on_inode none memory fs' h = yields h
    on_inode (some i) true fs' h = yields h
    on_inode (some i) false fs' h = no_result

pub ramfs_chdir-FdChange : (fs : Fs) (path : List ℕ) → FdChange fs (ramfs_chdir fs path).1
unfolding ramfs_chdir
ramfs_chdir-FdChange fs path = on_inode (resolve_path fs path).inode
  where
    on_inode :
        (inode : Option ℕ)
        → FdChange fs
            (elim inode as (λ x. Bool × Fs) [
              | none ↦ (false, fs)
              | some inode ↦
                  if is_dir (node_at fs inode).kind
                  then (true, if fs.has_proc then record fs { cwd_inode = inode } else fs)
                  else (false, fs)
            ]).1
    on_inode none = nothing fs
    on_inode (some inode) = elim (Bool-cases (is_dir (node_at fs inode).kind)) [
      | inl is_one ↦ elim (Bool-cases fs.has_proc) [
        | inl proc ↦ rw (is_one, proc) (nothing fs)
        | inr none_of ↦ rw (is_one, none_of) (nothing fs)
      ]
      | inr other ↦ rw other (nothing fs)
    ]

pub ramfs_open-FdChange :
    (fs : Fs) (memory : Bool) (path : List ℕ) (creat : Bool)
    → Yields (λ r. FdChange fs r.1) (ramfs_open fs memory path creat)
unfolding ramfs_open
ramfs_open-FdChange fs memory path creat =
    Yields-if _ (name_fits (resolve_path fs path).name) _ _
      (on_inode (resolve_path fs path).inode creat
        (create_file fs memory (resolve_path fs path).parent (name_of (resolve_path fs path).name))
        (create_file-SameFds fs memory (resolve_path fs path).parent
          (name_of (resolve_path fs path).name)))
      no_result
  where
    on_inode :
        (inode : Option ℕ) (creat : Bool) (created : Outcome (Option ℕ × Fs))
        → Yields (λ r. SameFds fs r.1) created
        → Yields {A = Option ℕ × Fs}
            (λ r. FdChange fs r.1)
            (elim inode [
              | some inode ↦ done (open_node fs inode)
              | none ↦
                  if creat
                  then elim created [
                    | fault ↦ fault
                    | done (none, fs') ↦ done (none, fs')
                    | done (some inode, fs') ↦ done (open_node fs' inode)
                  ]
                  else done (none, fs)
            ])
    on_inode (some inode) creat created h = yields (open_node-FdChange fs inode)
    on_inode none false created h = yields (nothing fs)
    on_inode none true fault h = no_result
    on_inode none true (done (none, fs')) (yields same) = yields (no_change fs fs' same)
    on_inode none true (done (some inode, fs')) (yields same) =
        yields (after_same fs fs' (open_node fs' inode).1 same (open_node-FdChange fs' inode))

pub ramfs_mkdir-FdChange :
    (fs : Fs) (path : List ℕ) → Yields (λ r. FdChange fs r.1) (ramfs_mkdir fs path)
unfolding ramfs_mkdir
ramfs_mkdir-FdChange fs path =
    Yields-if _ (name_fits (resolve_path fs path).name) _ _
      (on_inode (resolve_path fs path).inode (resolve_path fs path).parent (alloc_inode fs).0
        (alloc_inode fs).1 (alloc_inode-SameFds fs))
      no_result
  where
    on_inode :
        (inode parent new_dir : Option ℕ) (fs' : Fs)
        → SameFds fs fs'
        → Yields {A = Bool × Fs}
            (λ r. FdChange fs r.1)
            (elim inode [
              | some inode ↦ done (false, fs)
              | none ↦ elim parent [
                | none ↦ done (false, fs)
                | some parent ↦ elim new_dir [
                  | none ↦ done (false, fs')
                  | some i ↦
                      done (
                        true,
                        fresh_node fs' i (name_of (resolve_path fs path).name) dir parent none,
                      )
                ]
              ]
            ])
    on_inode (some inode) parent new_dir fs' same = yields (nothing fs)
    on_inode none none new_dir fs' same = yields (nothing fs)
    on_inode none (some parent) none fs' same = yields (no_change fs fs' same)
    on_inode none (some parent) (some i) fs' (e, g) =
        yields (stays (ap length e) (λ j. ap (λ hs. ref_of hs j) e) g)
