-- ===== src/Fs/Ramfs/Cwd.antt =====
-- `ramfs_getcwd` of kernel/src/fs/ramfs.c.
use sudo_os.Prelude.{
  ℕ, zero, suc, ◌+◌, ◌||◌, not, Option, none, some, List, [], ◌∷◌, ◌++◌, ◌==◌, leb, ltb,
  if◌then◌else◌,
}
use sudo_os.Klib.{strlen}
use sudo_os.Fs.Ramfs.{Outcome, done, fault, Fs, node_at}

-- The first loop, from the node `temp` on: the length of the path, `none` where it does not fit. The
-- length grows in every round, so `size` rounds are enough. A parent index of -1 ends the loop.
unfoldable pub measure : Fs → ℕ → ℕ → ℕ → ℕ → Option ℕ
measure fs zero temp len size = none
measure fs (suc n) temp len size =
    let len' = len + 1 + strlen (node_at fs temp).name in
    elim (node_at fs temp).parent_idx [
      | none ↦ if temp == 0 then some len else some len'
      | some parent ↦
          let rest = measure fs n parent len' size in
          if temp == 0 then some len else (if leb size len' then none else rest)
    ]

-- The second loop: the names from the root down to `temp`, each behind a `/`. A parent index of -1
-- makes it read in front of the table.
unfoldable pub spell : Fs → ℕ → ℕ → Outcome (List ℕ)
spell fs zero temp = if temp == 0 then done [] else fault
spell fs (suc n) temp =
    let name = (node_at fs temp).name in
    elim (node_at fs temp).parent_idx [
      | none ↦ if temp == 0 then done [] else fault
      | some parent ↦
          let above = spell fs n parent in
          if temp == 0
          then done []
          else elim above [ fault ↦ fault | done path ↦ done (path ++ b'/' ∷ name) ]
    ]

-- The text in `buf`, `none` for NULL. A path of `len` characters has at most as many components.
unfoldable pub ramfs_getcwd : Fs → ℕ → Outcome (Option (List ℕ))
ramfs_getcwd fs size =
    if size == 0 || not fs.has_proc
    then done none
    else (if fs.cwd_inode == 0
        then done (if ltb size 2 then none else some (b'/' ∷ []))
        else elim (measure fs size fs.cwd_inode 0 size) [
          | none ↦ done none
          | some len ↦ elim (spell fs len fs.cwd_inode) [
            | fault ↦ fault
            | done path ↦ done (some path)
          ]
        ])
