-- ===== src/Fs/Ramfs/Fds.antt =====
-- What an operation of kernel/src/fs/ramfs.c can do to the descriptors of the current process and to the
-- table of open files, and that opening a node does it.
use sudo_os.Prelude.{
  ℕ, zero, suc, ◌+◌, ◌<◌, ◌≡◌, ◌≢◌, ◌∙◌, refl, ap, sym, subst, arith, Option, none, some, List, [],
  ◌∷◌, ◌==◌, Bool-cases, Option-cases, inl, inr, drop, get_or, set, length, length-set,
  get_or-set_self, get_or-set_ne,
}
use sudo_os.Fs.Ramfs.{
  Node, Handle, Fs, cleared_handle, first_closed, alloc_file_handle, free_file_handle,
}
use sudo_os.Fs.Ramfs.Ops.{first_free_fd, open_node, with_handle}
pub mod Calls
pub mod Nodes

-- The count of the references to open file `i`.
abbrev pub ref_of : List Handle → ℕ → ℕ
ref_of hs i = (get_or hs i cleared_handle).ref_count

abbrev refs : Fs → ℕ → ℕ
refs fs i = ref_of fs.handles i

-- The counts are the same but for that of open file `i`.
pub record SameBut (i : ℕ) (hs hs' : List Handle) : Type 0 where
  pub size : length hs' ≡ length hs
  pub others : (j : ℕ) → j ≢ i → ref_of hs' j ≡ ref_of hs j

-- The open files `hs` and the descriptors `fds` stay as they are, or a file that no count refers to is opened,
-- or a descriptor is closed.
pub data Move (hs hs' : List Handle) (fds fds' : List (Option ℕ)) : Type 0 where
  stays :
      length hs' ≡ length hs
      → ((j : ℕ) → ref_of hs' j ≡ ref_of hs j)
      → fds' ≡ fds
      → Move hs hs' fds fds'
  opens :
      (i fd : ℕ)
      → i < length hs
      → ref_of hs i ≡ 0
      → SameBut i hs hs'
      → ref_of hs' i ≡ 1
      → fds' ≡ set fds fd (some i)
      → Move hs hs' fds fds'
  closes :
      (i fd : ℕ)
      → get_or fds fd none ≡ some i
      → SameBut i hs hs'
      → fds' ≡ set fds fd none
      → Move hs hs' fds fds'

abbrev pub FdChange : Fs → Fs → Type 0
FdChange fs fs' = Move fs.handles fs'.handles fs.fd_table fs'.fd_table

pub nothing : (fs : Fs) → FdChange fs fs
nothing fs = stays refl (λ j. refl) refl

ref_of-set :
    (hs : List Handle) (i : ℕ) (h : Handle) (j : ℕ)
    → h.ref_count ≡ ref_of hs i
    → ref_of (set hs i h) j ≡ ref_of hs j
ref_of-set [] i h j e = refl
ref_of-set (x ∷ hs) zero h zero e = e
ref_of-set (x ∷ hs) zero h (suc j) e = refl
ref_of-set (x ∷ hs) (suc i) h zero e = refl
ref_of-set (x ∷ hs) (suc i) h (suc j) e = ref_of-set hs i h j e

-- A write to the open file `i` that keeps its count.
pub set_handle :
    (fs : Fs) (i : ℕ) (h : Handle)
    → h.ref_count ≡ refs fs i
    → Move fs.handles (set fs.handles i h) fs.fd_table fs.fd_table
set_handle fs i h e = stays (length-set fs.handles i h) (λ j. ref_of-set fs.handles i h j e) refl

first_closed-some :
    (hs : List Handle) (k i : ℕ)
    → first_closed hs k ≡ some i
    → (n : ℕ) × (i ≡ k + n) × (n < length hs) × (ref_of hs n ≡ 0)
unfolding first_closed
first_closed-some [] k i e = ground arith
first_closed-some (h ∷ hs) k i e = elim (Bool-cases (h.ref_count == 0)) [
  | inl z ↦ let here : k ≡ i = ground arith in (0, omega arith, omega arith, ground arith)
  | inr nz ↦
      let e' : first_closed hs (k + 1) ≡ some i = ground arith in
      let (n, p, lt, r) = first_closed-some hs (k + 1) i e' in (suc n, omega arith, omega arith, r)
]

-- The table with open file `i` set to a handle, and one descriptor.
open_at :
    (fs : Fs) (i fd : ℕ) (h : Handle)
    → i < length fs.handles
    → refs fs i ≡ 0
    → h.ref_count ≡ 1
    → FdChange fs
        (record fs { handles = set fs.handles i h; fd_table = set fs.fd_table fd (some i) })
open_at fs i fd h lt z one =
    opens i fd lt z
      (record {
        size = length-set fs.handles i h;
        others = λ j ne.
            ap Handle.ref_count (get_or-set_ne fs.handles h cleared_handle (λ e. ne (sym e)));
      })
      (ap Handle.ref_count (get_or-set_self fs.handles i h cleared_handle lt) ∙ one) refl

set_twice : {A : Type 0} (xs : List A) (i : ℕ) (a b : A) → set (set xs i a) i b ≡ set xs i b
set_twice [] i a b = refl
set_twice (x ∷ xs) zero a b = refl
set_twice (x ∷ xs) (suc i) a b = ap (λ l. x ∷ l) (set_twice xs i a b)

alloc_file_handle-none :
    (fs : Fs) → first_closed fs.handles 0 ≡ none → alloc_file_handle fs ≡ (none, fs)
unfolding alloc_file_handle
alloc_file_handle-none fs e = rw (e, alloc_file_handle) refl

alloc_file_handle-some :
    (fs : Fs) (i : ℕ)
    → first_closed fs.handles 0 ≡ some i
    → alloc_file_handle fs
      ≡ (some i, record fs { handles = set fs.handles i (record cleared_handle { ref_count = 1 }) })
unfolding alloc_file_handle
alloc_file_handle-some fs i e = rw (e, alloc_file_handle) refl

-- The handle that `ramfs_open` fills, and the same one given back.
abbrev filled : Fs → ℕ → ℕ → Handle
filled fs i inode =
    record (get_or (set fs.handles i (record cleared_handle { ref_count = 1 })) i cleared_handle) {
      node = some inode;
      offset = 0;
    }

give_back :
    (fs : Fs) (i : ℕ) (a b c : Handle)
    → refs fs i ≡ 0
    → c.ref_count ≡ 0
    → FdChange fs (record fs { handles = set (set (set fs.handles i a) i b) i c })
give_back fs i a b c z e =
    let once : set (set (set fs.handles i a) i b) i c ≡ set fs.handles i c =
      set_twice (set fs.handles i a) i b c ∙ set_twice fs.handles i a c in
    rw once (set_handle fs i c (e ∙ sym z))

with_handle-FdChange :
    (fs : Fs) (i inode : ℕ)
    → i < length fs.handles
    → refs fs i ≡ 0
    → FdChange fs
        (with_handle
          (some i)
          (record fs { handles = set fs.handles i (record cleared_handle { ref_count = 1 }) })
          inode).1
unfolding free_file_handle
with_handle-FdChange fs i inode lt z =
    let one : (filled fs i inode).ref_count ≡ 1 =
      ap Handle.ref_count (get_or-set_self fs.handles i _ cleared_handle lt) in
    elim (Bool-cases fs.has_proc) [
      | inr no_proc ↦ rw no_proc (give_back fs i _ (filled fs i inode) _ z refl)
      | inl proc ↦ elim (Option-cases (first_free_fd (drop 3 fs.fd_table) 3)) [
        | inl full ↦ rw (proc, full) (give_back fs i _ (filled fs i inode) _ z refl)
        | inr (fd, free) ↦
            rw
              (
                proc,
                free,
                set_twice fs.handles i (record cleared_handle { ref_count = 1 })
                    (filled fs i inode),
              )
              (open_at fs i fd (filled fs i inode) lt z one)
      ]
    ]

pub open_node-FdChange : (fs : Fs) (inode : ℕ) → FdChange fs (open_node fs inode).1
unfolding open_node
open_node-FdChange fs inode = elim (Option-cases (first_closed fs.handles 0)) [
  | inl e ↦
      subst (λ r. FdChange fs (with_handle r.0 r.1 inode).1) (sym (alloc_file_handle-none fs e))
        (nothing fs)
  | inr (i, e) ↦
      let (n, p, lt, z) = first_closed-some fs.handles 0 i e in
      let at : n ≡ i = omega arith in
      subst (λ r. FdChange fs (with_handle r.0 r.1 inode).1) (sym (alloc_file_handle-some fs i e))
        (with_handle-FdChange fs i inode (rw (← at) lt) (rw (← at) z))
]
