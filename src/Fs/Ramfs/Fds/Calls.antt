-- ===== src/Fs/Ramfs/Fds/Calls.antt =====
-- What each system call of kernel/src/fs/ramfs.c does to the descriptors and the open files.
use sudo_os.Prelude.{
  ℕ, zero, suc, ◌+◌, ◌≡◌, Bool, true, false, refl, ap, sym, subst, Option, none, some, List, [],
  if◌then◌else◌, leb, ltb, Bool-cases, Option-cases, inl, inr, get_or, length, length-set,
  get_or-set_ne,
}
use sudo_os.Prelude.Int.{ℤ, pos, negsuc}
use sudo_os.Fs.Ramfs.{
  Outcome, done, fault, Node, Handle, Fs, node_at, handle_at, cleared_handle, is_dir, max_fd,
  free_file_handle,
}
use sudo_os.Fs.Ramfs.Ops.{
  open_file, read_len, read_bytes, read_node, ramfs_read, write_len, store_bytes, write_bytes,
  write_node, ramfs_write, close_fd, ramfs_close,
}
use sudo_os.Fs.Ramfs.Dirs.{list_open, ramfs_getdents64}
use sudo_os.Fs.Ramfs.Fds.{closes, FdChange, nothing, set_handle}

-- What holds of the result, unless the operation faults.
pub data Yields {A : Type 0} (Q : A → Type 0) : Outcome A → Type 0 where
  no_result : Yields Q fault
  yields : {a : A} → Q a → Yields Q (done a)

pub Yields-done :
    {A : Type 0} (Q : A → Type 0) {o : Outcome A} {a : A} → Yields Q o → o ≡ done a → Q a
Yields-done {A} Q {o} {a} h e = inverted (subst (Yields Q) e h)
  where
    inverted : Yields Q (done a) → Q a
    inverted (yields q) = q

pub Yields-if :
    {A : Type 0} (Q : A → Type 0) (b : Bool) (x y : Outcome A)
    → Yields Q x
    → Yields Q y
    → Yields Q (if b then x else y)
Yields-if Q true x y h g = h
Yields-if Q false x y h g = g

read_bytes-FdChange :
    (fs : Fs) (i : ℕ) (n : Node) (count : ℤ)
    → Yields (λ r. FdChange fs r.2) (read_bytes fs i n (handle_at fs i) count)
unfolding read_bytes
read_bytes-FdChange fs i n (negsuc k) = yields (nothing fs)
read_bytes-FdChange fs i n (pos zero) = yields (nothing fs)
read_bytes-FdChange fs i n (pos (suc k)) = elim (Option-cases n.content) [
  | inl e ↦ rw e no_result
  | inr (bytes, e) ↦ rw e (yields (set_handle fs i _ refl))
]

read_node-FdChange :
    (fs : Fs) (i : ℕ) (count : ℤ) (inode : Option ℕ)
    → Yields (λ r. FdChange fs r.2) (read_node fs i count inode)
unfolding read_node
read_node-FdChange fs i count none = no_result
read_node-FdChange fs i count (some inode) =
    Yields-if _ (is_dir (node_at fs inode).kind) _ _ (yields (nothing fs)) (
      Yields-if _ (leb (node_at fs inode).size (handle_at fs i).offset) _ _ (yields (nothing fs)) (
        read_bytes-FdChange fs i (node_at fs inode)
          (read_len (node_at fs inode) (handle_at fs i) count)))

write_bytes-FdChange :
    (fs : Fs) (i inode : ℕ) (buf : List ℕ) (count : ℤ)
    → Yields (λ r. FdChange fs r.1) (write_bytes fs i inode buf count)
unfolding write_bytes store_bytes
write_bytes-FdChange fs i inode buf (negsuc k) = yields (nothing fs)
write_bytes-FdChange fs i inode buf (pos zero) = yields (nothing fs)
write_bytes-FdChange fs i inode buf (pos (suc k)) = elim (Option-cases (node_at fs inode).content) [
  | inl e ↦ rw (e, write_bytes) (yields (nothing fs))
  | inr (content, e) ↦
      rw (e, write_bytes)
        (Yields-if _ (leb ((handle_at fs i).offset + suc k) (length content)) _ _
          (yields (set_handle fs i _ refl)) no_result)
]

write_node-FdChange :
    (fs : Fs) (i : ℕ) (buf : List ℕ) (count : ℤ) (inode : Option ℕ)
    → Yields (λ r. FdChange fs r.1) (write_node fs i buf count inode)
unfolding write_node
write_node-FdChange fs i buf count none = no_result
write_node-FdChange fs i buf count (some inode) =
    Yields-if _ (is_dir (node_at fs inode).kind) _ _ (yields (nothing fs))
      (write_bytes-FdChange fs i inode buf (write_len (handle_at fs i).offset count))

list_open-FdChange :
    (fs : Fs) (i : ℕ) (count : ℤ) (inode : Option ℕ)
    → Yields (λ r. FdChange fs r.2) (list_open fs i count inode)
unfolding list_open
list_open-FdChange fs i count none = no_result
list_open-FdChange fs i count (some inode) =
    Yields-if _ (is_dir (node_at fs inode).kind) _ _ (yields (set_handle fs i _ refl))
      (yields (nothing fs))

-- A call on a descriptor does nothing or works on the open file of the descriptor.
open_file-Yields :
    {A : Type 0} (Q : A → Type 0) (fs : Fs) (fd : ℤ) (none_of : A) (f : ℕ → Outcome A)
    → Q none_of
    → ((i : ℕ) → open_file fs fd ≡ done (some i) → Yields Q (f i))
    → Yields Q
        (elim (open_file fs fd) [ fault ↦ fault | done none ↦ done none_of | done (some i) ↦ f i ])
open_file-Yields Q fs fd none_of f q h = on_file (open_file fs fd) refl
  where
    on_file :
        (o : Outcome (Option ℕ))
        → open_file fs fd ≡ o
        → Yields Q (elim o [ fault ↦ fault | done none ↦ done none_of | done (some i) ↦ f i ])
    on_file fault e = no_result
    on_file (done none) e = yields q
    on_file (done (some i)) e = h i e

pub ramfs_read-FdChange :
    (fs : Fs) (fd count : ℤ) → Yields (λ r. FdChange fs r.2) (ramfs_read fs fd count)
unfolding ramfs_read
ramfs_read-FdChange fs fd count =
    open_file-Yields (λ r. FdChange fs r.2) fs fd (negsuc 0, [], fs)
      (λ i. read_node fs i count (handle_at fs i).node) (nothing fs)
      λ i e. read_node-FdChange fs i count (handle_at fs i).node

pub ramfs_write-FdChange :
    (fs : Fs) (fd : ℤ) (buf : List ℕ) (count : ℤ)
    → Yields (λ r. FdChange fs r.1) (ramfs_write fs fd buf count)
unfolding ramfs_write
ramfs_write-FdChange fs fd buf count =
    open_file-Yields (λ r. FdChange fs r.1) fs fd (negsuc 0, fs)
      (λ i. write_node fs i buf count (handle_at fs i).node) (nothing fs)
      λ i e. write_node-FdChange fs i buf count (handle_at fs i).node

-- A descriptor with an open file is one of the table.
open_file-some :
    (fs : Fs) (fd i : ℕ)
    → open_file fs (pos fd) ≡ done (some i)
    → get_or fs.fd_table fd none ≡ some i
unfolding open_file
open_file-some fs fd i e = elim (Bool-cases (ltb fd max_fd)) [
  | inl lt ↦ elim (Bool-cases fs.has_proc) [ inl proc ↦ cc | inr no_proc ↦ absurd (cc) ]
  | inr ge ↦ absurd (cc)
]

close_fd-FdChange :
    (fs : Fs) (fd : ℤ) (i : ℕ) → open_file fs fd ≡ done (some i) → FdChange fs (close_fd fs fd i)
unfolding close_fd free_file_handle
close_fd-FdChange fs (negsuc n) i e = nothing fs
close_fd-FdChange fs (pos fd) i e =
    closes i fd (open_file-some fs fd i e)
      (record {
        size = length-set fs.handles i (record (handle_at fs i) { ref_count = 0; node = none });
        others = λ j ne. ap Handle.ref_count (
            get_or-set_ne fs.handles (record (handle_at fs i) { ref_count = 0; node = none })
              cleared_handle (λ e. ne (sym e)));
      })
      refl

pub ramfs_close-FdChange : (fs : Fs) (fd : ℤ) → Yields (λ r. FdChange fs r) (ramfs_close fs fd)
unfolding ramfs_close
ramfs_close-FdChange fs fd =
    open_file-Yields (λ r. FdChange fs r) fs fd fs (λ i. done (close_fd fs fd i)) (nothing fs)
      λ i e. yields (close_fd-FdChange fs fd i e)

pub ramfs_getdents64-FdChange :
    (fs : Fs) (fd count : ℤ) → Yields (λ r. FdChange fs r.2) (ramfs_getdents64 fs fd count)
unfolding ramfs_getdents64
ramfs_getdents64-FdChange fs fd count =
    open_file-Yields (λ r. FdChange fs r.2) fs fd (negsuc 0, [], fs)
      (λ i. list_open fs i count (handle_at fs i).node) (nothing fs)
      λ i e. list_open-FdChange fs i count (handle_at fs i).node
