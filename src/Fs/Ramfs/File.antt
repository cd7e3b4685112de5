-- ===== src/Fs/Ramfs/File.antt =====
-- `ramfs_read` and `ramfs_write` of kernel/src/fs/ramfs.c on an open regular file.
use sudo_os.Prelude.{
  ℕ, zero, suc, ◌+◌, ◌-◌, ◌^◌, ◌≤◌, ◌<◌, ◌≡◌, ◌≢◌, true, false, refl, ap, sym, subst, ◌∙◌, arith,
  Option, none, some, List, [], ◌∷◌, ◌++◌, ltb, leb, if◌then◌else◌, length, take, drop, get_or, set,
  min, get_or-set_self, get_or-set_ne, length-append, length-take, length-drop, length-set,
}
use sudo_os.Prelude.Int.{ℤ, pos, negsuc}
use sudo_os.Fs.Ramfs.{
  done, fault, Fs, Node, Handle, node_at, handle_at, cleared_node, cleared_handle, is_dir,
}
use sudo_os.Fs.Ramfs.Ops.{
  open_file, read_len, read_bytes, ramfs_read, read_node, write_node, overwrite, write_len,
  write_bytes, ramfs_write, store_bytes,
}

-- Descriptor `fd` is the open file `i`, which reads and writes node `inode` at `offset`.
pub record OpenAt (fs : Fs) (fd : ℤ) (i inode offset : ℕ) : Type 0 where
  pub descriptor : open_file fs fd ≡ done (some i)
  pub in_table : i < length fs.handles
  pub node : (handle_at fs i).node ≡ some inode
  pub offset_at : (handle_at fs i).offset ≡ offset

-- Node `inode` is a regular file over a buffer of 4096 bytes, as `ramfs_open` makes it.
pub record FileOf (fs : Fs) (inode : ℕ) (bytes : List ℕ) : Type 0 where
  pub in_files : inode < length fs.files
  pub regular : is_dir (node_at fs inode).kind ≡ false
  pub content : (node_at fs inode).content ≡ some bytes
  pub full_page : length bytes ≡ 4096
  pub fits : (node_at fs inode).size ≤ 4096

-- What a write of the bytes `new` leaves: they stand in the file at the offset, the file reaches at
-- least to their end, and the offset stands behind them.
pub record Written (fs : Fs) (i inode offset : ℕ) (bytes new : List ℕ) (fs' : Fs) : Type 0 where
  pub content : (node_at fs' inode).content ≡ some (overwrite bytes offset new)
  pub size : (node_at fs' inode).size ≡ (
      if ltb (node_at fs inode).size (offset + length new)
      then offset + length new
      else (node_at fs inode).size)
  pub regular : is_dir (node_at fs' inode).kind ≡ false
  pub moved : (handle_at fs' i).offset ≡ offset + length new
  pub others : (j : ℕ) → i ≢ j → handle_at fs' j ≡ handle_at fs j
  pub other_nodes : (j : ℕ) → inode ≢ j → node_at fs' j ≡ node_at fs j
  pub descriptors : fs'.fd_table ≡ fs.fd_table
  pub same_proc : fs'.has_proc ≡ fs.has_proc
  pub tables : (length fs'.files ≡ length fs.files) × (length fs'.handles ≡ length fs.handles)

length-overwrite :
    (bytes : List ℕ) (o : ℕ) (new : List ℕ)
    → o + length new ≤ length bytes
    → length (overwrite bytes o new) ≡ length bytes
unfolding overwrite
length-overwrite bytes o new h = omega (
  arith,
  length-append (take o bytes) (new ++ drop (o + length new) bytes),
  length-append new (drop (o + length new) bytes),
  length-take o bytes,
  length-drop (o + length new) bytes,
)

drop-take_append :
    (o : ℕ) (bytes rest : List ℕ) → o ≤ length bytes → drop o (take o bytes ++ rest) ≡ rest
drop-take_append zero bytes rest h = refl
drop-take_append (suc o) [] rest h = absurd (omega arith)
drop-take_append (suc o) (b ∷ bytes) rest h = drop-take_append o bytes rest (omega arith)

take-append_self : (xs ys : List ℕ) → take (length xs) (xs ++ ys) ≡ xs
take-append_self [] ys = refl
take-append_self (x ∷ xs) ys = ap (λ l. x ∷ l) (take-append_self xs ys)

take-drop-overwrite :
    (bytes : List ℕ) (o : ℕ) (new : List ℕ)
    → o ≤ length bytes
    → take (length new) (drop o (overwrite bytes o new)) ≡ new
unfolding overwrite
take-drop-overwrite bytes o new h =
    ap (λ l. take (length new) l) (drop-take_append o bytes (new ++ drop (o + length new) bytes) h)
    ∙ take-append_self new (drop (o + length new) bytes)

length-take_le : (n : ℕ) (l : List ℕ) → n ≤ length l → length (take n l) ≡ n
length-take_le n l h = omega (arith, length-take n l)

module _ {fs : Fs} {i inode o : ℕ} {bytes : List ℕ} (f : FileOf fs inode bytes)
    (in_table : i < length fs.handles) (at_o : (handle_at fs i).offset ≡ o) where
  store_bytes-Written :
      (buf : List ℕ) (k : ℕ)
      → k ≤ length buf
      → Written fs i inode o bytes (take k buf) (store_bytes fs i inode bytes buf k)
  unfolding store_bytes
  store_bytes-Written buf k le =
      let len = length-take_le k buf le in
      let node' : Node = record (node_at fs inode) {
        content = some (overwrite bytes (handle_at fs i).offset (take k buf));
        size =
            if ltb (node_at fs inode).size ((handle_at fs i).offset + k)
            then (handle_at fs i).offset + k
            else (node_at fs inode).size;
      } in
      let handle' : Handle = record (handle_at fs i) { offset = (handle_at fs i).offset + k } in
      let n = get_or-set_self fs.files inode node' cleared_node f.in_files in
      let h = get_or-set_self fs.handles i handle' cleared_handle in_table in
      record {
        content = ap Node.content n ∙ ap (λ a. some (overwrite bytes a (take k buf))) at_o;
        size = ap Node.size n ∙ ground (arith, at_o, len);
        regular = ap (λ (m : Node). is_dir m.kind) n ∙ f.regular;
        moved = ap Handle.offset h ∙ omega (arith, at_o, len);
        others = λ j ne. get_or-set_ne fs.handles handle' cleared_handle ne;
        other_nodes = λ j ne. get_or-set_ne fs.files node' cleared_node ne;
        descriptors = refl;
        same_proc = refl;
        tables = (length-set fs.files inode node', length-set fs.handles i handle');
      }

  write_bytes-Written :
      (buf : List ℕ) (k : ℕ)
      → suc k ≤ length buf
      → o + suc k ≤ 4096
      → write_bytes fs i inode buf (pos (suc k))
        ≡ done (pos (suc k), store_bytes fs i inode bytes buf (suc k))
  unfolding write_bytes
  write_bytes-Written buf k le room =
      let inside : leb ((handle_at fs i).offset + suc k) (length bytes) ≡ true =
        ground (arith, at_o, f.full_page) in
      rw (f.content, write_bytes) (rw inside)

-- How many bytes a write of `n` takes at offset `o`.
abbrev pub clipped : ℕ → ℕ → ℕ
clipped o n = min n (4096 - o)

write_len-clipped : (o n : ℕ) → o < 4096 → n < 2 ^ 31 → write_len o (pos n) ≡ pos (clipped o n)
unfolding write_len
write_len-clipped o n small int = ground arith

-- A write of `n` bytes, on a descriptor of a regular file with room left at its offset, takes as many
-- bytes as fit the 4096 of a file, and returns their number; if it takes any, it puts them at the
-- offset, lengthens the file to their end where they reach past it, moves the offset behind them, and
-- changes no other open file, node or descriptor.
pub ramfs_write-Written :
    {fs : Fs} {fd : ℤ} {i inode o : ℕ} {bytes : List ℕ} (buf : List ℕ) (n : ℕ)
    → OpenAt fs fd i inode o
    → FileOf fs inode bytes
    → o < 4096
    → 0 < n
    → n < 2 ^ 31
    → n ≤ length buf
    → (fs' : Fs) × (ramfs_write fs fd buf (pos n) ≡ done (pos (clipped o n), fs'))
      × Written fs i inode o bytes (take (clipped o n) buf) fs'
unfolding ramfs_write write_node
ramfs_write-Written {fs} {fd} {i} {inode} {o} {bytes} buf n at f small some_bytes int le =
    let count : clipped o n ≡ suc (clipped o n - 1) = omega arith in
    let k = clipped o n - 1 in
    let len : write_len (handle_at fs i).offset (pos n) ≡ pos (suc k) =
      ap (λ a. write_len a (pos n)) at.offset_at ∙ write_len-clipped o n small int ∙ ap pos count in
    let main : write_bytes fs i inode buf (write_len (handle_at fs i).offset (pos n))
        ≡ done (pos (clipped o n), store_bytes fs i inode bytes buf (suc k)) =
      ap (λ c. write_bytes fs i inode buf c) len
      ∙ write_bytes-Written f at.in_table at.offset_at buf k (omega arith) (omega arith)
      ∙ ap (λ c. done (pos c, store_bytes fs i inode bytes buf (suc k))) (sym count) in
    (
      store_bytes fs i inode bytes buf (suc k),
      rw (at.descriptor, ramfs_write)
          (ap (λ m. write_node fs i buf (pos n) m) at.node
            ∙ ap
                (λ b.
                  if b
                  then done (negsuc 0, fs)
                  else write_bytes fs i inode buf (write_len (handle_at fs i).offset (pos n)))
                f.regular
            ∙ main),
      subst
          (λ c. Written fs i inode o bytes (take c buf) (store_bytes fs i inode bytes buf (suc k)))
          (sym count) (store_bytes-Written f at.in_table at.offset_at buf (suc k) (omega arith)),
    )

-- What a read of `n` bytes leaves and gives.
pub record Given (fs : Fs) (i : ℕ) (o n : ℕ) (bytes : List ℕ) (out : List ℕ) (fs' : Fs)
    : Type 0 where
  pub taken : out ≡ take n (drop o bytes)
  pub moved : (handle_at fs' i).offset ≡ o + n
  pub files_same : fs'.files ≡ fs.files
  pub others : (j : ℕ) → i ≢ j → handle_at fs' j ≡ handle_at fs j
  pub descriptors : fs'.fd_table ≡ fs.fd_table

read_bytes-Given :
    {fs : Fs} {i inode o : ℕ} {bytes : List ℕ} (k : ℕ)
    → FileOf fs inode bytes
    → i < length fs.handles
    → (handle_at fs i).offset ≡ o
    → (out : List ℕ) × (fs' : Fs) × (read_bytes fs i
          (node_at fs inode)
          (handle_at fs i)
          (pos (suc k))
        ≡ done (pos (suc k), out, fs'))
      × Given fs i o (suc k) bytes out fs'
unfolding read_bytes
read_bytes-Given {fs} {i} {inode} {o} {bytes} k f in_table at_o =
    let handle' : Handle = record (handle_at fs i) { offset = (handle_at fs i).offset + suc k } in
    let h = get_or-set_self fs.handles i handle' cleared_handle in_table in
    (
      take (suc k) (drop (handle_at fs i).offset bytes),
      record fs { handles = set fs.handles i handle' },
      rw (f.content, read_bytes),
      record {
        taken = ap (λ a. take (suc k) (drop a bytes)) at_o;
        moved = ap Handle.offset h ∙ omega (arith, at_o);
        files_same = refl;
        others = λ j ne. get_or-set_ne fs.handles handle' cleared_handle ne;
        descriptors = refl;
      },
    )

-- How many bytes a read of `n` gives at offset `o` of a file of `size` bytes.
abbrev pub available : ℕ → ℕ → ℕ → ℕ
available size o n = min n (size - o)

read_len-available :
    (m : Node) (h : Handle) (n : ℕ)
    → m.size ≤ 4096
    → h.offset < m.size
    → n < 2 ^ 31
    → read_len m h (pos n) ≡ pos (available m.size h.offset n)
unfolding read_len
read_len-available m h n fits before int = ground arith

-- A read of `n` bytes, on a descriptor of a regular file whose end lies behind its offset, gives the
-- bytes that stand at the offset, as many as asked for but none past the end; it returns their number,
-- moves the offset behind them, and changes no node, no other open file and no descriptor.
pub ramfs_read-Given :
    {fs : Fs} {fd : ℤ} {i inode o : ℕ} {bytes : List ℕ} (n : ℕ)
    → OpenAt fs fd i inode o
    → FileOf fs inode bytes
    → o < (node_at fs inode).size
    → 0 < n
    → n < 2 ^ 31
    → let k = available (node_at fs inode).size o n in
      (out : List ℕ) × (fs' : Fs) × (ramfs_read fs fd (pos n) ≡ done (pos k, out, fs'))
      × Given fs i o k bytes out fs'
unfolding ramfs_read read_node
ramfs_read-Given {fs} {fd} {i} {inode} {o} {bytes} n at f before some_bytes int =
    let node = node_at fs inode in
    let k = available node.size o n - 1 in
    let fits = f.fits in
    let count : available node.size o n ≡ suc k = omega arith in
    let len : read_len node (handle_at fs i) (pos n) ≡ pos (suc k) =
      read_len-available node (handle_at fs i) n fits (omega (arith, at.offset_at)) int
      ∙ ap pos (ap (λ a. available node.size a n) at.offset_at ∙ count) in
    let (out, fs', run, given) = read_bytes-Given k f at.in_table at.offset_at in
    let open_end : leb node.size (handle_at fs i).offset ≡ false = ground (arith, at.offset_at) in
    let main : read_bytes fs i node (handle_at fs i) (read_len node (handle_at fs i) (pos n))
        ≡ done (pos (available node.size o n), out, fs') =
      ap (λ c. read_bytes fs i node (handle_at fs i) c) len
      ∙ run
      ∙ ap (λ c. done (pos c, out, fs')) (sym count) in
    (
      out,
      fs',
      rw (at.descriptor, ramfs_read)
          (ap (λ m. read_node fs i (pos n) m) at.node ∙ rw (f.regular, open_end) main),
      subst (λ c. Given fs i o c bytes out fs') (sym count) given,
    )

module _ {fs fs1 : Fs} {i inode o : ℕ} {bytes new : List ℕ} (f : FileOf fs inode bytes)
    (w : Written fs i inode o bytes new fs1) where
  -- The file after the write is a regular file again.
  Written-FileOf : o + length new ≤ 4096 → FileOf fs1 inode (overwrite bytes o new)
  Written-FileOf room =
      let in_files = f.in_files in
      let same = w.tables.0 in
      let before = f.fits in
      record {
        in_files = omega arith;
        regular = w.regular;
        content = w.content;
        full_page = length-overwrite bytes o new (omega (arith, f.full_page)) ∙ f.full_page;
        fits = ground (arith, w.size, before, room);
      }

  -- A descriptor of another open file is as it was.
  Written-OpenAt : {fd : ℤ} {j o2 : ℕ} → OpenAt fs fd j inode o2 → i ≢ j → OpenAt fs1 fd j inode o2
  unfolding open_file
  Written-OpenAt {fd} {j} {o2} at apart =
      let in_table = at.in_table in
      let same = w.tables.1 in
      record {
        descriptor = same_descriptor fd ∙ at.descriptor;
        in_table = omega arith;
        node = ap Handle.node (w.others j apart) ∙ at.node;
        offset_at = ap Handle.offset (w.others j apart) ∙ at.offset_at;
      }
    where
      same_descriptor : (fd : ℤ) → open_file fs1 fd ≡ open_file fs fd
      same_descriptor (negsuc n) = refl
      same_descriptor (pos n) =
          ap
            (λ b.
              if ltb n 16
              then (if b then done (get_or fs1.fd_table n none) else fault)
              else done none)
            w.same_proc
          ∙ ap
              (λ (t : List (Option ℕ)).
                if ltb n 16
                then (if fs.has_proc then done (get_or t n none) else fault)
                else done none)
              w.descriptors

  Written-reaches : 0 < length new → o < (node_at fs1 inode).size
  Written-reaches some_bytes = ground (arith, w.size)

-- Bytes that were written through one descriptor are read back through another one that stands where
-- the write began: on a regular file with room for them, a write of `n` bytes at the offset returns
-- `n`, and then a read of `n` bytes through another open file at the same offset returns `n` and gives
-- the written bytes.
pub ramfs_read-ramfs_write :
    {fs : Fs} {fd fd2 : ℤ} {i j inode o : ℕ} {bytes : List ℕ} (buf : List ℕ) (n : ℕ)
    → OpenAt fs fd i inode o
    → OpenAt fs fd2 j inode o
    → i ≢ j
    → FileOf fs inode bytes
    → 0 < n
    → o + n ≤ 4096
    → n ≤ length buf
    → (fs1 : Fs) × (fs2 : Fs) × (ramfs_write fs fd buf (pos n) ≡ done (pos n, fs1))
      × (ramfs_read fs1 fd2 (pos n) ≡ done (pos n, take n buf, fs2))
ramfs_read-ramfs_write {fs} {fd} {fd2} {i} {j} {inode} {o} {bytes} buf n at at2 apart f pos_n room
      le =
    let whole : clipped o n ≡ n = omega arith in
    let (fs1, wrote, w0) =
      subst
        (λ c.
          (fs' : Fs) × (ramfs_write fs fd buf (pos n) ≡ done (pos c, fs'))
          × Written fs i inode o bytes (take c buf) fs')
        whole (ramfs_write-Written buf n at f (omega arith) pos_n (omega arith) le) in
    let len : length (take n buf) ≡ n = length-take_le n buf le in
    let f1 = Written-FileOf f w0 (omega arith) in
    let before = Written-reaches f w0 (omega arith) in
    let size = w0.size in
    let all : available (node_at fs1 inode).size o n ≡ n = ground arith in
    let (out, fs2, read, g) =
      subst
        (λ c.
          (out : List ℕ) × (fs2 : Fs) × (ramfs_read fs1 fd2 (pos n) ≡ done (pos c, out, fs2))
          × Given fs1 j o c (overwrite bytes o (take n buf)) out fs2)
        all (ramfs_read-Given n (Written-OpenAt f w0 at2 apart) f1 before pos_n (omega arith)) in
    let back : out ≡ take n buf =
      g.taken
      ∙ ap (λ c. take c (drop o (overwrite bytes o (take n buf)))) (sym len)
      ∙ take-drop-overwrite bytes o (take n buf) (omega (arith, f.full_page)) in
    (fs1, fs2, wrote, read ∙ ap (λ l. done (pos n, l, fs2)) back)
