-- ===== src/Fs/Ramfs/Path.antt =====
-- `resolve_path` of kernel/src/fs/ramfs.c.
use sudo_os.Prelude.{
  ℕ, zero, suc, ◌+◌, Bool, true, false, ◌&&◌, Option, none, some, List, [], ◌∷◌, ◌==◌,
  if◌then◌else◌, take,
}
use sudo_os.Prelude.Int.{pos}
use sudo_os.Klib.{strcmp, strtok_r}
use sudo_os.Fs.Ramfs.Types.{Node, Fs, node_at, is_dir}

abbrev pub slash : ℕ
slash = b'/'

-- `strcmp(a, b) == 0`
abbrev pub same_text : List ℕ → List ℕ → Bool
same_text a b = elim (strcmp a b) [ pos n ↦ n == 0 | _ ↦ false ]

abbrev pub same_parent : Option ℕ → ℕ → Bool
same_parent none curr = false
same_parent (some p) curr = p == curr

-- The loop over the node table, from index `i` on.
unfoldable pub find_child : List Node → ℕ → ℕ → List ℕ → Option ℕ
find_child [] i curr token = none
find_child (n ∷ ns) i curr token =
    let rest = find_child ns (i + 1) curr token in
    if n.is_used && same_parent n.parent_idx curr && same_text n.name token then some i else rest

-- The returned index, what is stored through `parent_out` (`none`: -1, as the callers initialise it), and
-- the text that is copied to `name_out`, if any.
pub record Resolved : Type 0 where
  pub inode : Option ℕ
  pub parent : Option ℕ
  pub name : Option (List ℕ)

abbrev pub resolved : Option ℕ → Option ℕ → Option (List ℕ) → Resolved
resolved i p n = record { inode = i; parent = p; name = n }

-- What the loop does with a token: go on from a node, or return.
pub data Walk : Type 0 where
  go_on : ℕ → Walk
  stop : Resolved → Walk

abbrev pub dot : List ℕ
dot = b'.' ∷ []

abbrev pub dotdot : List ℕ
dotdot = b'.' ∷ b'.' ∷ []

-- A component that is neither `.` nor `..`; `more` tells whether text follows it.
unfoldable pub enter : Fs → ℕ → List ℕ → Bool → Walk
enter fs curr token more =
    let found = find_child fs.files 0 curr token in
    if more
    then elim found [
      | none ↦ stop (resolved none none none)
      | some f ↦ if is_dir (node_at fs f).kind then go_on f else stop (resolved none none none)
    ]
    else stop (resolved found (some curr) (some token))

-- One round of the loop.
unfoldable pub component : Fs → ℕ → List ℕ → Bool → Walk
component fs curr token more =
    if same_text token dot
    then go_on curr
    else (if same_text token dotdot
        then elim (node_at fs curr).parent_idx [ none ↦ go_on curr | some p ↦ go_on p ]
        else enter fs curr token more)

abbrev pub is_nonempty : List ℕ → Bool
is_nonempty [] = false
is_nonempty (c ∷ s) = true

-- The loop; each round takes at least one byte of the path.
unfoldable pub walk : ℕ → Fs → ℕ → List ℕ → Resolved
walk zero fs curr path = resolved none none none
walk (suc fuel) fs curr path =
    let (token, rest) = strtok_r (slash ∷ []) path in
    elim token [
      | none ↦ resolved (some curr) (node_at fs curr).parent_idx none
      | some token ↦ elim (component fs curr token (is_nonempty rest)) [
        | go_on next ↦ walk fuel fs next rest
        | stop r ↦ r
      ]
    ]

-- `resolve_path`, for a path that is not NULL; 127 bytes of it are read.
unfoldable pub resolve_path : Fs → List ℕ → Resolved
resolve_path fs [] = walk 128 fs (if fs.has_proc then fs.cwd_inode else 0) []
resolve_path fs (c ∷ path) =
    if c == slash
    then walk 128 fs 0 (take 127 path)
    else walk 128 fs (if fs.has_proc then fs.cwd_inode else 0) (take 127 (c ∷ path))
