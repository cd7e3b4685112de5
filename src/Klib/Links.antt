-- ===== src/Klib/Links.antt =====
-- The doubly linked rings of kernel/src/lib/list.h. A node is an address; the fields of all nodes are two
-- functions of the address. `container_of` is the identity here, since an object is named by its node.
mod Segs
mod Splice
pub mod Ring
pub mod Runs
mod Tests
use sudo_os.Prelude.{ℕ, ◌==◌, if◌then◌else◌}

-- `list_node_t`
pub record Links : Type 0 where
  pub next : ℕ → ℕ
  pub prev : ℕ → ℕ

-- `p->field = a`
abbrev pub put : (ℕ → ℕ) → ℕ → ℕ → ℕ → ℕ
put f p a q = if q == p then a else f q

unfoldable pub list_init : Links → ℕ → Links
list_init l node = record { next = put l.next node node; prev = put l.prev node node }

-- `__list_add`, its four writes in order.
unfoldable pub list_add : Links → ℕ → ℕ → ℕ → Links
list_add l new_node prev next = record {
  prev = put (put l.prev next new_node) new_node prev;
  next = put (put l.next new_node next) prev new_node;
}

unfoldable pub list_add_after : Links → ℕ → ℕ → Links
list_add_after l new_node head = list_add l new_node head (l.next head)

unfoldable pub list_add_before : Links → ℕ → ℕ → Links
list_add_before l new_node head = list_add l new_node (l.prev head) head

-- `list_del`: the neighbours are linked, then the node with itself; the second write reads what the first left.
unfoldable pub list_del : Links → ℕ → Links
list_del l node =
    let l1 : Links = record l { prev = put l.prev (l.next node) (l.prev node) } in
    let l2 : Links = record l1 { next = put l1.next (l1.prev node) (l1.next node) } in
    list_init l2 node
