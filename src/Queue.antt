-- ===== src/Queue.antt =====
-- The intrusive circular lists of kernel/list.h, over an explicit store of links: the operations
-- here, the list that a ring of links stands for in the children.
pub mod Ring
pub mod Add
pub mod Delete
pub mod Frame
use system_n.Base.{ℕ, ◌≡◌, Bool, not, ◌&&◌, ◌==◌, if◌then◌else◌}

abbrev pub null : ℕ
null = 0

-- The `next` and `prev` words of the `list_node_t` at each address.
pub record Links : Type 0 where
  pub next : ℕ → ℕ
  pub prev : ℕ → ℕ

-- A write to one word of a store.
abbrev pub update : (ℕ → ℕ) → ℕ → ℕ → ℕ → ℕ
update f a v x = if x == a then v else f x

-- `a->next = v` and `a->prev = v`
abbrev pub set_next : ℕ → ℕ → Links → Links
set_next a v h = record h { next = update h.next a v }

abbrev pub set_prev : ℕ → ℕ → Links → Links
set_prev a v h = record h { prev = update h.prev a v }

unfoldable pub list_head_init : ℕ → Links → Links
list_head_init ptr h = set_prev ptr ptr (set_next ptr ptr h)

-- The statements of `list_add`, each on the store that the one before it leaves.
unfoldable pub list_add : ℕ → ℕ → Links → Links
list_add new head h =
    let h1 = set_next new (h.next head) h in
    let h2 = set_prev new head h1 in let h3 = set_prev (h2.next head) new h2 in set_next head new h3

unfoldable pub list_add_tail : ℕ → ℕ → Links → Links
list_add_tail new head h =
    let h1 = set_next new head h in
    let h2 = set_prev new (h1.prev head) h1 in
    let h3 = set_next (h2.prev head) new h2 in set_prev head new h3

unfoldable pub list_del : ℕ → Links → Links
list_del entry h =
    let h1 = set_prev (h.next entry) (h.prev entry) h in
    let h2 = set_next (h1.prev entry) (h1.next entry) h1 in
    let h3 = set_prev entry null h2 in set_next entry null h3

unfoldable pub list_empty : ℕ → Links → Bool
list_empty head h = h.next head == head

unfoldable pub list_in_queue : ℕ → Links → Bool
list_in_queue node h = not (h.next node == null) && not (h.prev node == null)
