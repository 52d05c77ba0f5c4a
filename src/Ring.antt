-- ===== src/Ring.antt =====
-- kernel/types/list.h: the doubly linked rings. The heads and the items stand in a store by address;
-- `container_of` is the identity here, as an item is named by the address of its links.
pub mod Joined
pub mod Frame
use model_lib.Common.{ℕ, Bool, if◌then◌else◌, ◌==◌}

abbrev pub Ptr : Type 0
Ptr = ℕ

-- `list_head_t` at every address.
pub record Links : Type 0 where
  pub next : Ptr → Ptr
  pub prev : Ptr → Ptr

abbrev pub put : (Ptr → Ptr) → Ptr → Ptr → Ptr → Ptr
put f p v q = if q == p then v else f q

abbrev pub set_next : Links → (p v : Ptr) → Links
set_next l p v = record l { next = put l.next p v }

abbrev pub set_prev : Links → (p v : Ptr) → Links
set_prev l p v = record l { prev = put l.prev p v }

unfoldable pub init_list_head : Links → Ptr → Links
init_list_head l list = set_prev (set_next l list list) list list

unfoldable pub list_add_between : Links → (item prev next : Ptr) → Links
list_add_between l item prev next =
    set_next (set_prev (set_next (set_prev l next item) item next) item prev) prev item

unfoldable pub list_add : Links → (item head : Ptr) → Links
unfolding list_add_between
list_add l item head = list_add_between l item head (l.next head)

unfoldable pub list_add_tail : Links → (item head : Ptr) → Links
unfolding list_add_between
list_add_tail l item head = list_add_between l item (l.prev head) head

unfoldable pub list_delete_between : Links → (prev next : Ptr) → Links
list_delete_between l prev next = set_next (set_prev l next prev) prev next

unfoldable pub list_delete_entry : Links → Ptr → Links
unfolding list_delete_between
list_delete_entry l item = list_delete_between l (l.prev item) (l.next item)

-- NULL is 0.
unfoldable pub list_delete : Links → Ptr → Links
unfolding list_delete_entry
list_delete l item = set_next (set_prev (list_delete_entry l item) item 0) item 0

unfoldable pub list_empty : Links → Ptr → Bool
list_empty l list = l.next list == list
