-- ===== src/Containers/Links/Defs.antt =====
-- src/kernel/lib/list.h: a list, and the links of all nodes by their addresses; 0 is NULL.
use ricerca.Common.{ℕ, ◌==◌, if◌then◌else◌}

-- struct list, and the members of struct list_node
pub record Links : Type 0 where
  pub head : ℕ
  pub tail : ℕ
  pub next : ℕ → ℕ
  pub prev : ℕ → ℕ

abbrev pub put_link : (node to : ℕ) → (ℕ → ℕ) → ℕ → ℕ
put_link node to links a = if a == node then to else links a

-- LIST_INIT
abbrev pub list_init : (next prev : ℕ → ℕ) → Links
list_init next prev = record { head = 0; tail = 0; next = next; prev = prev }

unfoldable pub list_append_head : Links → ℕ → Links
list_append_head s node =
    if s.head == 0
    then record {
      head = node;
      tail = node;
      next = put_link node 0 s.next;
      prev = put_link node 0 s.prev;
    }
    else record {
      head = node;
      tail = s.tail;
      next = put_link node s.head s.next;
      prev = put_link s.head node (put_link node 0 s.prev);
    }

unfoldable pub list_append_tail : Links → ℕ → Links
list_append_tail s node =
    if s.tail == 0
    then record {
      head = node;
      tail = node;
      next = put_link node 0 s.next;
      prev = put_link node 0 s.prev;
    }
    else record {
      head = s.head;
      tail = node;
      next = put_link s.tail node (put_link node 0 s.next);
      prev = put_link node s.tail s.prev;
    }

-- list_remove_head: what it returns, and the links.
unfoldable pub list_remove_head : Links → ℕ × Links
list_remove_head s =
    if s.head == 0
    then (0, s)
    else (if s.next s.head == 0
        then (s.head, record s { head = 0; tail = 0 })
        else (s.head, record s { head = s.next s.head; prev = put_link (s.next s.head) 0 s.prev }))

unfoldable pub list_remove_tail : Links → ℕ × Links
list_remove_tail s =
    if s.tail == 0
    then (0, s)
    else (if s.prev s.tail == 0
        then (s.tail, record s { head = 0; tail = 0 })
        else (s.tail, record s { tail = s.prev s.tail; next = put_link (s.prev s.tail) 0 s.next }))

unfoldable pub list_remove : Links → ℕ → Links
unfolding list_remove_head list_remove_tail
list_remove s node =
    if s.head == node
    then (list_remove_head s).1
    else (if s.tail == node then (list_remove_tail s).1 else record s {
      next = put_link (s.prev node) (s.next node) s.next;
      prev = put_link (s.next node) (s.prev node) s.prev;
    })
