-- ===== src/Tls.antt =====
-- src/kernel/user/tls.c: tables of thread-local values.
pub mod Laws
mod Tests
use ricerca.Common.{ℕ, Bool, Option, none, some, List, ◌==◌, if◌then◌else◌}
use ricerca.Status.{Status, success, out_of_memory}
use ricerca.Containers.Intmap.{Intmap, Node, init, insert, search}

-- struct user_tls_table, with the value of each struct user_tls_node by its address.
pub record TlsTable : Type 0 where
  pub keys : Intmap
  pub value : ℕ → ℕ

abbrev pub put_value : (ℕ → ℕ) → ℕ → ℕ → ℕ → ℕ
put_value f p v q = if p == q then v else f q

-- USER_TLS_BUCKETS
abbrev pub buckets : ℕ
buckets = 16

-- user_tls_table_create; `mem` and `alloc` are the outcomes of its two allocations, `junk` and
-- `values` what the memory held.
unfoldable pub table_create :
    (mem alloc : Bool) (junk : ℕ → List Node) (values : ℕ → ℕ) → Status × Option TlsTable
table_create mem alloc junk values =
    if mem
    then elim (init alloc junk buckets) [
      | none ↦ (out_of_memory, none)
      | some m ↦ (success, some (record { keys = m; value = values }))
    ]
    else (out_of_memory, none)

-- user_tls_table_set_key; `mem` is what mem_heap_alloc returns for a new node.
unfoldable pub set_key : (mem : Option ℕ) (key value : ℕ) → TlsTable → Status × TlsTable
set_key mem key value table = elim (search table.keys key) [
  | some n ↦ (success, record table { value = put_value table.value n.addr value })
  | none ↦ elim mem [
    | none ↦ (out_of_memory, table)
    | some node ↦ (
      success,
      record {
        keys = insert table.keys (record { addr = node; key = key });
        value = put_value table.value node value;
      },
    )
  ]
]

-- user_tls_table_get_key
unfoldable pub get_key : (key : ℕ) → TlsTable → ℕ
get_key key table = elim (search table.keys key) [ some n ↦ table.value n.addr | none ↦ 0 ]
