-- ===== src/Tls/Laws.antt =====
-- A table answers with the value that was last set.
use ricerca.Common.{ℕ, ◌≡◌, ◌≢◌, ◌==◌, inl, inr, refl, some, arith, if◌then◌else◌, Option-cases}
use ricerca.Status.{success}
use ricerca.Containers.Intmap.{Node, search}
use ricerca.Containers.Intmap.Laws.{search-insert}
use ricerca.Tls.{TlsTable, set_key, get_key}

-- No two keys are answered by one node.
abbrev pub IsInjective : TlsTable → Type 0
IsInjective t =
    (k k' : ℕ) (n n' : Node)
    → search t.keys k ≡ some n
    → search t.keys k' ≡ some n'
    → n.addr ≡ n'.addr
    → k ≡ k'

-- No node of the table is at an address.
abbrev pub IsFresh : TlsTable → ℕ → Type 0
IsFresh t p = (k : ℕ) (n : Node) → search t.keys k ≡ some n → n.addr ≢ p

-- With a fresh node at hand, setting a key succeeds; the key then answers with the new value, and
-- every other key as before.
pub get-set :
    (t : TlsTable) (mem key value k : ℕ)
    → IsInjective t
    → IsFresh t mem
    → ((set_key (some mem) key value t).0 ≡ success)
      × (get_key k (set_key (some mem) key value t).1 ≡ (if key == k then value else get_key k t))
unfolding set_key get_key
get-set t mem key value k inj fresh =
    let ins = search-insert t.keys (record { addr = mem; key = key }) k in
    elim (Option-cases (search t.keys key)) [
      | inl e ↦ elim (Option-cases (search t.keys k)) [
        | inl e' ↦ (rw (set_key, e) refl, ground (arith, e, e', ins))
        | inr (n, e') ↦ (rw (set_key, e) refl, ground (arith, e, e', ins, fresh k n e'))
      ]
      | inr (n, e) ↦ elim (Option-cases (search t.keys k)) [
        | inl e' ↦ (rw (set_key, e) refl, ground (arith, e, e'))
        | inr (n', e') ↦ (rw (set_key, e) refl, ground (arith, e, e', inj key k n n' e e'))
      ]
    ]
