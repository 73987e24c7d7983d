-- ===== src/Tls/Tests.antt =====
-- A run of setting and getting, and the theorem at one.
use ricerca.Common.{◌≡◌, ◌==◌, refl, some, [], arith, if◌then◌else◌}
use ricerca.Status.{success}
use ricerca.Containers.Intmap.{search, find_key, insert}
use ricerca.Tls.{TlsTable, set_key, get_key}
use ricerca.Tls.Laws.{IsInjective, IsFresh, get-set}

abbrev no_keys : TlsTable
no_keys = record { keys = record { buckets_count = 16; nodes = λ _. [] }; value = λ _. 77 }

no_keys-IsInjective : IsInjective no_keys
unfolding search find_key
no_keys-IsInjective k k' n n' e e' same = ground arith

no_keys-IsFresh : IsFresh no_keys 600
unfolding search find_key
no_keys-IsFresh k n e = absurd (ground (arith, e))

get-set_run : get_key 5 (set_key (some 600) 5 42 no_keys).1 ≡ 42
unfolding set_key get_key search find_key insert
get-set_run = refl

get-set_example :
    ((set_key (some 600) 5 42 no_keys).0 ≡ success)
    × (get_key 5 (set_key (some 600) 5 42 no_keys).1 ≡ (if 5 == 5 then 42 else get_key 5 no_keys))
get-set_example = get-set no_keys 600 5 42 5 no_keys-IsInjective no_keys-IsFresh
