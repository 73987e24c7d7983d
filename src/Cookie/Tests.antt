-- ===== src/Cookie/Tests.antt =====
-- Runs of the cookie calls, and the theorems at them.
use ricerca.Common.{ℕ, ◌≡◌, ◌⊎◌, refl, true, false, [], ◌∷◌, arith, returns}
use ricerca.Status.{success, out_of_memory}
use ricerca.Locking.Mutex.Defs.{init as mutex_init}
use ricerca.Cookie.Defs.{EntryCookie, GroupCookie, Keys, present, add_to_grp, remove_from_grp}
use ricerca.Cookie.Groups.{Joined, Left, IsSingle, add_to_grp-Joined, remove_from_grp-Left}

-- Key 7, one free slot, and the group key 20.
abbrev entry : EntryCookie
entry = record {
  key = 7;
  mutex = mutex_init;
  grp_keys = record { items = 0 ∷ 20 ∷ []; capacity = 16 };
}

abbrev group : ℕ → GroupCookie
group k = record { key = k }

entry-IsSingle : IsSingle entry
entry-IsSingle k z = ground arith

join_reuses_slot :
    add_to_grp 1 false entry (group 21)
    ≡ returns success (record entry { grp_keys = record { items = 21 ∷ 20 ∷ []; capacity = 16 } })
unfolding add_to_grp
join_reuses_slot = refl

add_to_grp-Joined_example :
    ((c' : EntryCookie) × (add_to_grp 1 true entry (group 21) ≡ returns success c')
      × Joined 21 entry c')
    ⊎ (add_to_grp 1 true entry (group 21) ≡ returns out_of_memory entry)
add_to_grp-Joined_example = add_to_grp-Joined 1 true entry (group 21) (refl, refl) (omega arith)

remove_from_grp-Left_example :
    (c' : EntryCookie) × (remove_from_grp 1 entry (group 20) ≡ returns success c')
    × Left 20 entry c'
unfolding present
remove_from_grp-Left_example =
    remove_from_grp-Left 1 entry (group 20) (refl, refl) entry-IsSingle (omega arith) refl

abbrev keys : Keys
keys = record {
  last = 4;
  objects = record { rc = λ _. record { refcount = 17; drop = false }; disposed = [] };
}

abbrev created : EntryCookie
created = record { key = 4; mutex = mutex_init; grp_keys = record { items = []; capacity = 0 } }
