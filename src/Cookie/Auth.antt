-- ===== src/Cookie/Auth.antt =====
-- What authentication answers, and the lock that it depends on.
use ricerca.Common.{
  ℕ, ◌≡◌, ◌≢◌, refl, Bool, true, false, not, ◌&&◌, ◌||◌, none, List, [], ◌∷◌, ◌==◌, arith, returns,
  suspended,
}
use ricerca.Status.{success}
use ricerca.Locking.Mutex.Defs.{Task}
use ricerca.Cookie.Defs.{
  EntryCookie, GroupCookie, universal, only_kernel, present, replace_first, auth, remove_from_grp,
}

-- Nobody holds the mutex, and nobody sleeps on it.
abbrev pub IsFree : EntryCookie → Type 0
IsFree c = (c.mutex.taken ≡ false) × (c.mutex.sleep_queue ≡ [])

-- The keys that an entry cookie answers for, whatever its lock.
unfoldable pub grants : EntryCookie → ℕ → Bool
unfolding present
grants c key =
    key == universal || key == c.key || (not (key == only_kernel) && present key c.grp_keys.items)

-- With the mutex free, authentication answers by the keys and leaves the cookie as it was.
pub auth-grants :
    (me : Task) (c : EntryCookie) (key : ℕ) → IsFree c → auth me c key ≡ returns (grants c key) c
unfolding auth grants
auth-grants me c key (idle, quiet) = ground arith

replace_first-none :
    (old key : ℕ) (ks : List ℕ) → present old ks ≡ false → replace_first old key ks ≡ none
unfolding replace_first present
replace_first-none old key [] h = refl
replace_first-none old key (k ∷ ks) h = ground (arith, replace_first-none old key ks)

-- Removing a group that the cookie does not have returns success and keeps the mutex: the next
-- caller that needs the group keys is suspended.
remove_missing_locks :
    (me you : Task) (c : EntryCookie) (g : GroupCookie) (key : ℕ)
    → IsFree c
    → present g.key c.grp_keys.items ≡ false
    → key ≢ universal
    → key ≢ c.key
    → key ≢ only_kernel
    → (c' : EntryCookie) × (remove_from_grp me c g ≡ returns success c')
      × (c'' : EntryCookie) × (auth you c' key ≡ suspended c'')
unfolding remove_from_grp auth
remove_missing_locks me you c g key (idle, quiet) out u k z = (
  record c { mutex = record c.mutex { taken = true } },
  ground (arith, replace_first-none g.key 0 c.grp_keys.items out),
  (record c { mutex = record { taken = true; sleep_queue = you ∷ [] } }),
  ground arith,
)
