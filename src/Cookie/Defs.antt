-- ===== src/Cookie/Defs.antt =====
-- Entry cookies, group cookies and their operations. The mutex of an entry cookie is taken and
-- given back where the source does so; `me` is the calling task.
use ricerca.Common.{
  ℕ, ◌+◌, ◌%◌, Bool, true, false, ◌||◌, Option, none, some, List, [], ◌∷◌, ◌==◌, if◌then◌else◌,
  size_mod, Outcome, returns, suspended,
}
use ricerca.Status.{Status, success, out_of_memory}
use ricerca.Locking.Mutex.Defs.{Task, Mutex, lock, unlock, init as mutex_init}
use ricerca.Memory.Refcount.{Objects, init}
use ricerca.Memory.Dynarray.{Dynarray, new, push}

-- USER_COOKIE_KEY_ONLY_KERNEL and USER_COOKIE_KEY_UNIVERSAL
abbrev pub only_kernel : ℕ
only_kernel = 0

abbrev pub universal : ℕ
universal = 1

pub record GroupCookie : Type 0 where
  pub key : ℕ

pub record EntryCookie : Type 0 where
  pub key : ℕ
  pub mutex : Mutex
  pub grp_keys : Dynarray ℕ

-- user_cookie_last, and the reference counts.
pub record Keys : Type 0 where
  pub last : ℕ
  pub objects : Objects

-- user_group_cookie_create; `mem` is what mem_heap_alloc returns. The count that the source sets up
-- is the one at the address `res->key`.
unfoldable pub group_cookie_create : (mem : Option ℕ) → Keys → Status × Option GroupCookie × Keys
group_cookie_create none s = (out_of_memory, none, s)
group_cookie_create (some res) s = (
  success,
  some (record { key = s.last }),
  record { last = (s.last + 1) % size_mod; objects = init s.last true s.objects },
)

-- user_entry_cookie_create; `mem` and `alloc` are the outcomes of its two allocations.
unfoldable pub entry_cookie_create :
    (mem : Option ℕ) (alloc : Bool) → Keys → Status × Option EntryCookie × Keys
entry_cookie_create none alloc s = (out_of_memory, none, s)
entry_cookie_create (some res) alloc s = elim (new {A = ℕ} alloc) [
  | none ↦ (out_of_memory, none, s)
  | some keys ↦ (
    success,
    some (record { key = s.last; mutex = mutex_init; grp_keys = keys }),
    record { last = (s.last + 1) % size_mod; objects = init res true s.objects },
  )
]

-- user_entry_cookie_grp_key_present
unfoldable pub present : ℕ → List ℕ → Bool
present key [] = false
present key (k ∷ ks) = k == key || present key ks

-- The loops of the two functions below: write at the first slot that holds `old`.
unfoldable pub replace_first : (old key : ℕ) → List ℕ → Option (List ℕ)
replace_first old key [] = none
replace_first old key (k ∷ ks) =
    if k == old
    then some (key ∷ ks)
    else elim (replace_first old key ks) [ none ↦ none | some ks' ↦ some (k ∷ ks') ]

abbrev with_keys : EntryCookie → List ℕ → EntryCookie
with_keys c ks = record c { grp_keys = record c.grp_keys { items = ks } }

-- thread_mutex_lock(&entry->lock), and what runs behind it.
unfoldable pub locked {ℓ} :
    {A : Type ℓ}
    → Task
    → EntryCookie
    → (EntryCookie → Outcome EntryCookie A)
    → Outcome EntryCookie A
unfolding lock
locked me c body =
    let (m, acquired) = lock me c.mutex in
    let c' : EntryCookie = record c { mutex = m } in if acquired then body c' else suspended c'

-- thread_mutex_unlock(&entry->lock)
unfoldable pub unlocked : EntryCookie → EntryCookie
unfolding unlock
unlocked c = record c { mutex = (unlock c.mutex).0 }

-- sizeof(user_cookie_key_t)
abbrev pub key_size : ℕ
key_size = 8

-- user_entry_cookie_add_to_grp; `alloc` is the outcome of the allocation that a push may make.
unfoldable pub add_to_grp :
    Task → (alloc : Bool) → EntryCookie → GroupCookie → Outcome EntryCookie Status
unfolding present replace_first locked unlocked
add_to_grp me alloc entry cookie = locked me entry λ e.
    if present cookie.key e.grp_keys.items
    then returns success (unlocked e)
    else elim (replace_first 0 cookie.key e.grp_keys.items) [
      | some ks ↦ returns success (unlocked (with_keys e ks))
      | none ↦ elim (push alloc key_size cookie.key e.grp_keys) [
        | none ↦ returns out_of_memory (unlocked e)
        | some d ↦ returns success (unlocked (record e { grp_keys = d }))
      ]
    ]

-- user_entry_cookie_remove_from_grp: the mutex is given back only where the key is found.
unfoldable pub remove_from_grp : Task → EntryCookie → GroupCookie → Outcome EntryCookie Status
unfolding replace_first locked unlocked
remove_from_grp me entry cookie = locked me entry λ e.
    elim (replace_first cookie.key 0 e.grp_keys.items) [
      | some ks ↦ returns success (unlocked (with_keys e ks))
      | none ↦ returns success e
    ]

-- user_entry_cookie_auth
unfoldable pub auth : Task → EntryCookie → (key : ℕ) → Outcome EntryCookie Bool
unfolding present locked unlocked
auth me entry key =
    if key == universal || key == entry.key
    then returns true entry
    else if key == only_kernel
    then returns false entry
    else locked me entry λ e. returns (present key e.grp_keys.items) (unlocked e)
