-- ===== src/Cookie/Create.antt =====
-- Which keys are handed out, and which reference count a new group cookie sets up.
use ricerca.Common.{ℕ, ◌≤◌, ◌<◌, ◌≡◌, ◌≢◌, refl, Bool, some, arith, size_max}
use ricerca.Status.{success}
use ricerca.Memory.Refcount.{init}
use ricerca.Cookie.Defs.{
  Keys, EntryCookie, group_cookie_create, entry_cookie_create, only_kernel, universal,
}

-- Keys already handed out are below `last`; it starts at 2 and stays below the wrap.
pub record IsFresh (s : Keys) : Type 0 where
  pub above : 2 ≤ s.last
  pub fits : s.last < size_max

-- A new entry cookie has a key above every key handed out before, which is neither of the two
-- reserved keys, and its own count at 1; later keys are above it.
entry_cookie_create-key :
    (res : ℕ) (alloc : Bool) (s : Keys) (c : EntryCookie)
    → IsFresh s
    → (entry_cookie_create (some res) alloc s).1 ≡ some c
    → (c.key ≡ s.last)
      × (c.key ≢ only_kernel)
      × (c.key ≢ universal)
      × (c.key < (entry_cookie_create (some res) alloc s).2.last)
      × ((((entry_cookie_create (some res) alloc s).2.objects.rc res).refcount) ≡ 1)
unfolding entry_cookie_create init
entry_cookie_create-key res alloc s c f e =
    (ground arith, ground arith, ground arith, ground arith, ground arith)

-- A new group cookie leaves its own reference count as the memory had it: unless its key happens to
-- be its address, what is set to 1 is a count at the address that the key stands for.
group_cookie_create_misplaced :
    (res : ℕ) (s : Keys)
    → s.last ≢ res
    → ((group_cookie_create (some res) s).0 ≡ success)
      × (((group_cookie_create (some res) s).2.objects.rc res) ≡ s.objects.rc res)
      × (((group_cookie_create (some res) s).2.objects.rc s.last).refcount ≡ 1)
unfolding group_cookie_create init
group_cookie_create_misplaced res s ne = (refl, ground arith, ground arith)
