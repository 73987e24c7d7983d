-- ===== src/Cookie/Groups.antt =====
-- Joining and leaving a group, against the set of keys that the cookie answers for.
use ricerca.Common.{
  ℕ, ◌+◌, ◌≡◌, ◌≢◌, ◌≤◌, ◌⊎◌, refl, Bool, true, false, not, ◌&&◌, ◌||◌, none, some, List, [], ◌∷◌,
  ◌==◌, if◌then◌else◌, arith, returns, Bool-cases, Option-cases, inl, inr, count, count-append,
}
use ricerca.Status.{success, out_of_memory}
use ricerca.Locking.Mutex.Defs.{Task}
use ricerca.Memory.Dynarray.{push}
use ricerca.Memory.Dynarray.Laws.{push-items}
use ricerca.Cookie.Defs.{
  EntryCookie, GroupCookie, present, replace_first, add_to_grp, remove_from_grp, key_size,
}
use ricerca.Cookie.Auth.{IsFree}

-- `present` is membership by count.
present-count : (k : ℕ) (ks : List ℕ) → present k ks ≡ not (count k ks == 0)
unfolding present
present-count k [] = refl
present-count k (x ∷ ks) = ground (arith, present-count k ks)

replace_first-count :
    (old key k : ℕ) (ks ks' : List ℕ)
    → replace_first old key ks ≡ some ks'
    → count k ks' + (if old == k then 1 else 0) ≡ count k ks + (if key == k then 1 else 0)
unfolding replace_first
replace_first-count old key k [] ks' h = absurd (ground arith)
replace_first-count old key k (x ∷ ks) ks' h = elim (Bool-cases (x == old)) [
  | inl here ↦ ground arith
  | inr further ↦ elim (Option-cases (replace_first old key ks)) [
    | inl out ↦ absurd (ground arith)
    | inr (ls, e) ↦ ground (arith, replace_first-count old key k ks ls e)
  ]
]

-- A group key is held at most once; 0 marks a slot that is free.
abbrev pub IsSingle : EntryCookie → Type 0
IsSingle c = (k : ℕ) → k ≢ 0 → count k c.grp_keys.items ≤ 1

-- `c'` answers for the group keys of `c` and for `key`, and its mutex is free.
pub record Joined (key : ℕ) (c c' : EntryCookie) : Type 0 where
  pub free : IsFree c'
  pub single : IsSingle c → IsSingle c'
  pub keys :
      (k : ℕ) → k ≢ 0 → present k c'.grp_keys.items ≡ (key == k || present k c.grp_keys.items)
  pub same_key : c'.key ≡ c.key

-- `c'` answers for the group keys of `c` but `key`, and its mutex is free.
pub record Left (key : ℕ) (c c' : EntryCookie) : Type 0 where
  pub free : IsFree c'
  pub single : IsSingle c'
  pub keys :
      (k : ℕ) → k ≢ 0 → present k c'.grp_keys.items ≡ (not (key == k) && present k c.grp_keys.items)
  pub same_key : c'.key ≡ c.key

Joined-count :
    {key : ℕ} {c c' : EntryCookie}
    → IsFree c'
    → present key c.grp_keys.items ≡ false
    → c'.key ≡ c.key
    → ((k : ℕ)
        → k ≢ 0
        → count k c'.grp_keys.items ≡ count k c.grp_keys.items + (if key == k then 1 else 0))
    → Joined key c c'
Joined-count {key} {c} {c'} f out same h = record {
  free = f;
  single = λ s k z. ground (arith, h k z, s k z, present-count key c.grp_keys.items);
  keys = λ k z.
      ground (arith, h k z, present-count k c.grp_keys.items, present-count k c'.grp_keys.items);
  same_key = same;
}

Left-count :
    {key : ℕ} {c c' : EntryCookie}
    → IsFree c'
    → IsSingle c
    → present key c.grp_keys.items ≡ true
    → c'.key ≡ c.key
    → ((k : ℕ)
        → k ≢ 0
        → count k c'.grp_keys.items + (if key == k then 1 else 0) ≡ count k c.grp_keys.items)
    → Left key c c'
Left-count {key} {c} {c'} f s has same h = record {
  free = f;
  single = λ k z. ground (arith, h k z, s k z);
  keys = λ k z.
      ground
        (arith, h k z, s k z, present-count k c.grp_keys.items, present-count k c'.grp_keys.items);
  same_key = same;
}

replace_first-ne-none :
    (old key : ℕ) (ks : List ℕ) → present old ks ≡ true → replace_first old key ks ≢ none
unfolding replace_first present
replace_first-ne-none old key [] h e = absurd (ground arith)
replace_first-ne-none old key (k ∷ ks) h e = ground (arith, replace_first-ne-none old key ks)

-- With the mutex free, joining a group succeeds and makes the cookie answer for its key too, each
-- key once, or it fails for lack of memory and leaves the cookie as it was. It frees the mutex.
pub add_to_grp-Joined :
    (me : Task) (alloc : Bool) (c : EntryCookie) (g : GroupCookie)
    → IsFree c
    → g.key ≢ 0
    → ((c' : EntryCookie) × (add_to_grp me alloc c g ≡ returns success c') × Joined g.key c c')
      ⊎ (add_to_grp me alloc c g ≡ returns out_of_memory c)
unfolding add_to_grp
add_to_grp-Joined me alloc c g f z = elim (Bool-cases (present g.key c.grp_keys.items)) [
  | inl old ↦ inl (
    c,
    ground arith,
    record { free = f; single = λ s. s; keys = λ k z. ground arith; same_key = refl },
  )
  | inr new ↦ elim (Option-cases (replace_first 0 g.key c.grp_keys.items)) [
    | inr (ks, e) ↦ inl (
      record c { grp_keys = record c.grp_keys { items = ks } },
      ground arith,
      Joined-count (ground arith) new refl
          λ k y. ground (arith, replace_first-count 0 g.key k c.grp_keys.items ks e),
    )
    | inl full ↦ elim (Option-cases (push alloc key_size g.key c.grp_keys)) [
      | inl oom ↦ inr (ground arith)
      | inr (d, e) ↦ inl (
        record c { grp_keys = d },
        ground arith,
        Joined-count (ground arith) new refl λ k y. ground (
          arith,
          push-items alloc key_size g.key c.grp_keys e,
          count-append k c.grp_keys.items (g.key ∷ []),
        ),
      )
    ]
  ]
]

-- With the mutex free and every key held once, leaving a group that the cookie has succeeds, takes
-- its key and no other from the cookie, and frees the mutex.
pub remove_from_grp-Left :
    (me : Task) (c : EntryCookie) (g : GroupCookie)
    → IsFree c
    → IsSingle c
    → g.key ≢ 0
    → present g.key c.grp_keys.items ≡ true
    → (c' : EntryCookie) × (remove_from_grp me c g ≡ returns success c') × Left g.key c c'
unfolding remove_from_grp
remove_from_grp-Left me c g f s z has =
    elim (Option-cases (replace_first g.key 0 c.grp_keys.items)) [
      | inl out ↦ absurd (replace_first-ne-none g.key 0 c.grp_keys.items has out)
      | inr (ks, e) ↦ (
        record c { grp_keys = record c.grp_keys { items = ks } },
        ground arith,
        Left-count (ground arith) s has refl
            λ k y. ground (arith, replace_first-count g.key 0 k c.grp_keys.items ks e),
      )
    ]
