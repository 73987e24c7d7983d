-- ===== src/Memory/Paging/Flags.antt =====
-- The flags of an entry of src/kernel/mem/virt/paging.c.
use ricerca.Common.{ℕ, ◌+◌, ◌%◌, ◌^◌, ◌≤◌, ◌<◌, ◌≡◌, arith}
use ricerca.Memory.Paging.Defs.{
  or_flag, or_flags, page_of, flag_present, flag_writable, flags_user, flags_noexec, perms_mask,
}

or_flag-le : (flag flags x : ℕ) → x ≤ or_flag flag flags x
or_flag-le flag flags x = ground arith

-- An entry that is present is not 0.
pub or_flags-pos : (x flags : ℕ) → flags % 2 ≡ 1 → 1 ≤ or_flags x flags
unfolding or_flags
or_flags-pos x flags present =
    let p = or_flag flag_present flags x in
    let w = or_flag flag_writable flags p in
    let u = or_flag flags_user flags w in
    let there : 1 ≤ p = ground (arith, present) in
    omega (
      arith,
      there,
      or_flag-le flag_writable flags p,
      or_flag-le flags_user flags w,
      or_flag-le flags_noexec flags u,
    )

-- Flags below a page's size do not leave the page.
small_flag : (flag flags x : ℕ) → flag ≤ 4 → or_flag flag flags x ≤ x + 4
small_flag flag flags x h = ground (arith, h)

no_flag : (flags x : ℕ) → page_of (or_flag flags_noexec flags x) ≡ page_of x
no_flag flags x = ground arith

-- The address of a page comes back from an entry, whatever its flags.
pub page_of-or_flags : (x flags : ℕ) → x % 4096 ≡ 0 → x < 2 ^ 63 → page_of (or_flags x flags) ≡ x
unfolding or_flags
page_of-or_flags x flags aligned physical =
    let p = or_flag flag_present flags x in
    let w = or_flag flag_writable flags p in
    let u = or_flag flags_user flags w in
    omega (
      arith,
      aligned,
      physical,
      or_flag-le flag_present flags x,
      or_flag-le flag_writable flags p,
      or_flag-le flags_user flags w,
      small_flag flag_present flags x (omega arith),
      small_flag flag_writable flags p (omega arith),
      small_flag flags_user flags w (omega arith),
      no_flag flags u,
    )

pub perms_mask-present : (perms : ℕ) → perms_mask perms % 2 ≡ 1
unfolding perms_mask
perms_mask-present perms = ground arith
