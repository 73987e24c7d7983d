-- ===== src/Rpc/Messages.antt =====
-- What copying a message keeps.
use ricerca.Common.{
  ℕ, zero, suc, ◌≡◌, ◌≤◌, refl, ap, List, [], ◌∷◌, length, some, slice, length-overwrite,
  slice-overwrite, arith, ◌∙◌,
}
use ricerca.Rpc.Defs.{RpcMsg, max_payload_size, copy_contents_from_user, copy_contents_from_kernel}

-- The payload fills its array.
abbrev pub IsFull : RpcMsg → Type 0
IsFull m = length m.payload ≡ max_payload_size

-- The bytes that the message says it has.
abbrev pub contents : RpcMsg → List ℕ
contents m = slice m.payload 0 m.len

length-slice : (mem : List ℕ) (len : ℕ) → len ≤ length mem → length (slice mem 0 len) ≡ len
unfolding slice
length-slice [] zero h = refl
length-slice [] (suc len) h = absurd (omega (arith, h))
length-slice (x ∷ xs) zero h = refl
length-slice (x ∷ xs) (suc len) h = ap suc (length-slice xs len (omega (arith, h)))

module _ (dst src : RpcMsg) (room : IsFull dst) (full : IsFull src) (fits : src.len ≤ 112) where
  pub contents-copy_contents_from_kernel :
      (contents (copy_contents_from_kernel dst src) ≡ contents src)
      × IsFull (copy_contents_from_kernel dst src)
  unfolding copy_contents_from_kernel
  contents-copy_contents_from_kernel =
      let n = length-slice src.payload src.len (omega (arith, full, fits)) in
      let s =
        slice-overwrite dst.payload 0 (slice src.payload 0 src.len)
          (omega (arith, n, room, fits)) in
      (rw n at s, length-overwrite dst.payload 0 (slice src.payload 0 src.len) ∙ room)

  pub copy_contents_from_user-some :
      copy_contents_from_user dst src ≡ some (copy_contents_from_kernel dst src)
  unfolding copy_contents_from_user copy_contents_from_kernel
  copy_contents_from_user-some = ground arith

pub len-copy_contents_from_kernel :
    (dst src : RpcMsg) → (copy_contents_from_kernel dst src).len ≡ src.len
unfolding copy_contents_from_kernel
len-copy_contents_from_kernel dst src = refl
