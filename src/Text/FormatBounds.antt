-- ===== src/Text/FormatBounds.antt =====
-- Where vsnprintf stays inside its buffer, and where it does not.
use ricerca.Common.{
  ℕ, zero, suc, ◌+◌, ◌-◌, ◌≡◌, ◌≤◌, ◌<◌, refl, Bool, true, false, Option, none, some, List, [], ◌∷◌,
  ◌++◌, ◌==◌, ltb, if◌then◌else◌, length, arith, length-append, ap, Bool-cases, Option-cases, inl,
  inr,
}
use ricerca.Text.{putui, puti}
use ricerca.Text.Bounds.{length-putui, length-puti}
use ricerca.Text.Format.{
  Arg, char, string, signed, unsigned, Kind, percent, a_char, a_signed, nothing, an_unsigned,
  kind_of, prefix, trimmed, put_signed, specifier, format_loop, vsnprintf,
}

-- The arguments that a specifier leaves, none being a string; `none` where the next is not of its type.
abbrev pub consume : Kind → List Arg → Option (List Arg)
consume percent args = some args
consume nothing args = some args
consume a_char (char c ∷ args) = some args
consume a_signed (signed n ∷ args) = some args
consume (an_unsigned base width) (unsigned n ∷ args) = some args
consume _ _ = none

-- The format asks for no string, and the arguments are of the types that it asks for.
unfoldable pub accepts : (format : List ℕ) → List Arg → Bool
accepts [] args = true
accepts (c ∷ []) args = true
accepts (c ∷ type ∷ rest) args =
    if c == 37
    then elim (consume (kind_of type) args) [ none ↦ false | some args' ↦ accepts rest args' ]
    else accepts (type ∷ rest) args

-- A specifier that is not for a string writes no more than there is room for.
specifier-room :
    (bytes_max written : ℕ) (kind : Kind) (args args' : List Arg)
    → consume kind args ≡ some args'
    → written < bytes_max
    → (bytes : List ℕ) × (specifier bytes_max written kind args ≡ some (bytes, args'))
      × (written + length bytes ≤ bytes_max)
unfolding specifier put_signed
specifier-room max w percent args args' e lt = (37 ∷ [], ground (arith, e), omega (arith, lt))
specifier-room max w nothing args args' e lt = ([], ground (arith, e), omega (arith, lt))
specifier-room max w a_char (char c ∷ args) args' e lt =
    (c ∷ [], ground (arith, e), omega (arith, lt))
specifier-room max w a_signed (signed n ∷ args) args' e lt =
    (puti n (max - w) 10, ground (arith, e, lt), omega (arith, lt, length-puti n (max - w) 10))
specifier-room max w (an_unsigned base width) (unsigned n ∷ args) args' e lt = (
  putui n (max - w) base width,
  ground (arith, e),
  omega (arith, lt, length-putui n (max - w) base width),
)
specifier-room max w kind args args' e lt = absurd (ground (arith, e))

not_accepted : false ≡ true → ⊥
not_accepted e = ground (arith, e)

format_loop-room :
    (bytes_max : ℕ) (written format : List ℕ) (args : List Arg)
    → accepts format args ≡ true
    → length written ≤ bytes_max
    → (out : List ℕ) × (format_loop bytes_max written format args ≡ some out)
      × (length out ≤ bytes_max)
unfolding format_loop accepts
format_loop-room max w [] args ok le = (w, refl, le)
format_loop-room max w (c ∷ []) args ok le = elim (Bool-cases (max == length w)) [
  | inl full ↦ (w, rw full refl, le)
  | inr room ↦ elim (Bool-cases (c == 37)) [
    | inl e ↦ (w, rw (room, e) refl, le)
    | inr e ↦ (w ++ c ∷ [], rw (room, e) refl, ground (arith, le, room, length-append w (c ∷ [])))
  ]
]
format_loop-room max w (c ∷ type ∷ rest) args ok le = elim (Bool-cases (max == length w)) [
  | inl full ↦ (w, rw full refl, le)
  | inr room ↦
      let lt : length w < max = ground (arith, le, room) in
      elim (Bool-cases (c == 37)) [
        | inl e ↦ elim (Option-cases (consume (kind_of type) args)) [
          | inl none_ ↦ absurd (not_accepted (rw (e, none_) at ok))
          | inr (args', some_) ↦
              let (bytes, writes, fit) =
                specifier-room max (length w) (kind_of type) args args' some_ lt in
              let (out, runs, ends) =
                format_loop-room max (w ++ bytes) rest args' (rw (e, some_) at ok)
                  (omega (arith, fit, length-append w bytes)) in
              (out, rw (room, e, writes) runs, ends)
        ]
        | inr e ↦
            let (out, runs, ends) =
              format_loop-room max (w ++ c ∷ []) (type ∷ rest) args (rw e at ok)
                (omega (arith, lt, length-append w (c ∷ []))) in
            (out, rw (room, e) runs, ends)
      ]
]

-- With arguments of the types that the format asks for and no string among them, what vsnprintf writes
-- and the zero behind it have room in a buffer of `size` bytes.
pub vsnprintf-room :
    (size : ℕ) (format : List ℕ) (args : List Arg)
    → 0 < size
    → accepts format args ≡ true
    → (out : List ℕ) × (vsnprintf size format args ≡ some out) × (length out < size)
unfolding vsnprintf
vsnprintf-room zero format args pos_ ok = absurd (omega (arith, pos_))
vsnprintf-room (suc max) format args pos_ ok =
    let (out, runs, ends) = format_loop-room max [] format args ok (omega arith) in
    (out, runs, omega (arith, ends))

length-prefix : (n : ℕ) (cs : List ℕ) → n ≤ length cs → length (prefix n cs) ≡ n
length-prefix zero cs h = refl
length-prefix (suc n) [] h = absurd (omega (arith, h))
length-prefix (suc n) (c ∷ cs) h = ap suc (length-prefix n cs (omega (arith, h)))

long : (n : ℕ) (str : List ℕ) → n < length str → ltb n (length str) ≡ true
long n str h = ground (arith, h)

length-trimmed : (n : ℕ) (str : List ℕ) → n < length str → length (trimmed n str) ≡ n
length-trimmed n str h = rw (long n str h) (length-prefix n str (omega (arith, h)))

-- A character and a string that is no shorter than the buffer: the bytes that vsnprintf writes fill the
-- buffer of `size` bytes, and the zero comes behind its end.
vsnprintf_overflows :
    (size c : ℕ) (str : List ℕ)
    → 2 < size
    → size ≤ length str
    → (out : List ℕ) × (vsnprintf size (37 ∷ 99 ∷ 37 ∷ 115 ∷ []) (char c ∷ string str ∷ [])
        ≡ some out)
      × (length out ≡ size)
unfolding vsnprintf format_loop specifier kind_of
vsnprintf_overflows zero c str big long_ = absurd (omega (arith, big))
vsnprintf_overflows (suc max) c str big long_ =
    let n = length-trimmed max str (omega (arith, long_)) in
    (c ∷ trimmed max str, ground (arith, big), ground (arith, n))
