-- ===== src/Text/Format.antt =====
-- vsnprintf of src/kernel/lib/fmt.c. What it writes in front of the final zero is a list of bytes; the
-- format and the strings are the bytes before their zero.
use ricerca.Common.{
  ℕ, zero, suc, ◌-◌, Option, none, some, List, [], ◌∷◌, ◌++◌, ◌==◌, ltb, if◌then◌else◌, length,
}
use ricerca.Text.{Int64, pos, negsuc, putui, puti}

-- An argument behind the format.
pub data Arg : Type 0 where
  char : ℕ → Arg
  string : List ℕ → Arg
  signed : Int64 → Arg
  unsigned : ℕ → Arg

-- What a character behind % asks for.
pub data Kind : Type 0 where
  percent a_char a_string a_signed nothing : Kind
  an_unsigned : (base width : ℕ) → Kind

-- The cases of the switch: %c, %s, %d and %D, %u and %U, %x and %X, %p.
unfoldable pub kind_of : ℕ → Kind
kind_of type =
    if type == 37
    then percent
    else if type == 99
    then a_char
    else if type == 115
    then a_string
    else if type == 100
    then a_signed
    else if type == 68
    then a_signed
    else if type == 117
    then an_unsigned 10 0
    else if type == 85
    then an_unsigned 10 0
    else if type == 120
    then an_unsigned 16 0
    else if type == 88
    then an_unsigned 16 0
    else if type == 112
    then an_unsigned 16 16
    else nothing

abbrev pub prefix : ℕ → List ℕ → List ℕ
prefix zero cs = []
prefix (suc n) [] = []
prefix (suc n) (c ∷ cs) = c ∷ prefix n cs

-- memcpy of at most `bytes_max` bytes of a string
abbrev pub trimmed : (bytes_max : ℕ) → List ℕ → List ℕ
trimmed bytes_max str = prefix (if ltb bytes_max (length str) then bytes_max else length str) str

-- fmt_puti with the room `bytes_max - written`, which is negative where more has been written: then only
-- the sign is.
unfoldable pub put_signed : (bytes_max written : ℕ) → Int64 → List ℕ
put_signed bytes_max written n =
    if ltb bytes_max written
    then elim n [ pos k ↦ [] | negsuc k ↦ 45 ∷ [] ]
    else puti n (bytes_max - written) 10

-- One specifier: the bytes that it writes and the arguments that are left; `none` where the next
-- argument is not of its type.
unfoldable pub specifier : (bytes_max written : ℕ) → Kind → List Arg → Option (List ℕ × List Arg)
specifier bytes_max written percent args = some (37 ∷ [], args)
specifier bytes_max written nothing args = some ([], args)
specifier bytes_max written a_char (char c ∷ args) = some (c ∷ [], args)
specifier bytes_max written a_string (string str ∷ args) = some (trimmed bytes_max str, args)
specifier bytes_max written a_signed (signed n ∷ args) = some (put_signed bytes_max written n, args)
specifier bytes_max written (an_unsigned base width) (unsigned n ∷ args) =
    some (putui n (bytes_max - written) base width, args)
specifier bytes_max written _ _ = none

-- The loop over the format, with what has been written.
unfoldable pub format_loop :
    (bytes_max : ℕ) (written : List ℕ) (format : List ℕ) → List Arg → Option (List ℕ)
format_loop bytes_max written [] args = some written
format_loop bytes_max written (c ∷ []) args =
    if bytes_max == length written
    then some written
    else if c == 37
    then some written
    else some (written ++ c ∷ [])
format_loop bytes_max written (c ∷ type ∷ rest) args =
    if bytes_max == length written
    then some written
    else if c == 37
    then elim (specifier bytes_max (length written) (kind_of type) args) [
      | none ↦ none
      | some (bytes, args') ↦ format_loop bytes_max (written ++ bytes) rest args'
    ]
    else format_loop bytes_max (written ++ c ∷ []) (type ∷ rest) args

-- vsnprintf, for a size below 2^31
unfoldable pub vsnprintf : (size : ℕ) (format : List ℕ) → List Arg → Option (List ℕ)
vsnprintf zero format args = some []
vsnprintf (suc bytes_max) format args = format_loop bytes_max [] format args
