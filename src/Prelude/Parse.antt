-- ===== src/Prelude/Parse.antt =====
-- The functions of Go's packages `strings` and `strconv` that take texts apart, on ASCII.
use Prim.Native.Nat.{ℕ, ◌+◌, ◌-◌, ◌*◌, ◌^◌}
use mathlib.Core.Bool.{Bool, false, ◌&&◌, ◌||◌}
use mathlib.Core.List.{List, [], ◌∷◌, ◌++◌, reverse}
use mathlib.Core.Option.{Option, none, some}
use mathlib.Core.Path.{◌≡◌, refl}
use gprovision.Prelude.Tests.{◌==◌, leb, ltb, if◌then◌else◌}
use native.Mathlib.Omega.{arith}
use gprovision.Prelude.Lists.{All, All-append}
use gprovision.Prelude.Words.{Bytes}

abbrev cons_first : ℕ → List Bytes → List Bytes
cons_first b [] = (b ∷ []) ∷ []
cons_first b (p ∷ ps) = (b ∷ p) ∷ ps

-- `strings.Split` at a separator of one byte.
unfoldable pub split_on : ℕ → Bytes → List Bytes
split_on c [] = [] ∷ []
split_on c (b ∷ s) = let rest = split_on c s in if b == c then [] ∷ rest else cons_first b rest

abbrev cons_before : ℕ → Option (Bytes × Bytes) → Option (Bytes × Bytes)
cons_before b none = none
cons_before b (some (p, q)) = some (b ∷ p, q)

-- `strings.SplitN(s, sep, 2)` with a separator of one byte, if it occurs.
unfoldable pub cut : ℕ → Bytes → Option (Bytes × Bytes)
cut c [] = none
cut c (b ∷ s) = let rest = cut c s in if b == c then some ([], s) else cons_before b rest

unfoldable pub trim_left_by : (ℕ → Bool) → Bytes → Bytes
trim_left_by p [] = []
trim_left_by p (b ∷ s) = let rest = trim_left_by p s in if p b then rest else b ∷ s

unfoldable pub trim_by : (ℕ → Bool) → Bytes → Bytes
trim_by p s = reverse (trim_left_by p (reverse (trim_left_by p s)))

unfoldable pub is_space : ℕ → Bool
is_space b = b == 32 || (leb 9 b && leb b 13)

-- `strings.TrimSpace`
unfoldable pub trim_space : Bytes → Bytes
trim_space s = trim_by is_space s

-- `strings.Trim` with a cutset of one byte.
unfoldable pub trim_byte : ℕ → Bytes → Bytes
trim_byte c s = trim_by (λ b. b == c) s

-- `strings.ToLower`
unfoldable pub to_lower : Bytes → Bytes
to_lower [] = []
to_lower (b ∷ s) = (if leb b'A' b && leb b b'Z' then b + 32 else b) ∷ to_lower s

unfoldable pub digit_value : ℕ → Option ℕ
digit_value b =
    if leb b'0' b && leb b b'9'
    then some (b - b'0')
    else if leb b'a' b && leb b b'z'
    then some (b - b'a' + 10)
    else if leb b'A' b && leb b b'Z'
    then some (b - b'A' + 10)
    else none

unfoldable pub parse_digits : ℕ → ℕ → Bytes → Option ℕ
parse_digits base acc [] = some acc
parse_digits base acc (b ∷ s) = elim (digit_value b) [
  | none ↦ none
  | some d ↦ if ltb d base then parse_digits base (acc * base + d) s else none
]

-- `strconv.ParseUint` in a base other than 0; `none` for an error.
unfoldable pub parse_uint : ℕ → ℕ → Bytes → Option ℕ
parse_uint base bits [] = none
parse_uint base bits (b ∷ s) = elim (parse_digits base 0 (b ∷ s)) [
  | none ↦ none
  | some n ↦ if ltb n (2 ^ bits) then some n else none
]

-- The bytes of a text differ from a byte.
abbrev pub NoByte : ℕ → Bytes → Type 0
NoByte c s = All (λ b. (b == c) ≡ false) s

pub split_on_first :
    (c : ℕ) (s rest : Bytes) → NoByte c s → split_on c (s ++ c ∷ rest) ≡ s ∷ split_on c rest
unfolding split_on
split_on_first c [] rest h = ground arith
split_on_first c (b ∷ s) rest (h, hs) = rw (h, split_on_first c s rest hs) refl

pub split_on_none : (c : ℕ) (s : Bytes) → NoByte c s → split_on c s ≡ s ∷ []
unfolding split_on
split_on_none c [] h = refl
split_on_none c (b ∷ s) (h, hs) = rw (h, split_on_none c s hs) refl

pub cut_first : (c : ℕ) (s rest : Bytes) → NoByte c s → cut c (s ++ c ∷ rest) ≡ some (s, rest)
unfolding cut
cut_first c [] rest h = ground arith
cut_first c (b ∷ s) rest (h, hs) = rw (h, cut_first c s rest hs) refl

pub NoByte-append : (c : ℕ) (s u : Bytes) → NoByte c s → NoByte c u → NoByte c (s ++ u)
NoByte-append c s u h k = All-append (λ b. (b == c) ≡ false) s u h k
