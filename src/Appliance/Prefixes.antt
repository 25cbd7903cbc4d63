-- ===== src/Appliance/Prefixes.antt =====
-- pkg/appliance/variant.go: `MACPrefixes`, which reads the prefixes of a variant's addresses.
-- The octets of a prefix, `none` if one cannot be read.
use gprovision.Prelude.{
  All, Bool-cases, Bytes, IsByte, List, NoByte, Option, [], ap, arith, codes, digit_value, equal,
  equal_iff, false, if◌then◌else◌, inl, inr, length, ltb, none, parse_digits, parse_uint, refl,
  some, split_on, split_on_first, split_on_none, sym, trim_by, trim_byte, trim_left_by, true, ℕ,
  ◌%◌, ◌&&◌, ◌*◌, ◌++◌, ◌+◌, ◌-◌, ◌/◌, ◌<◌, ◌==◌, ◌∙◌, ◌∷◌, ◌≡◌, ◌≤◌,
}

unfoldable pub parse_octets : List Bytes → Option Bytes
parse_octets [] = some []
parse_octets (o ∷ os) =
    let rest = parse_octets os in
    elim (parse_uint 16 8 o) [
      | none ↦ none
      | some v ↦ elim rest [ none ↦ none | some p ↦ some (v ∷ p) ]
    ]

unfoldable pub parse_prefixes : List Bytes → List Bytes
parse_prefixes [] = []
parse_prefixes (pfx ∷ rest) =
    let later = parse_prefixes rest in
    elim (parse_octets (split_on b':' (trim_byte b':' pfx))) [ none ↦ later | some p ↦ p ∷ later ]

-- `MACPrefixes`
unfoldable pub mac_prefixes : List Bytes → List Bytes
mac_prefixes [] = []
mac_prefixes (pfx ∷ rest) =
    let all = parse_prefixes (pfx ∷ rest) in
    if length (pfx ∷ rest) == 1 && equal pfx (codes "*") then [] else all

-- A byte in two hexadecimal digits.
unfoldable pub hex_digit : ℕ → ℕ
hex_digit d = if ltb d 10 then b'0' + d else b'a' + (d - 10)

unfoldable pub hex_octet : ℕ → Bytes
hex_octet v = hex_digit (v / 16) ∷ hex_digit (v % 16) ∷ []

-- An address prefix as it is written: its octets with colons between them.
unfoldable pub hex_prefix : ℕ → Bytes → Bytes
hex_prefix v [] = hex_octet v
hex_prefix v (w ∷ p) = hex_octet v ++ b':' ∷ hex_prefix w p

digit_value-hex_digit : (d : ℕ) → d < 16 → digit_value (hex_digit d) ≡ some d
unfolding digit_value hex_digit
digit_value-hex_digit d h = ground arith

parse_digits-cons :
    (acc b d : ℕ) (s : Bytes)
    → digit_value b ≡ some d
    → d < 16
    → parse_digits 16 acc (b ∷ s) ≡ parse_digits 16 (acc * 16 + d) s
unfolding parse_digits
parse_digits-cons acc b d s e h =
    let fits : ltb d 16 ≡ true = ground arith in rw (parse_digits, e, fits) refl

parse_uint_hex :
    (b : ℕ) (s : Bytes) (n : ℕ)
    → parse_digits 16 0 (b ∷ s) ≡ some n
    → n < 256
    → parse_uint 16 8 (b ∷ s) ≡ some n
unfolding parse_uint
parse_uint_hex b s n e h =
    let fits : ltb n 256 ≡ true = ground arith in rw (parse_uint, e, fits) refl

parse_uint-hex_octet : (v : ℕ) → v < 256 → parse_uint 16 8 (hex_octet v) ≡ some v
unfolding hex_octet parse_digits
parse_uint-hex_octet v h =
    let hi = digit_value-hex_digit (v / 16) (omega arith) in
    let lo = digit_value-hex_digit (v % 16) (omega arith) in
    let first =
      parse_digits-cons 0 (hex_digit (v / 16)) (v / 16) (hex_digit (v % 16) ∷ []) hi
        (omega arith) in
    let second =
      parse_digits-cons (0 * 16 + v / 16) (hex_digit (v % 16)) (v % 16) [] lo (omega arith) in
    parse_uint_hex (hex_digit (v / 16)) (hex_digit (v % 16) ∷ []) v
      (first ∙ second ∙ ap some (omega arith)) h

hex_digit_other : (d : ℕ) → d < 16 → (hex_digit d == b':') ≡ false
unfolding hex_digit
hex_digit_other d h = ground arith

hex_octet-NoByte : (v : ℕ) → v < 256 → NoByte b':' (hex_octet v)
unfolding hex_octet
hex_octet-NoByte v h =
    (hex_digit_other (v / 16) (omega arith), (hex_digit_other (v % 16) (omega arith), tt))

parse_octets-cons :
    (o : Bytes) (os : List Bytes) (v : ℕ) (p : Bytes)
    → parse_uint 16 8 o ≡ some v
    → parse_octets os ≡ some p
    → parse_octets (o ∷ os) ≡ some (v ∷ p)
unfolding parse_octets
parse_octets-cons o os v p e f = rw (parse_octets, e, f) refl

parse_octets-hex_prefix :
    (v : ℕ) (p : Bytes)
    → v < 256
    → All IsByte p
    → parse_octets (split_on b':' (hex_prefix v p)) ≡ some (v ∷ p)
unfolding hex_prefix parse_octets
parse_octets-hex_prefix v [] h hs =
    rw (split_on_none b':' (hex_octet v) (hex_octet-NoByte v h))
      (parse_octets-cons (hex_octet v) [] v [] (parse_uint-hex_octet v h) refl)
parse_octets-hex_prefix v (w ∷ p) h (hw, hs) =
    rw (split_on_first b':' (hex_octet v) (hex_prefix w p) (hex_octet-NoByte v h)) (
      parse_octets-cons (hex_octet v) (split_on b':' (hex_prefix w p)) v (w ∷ p)
        (parse_uint-hex_octet v h) (parse_octets-hex_prefix w p hw hs))

-- Each text of the first list, without the colons around it, is a prefix of the second list, in
-- hexadecimal digits.
unfoldable pub Written : List Bytes → List Bytes → Type 0
Written [] [] = Unit
Written [] (p ∷ ps) = ⊥
Written (pfx ∷ pfxs) [] = ⊥
Written (pfx ∷ pfxs) ([] ∷ ps) = ⊥
Written (pfx ∷ pfxs) ((v ∷ p) ∷ ps) =
    (trim_byte b':' pfx ≡ hex_prefix v p) × (All IsByte (v ∷ p) × Written pfxs ps)

parse_prefixes-Written : (pfxs ps : List Bytes) → Written pfxs ps → parse_prefixes pfxs ≡ ps
unfolding Written parse_prefixes
parse_prefixes-Written [] [] h = refl
parse_prefixes-Written [] (p ∷ ps) h = absurd h
parse_prefixes-Written (pfx ∷ pfxs) [] h = absurd h
parse_prefixes-Written (pfx ∷ pfxs) ([] ∷ ps) h = absurd h
parse_prefixes-Written (pfx ∷ pfxs) ((v ∷ p) ∷ ps) (e, ((hv, hp), hs)) =
    rw (parse_prefixes, e, parse_octets-hex_prefix v p hv hp, parse_prefixes-Written pfxs ps hs)
      refl

trim_star : trim_byte b':' (codes "*") ≡ codes "*"
unfolding trim_byte trim_by trim_left_by
trim_star = refl

long_prefix : (v : ℕ) (p : Bytes) → 2 ≤ length (hex_prefix v p)
unfolding hex_prefix hex_octet
long_prefix v [] = omega arith
long_prefix v (w ∷ p) = omega arith

not_star :
    (pfx : Bytes) (v : ℕ) (p : Bytes)
    → trim_byte b':' pfx ≡ hex_prefix v p
    → equal pfx (codes "*") ≡ false
not_star pfx v p e = elim (Bool-cases (equal pfx (codes "*"))) [
  | inr f ↦ f
  | inl t ↦
      let same = (equal_iff pfx (codes "*")).0 t in
      let short : length (codes "*") ≡ length (hex_prefix v p) =
        ap length (sym trim_star ∙ sym (ap (trim_byte b':') same) ∙ e) in
      let long = long_prefix v p in absurd (omega arith)
]

-- `MACPrefixes` returns the prefixes of a variant's list, in its order, if each text of the list,
-- without the colons around it, has the octets of a prefix in two hexadecimal digits each, with
-- colons between them.
pub mac_prefixes-Written : (pfxs ps : List Bytes) → Written pfxs ps → mac_prefixes pfxs ≡ ps
unfolding Written mac_prefixes
mac_prefixes-Written [] [] h = refl
mac_prefixes-Written [] (p ∷ ps) h = absurd h
mac_prefixes-Written (pfx ∷ pfxs) [] h = absurd h
mac_prefixes-Written (pfx ∷ pfxs) ([] ∷ ps) h = absurd h
mac_prefixes-Written (pfx ∷ pfxs) ((v ∷ p) ∷ ps) (e, h) =
    rw (mac_prefixes, not_star pfx v p e)
      (ground (arith, parse_prefixes-Written (pfx ∷ pfxs) ((v ∷ p) ∷ ps) (e, h)))
