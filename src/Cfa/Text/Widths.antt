-- ===== src/Cfa/Text/Widths.antt =====
-- Widths of padded and truncated text.
use gprovision.Cfa.Text.{padcate, space}
use gprovision.Prelude.{
  Bytes, arith, length, length-append, length-replicate, length-take, replicate, take,
  take-eq_of_length, ℕ, ◌++◌, ◌-◌, ◌≡◌,
}

abbrev pub Blank : ℕ → Type 0
Blank b = b ≡ space

length-padcate : (txt : Bytes) (w : ℕ) → length (padcate txt w) ≡ w
unfolding padcate
length-padcate txt w = ground (
  arith,
  length-append txt (replicate (w - length txt) space),
  length-append (take w txt) (replicate (w - length (take w txt)) space),
  length-replicate (w - length txt) space,
  length-replicate (w - length (take w txt)) space,
  length-take w txt,
)

-- Padded or cut, a line has exactly the width, and shows the front of the text with blanks behind.
pub padcate_lem :
    (txt : Bytes) (w : ℕ)
    → (length (padcate txt w) ≡ w)
      × (padcate txt w ≡ take w txt ++ replicate (w - length txt) space)
unfolding padcate
padcate_lem txt w =
    (length-padcate txt w, ground (arith, take-eq_of_length w txt, length-take w txt))
