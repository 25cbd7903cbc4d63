-- ===== src/Cfa/Text/Fit.antt =====
-- `fit` breaks a message into lines that fit, and loses nothing but blanks at the breaks.
use gprovision.Cfa.Text.{Coord, fit, fit_lines, last_space, next_wrap, space, trim_left, wrap_pos}
use gprovision.Prelude.{
  All, Bytes, List, Option-cases, [], ap, append_assoc, arith, cut, drop, if◌then◌else◌, inl, inr,
  length, length-drop, length-take, refl, some, suc, sym, take, take-append-drop, u8, zero, ℕ, ◌++◌,
  ◌+◌, ◌<◌, ◌==◌, ◌∙◌, ◌∷◌, ◌≡◌, ◌≤◌,
}

last_space-lt : (bs : Bytes) (i : ℕ) → last_space bs ≡ some i → i < length bs
unfolding last_space
last_space-lt [] i h = cc
last_space-lt (b ∷ bs) i h = elim (Option-cases (last_space bs)) [
  | inl z ↦ ground arith
  | inr (j, z) ↦ ground (arith, last_space-lt bs j z)
]

wrap_pos_bounds :
    (msg : Bytes) (col : ℕ) → col < 256 → (wrap_pos msg col ≤ col) × (wrap_pos msg col ≤ length msg)
unfolding wrap_pos
wrap_pos_bounds msg col h = elim (Option-cases (last_space (take (u8 (col + 1)) msg))) [
  | inl z ↦ ground arith
  | inr (i, z) ↦
      ground (arith, last_space-lt (take (u8 (col + 1)) msg) i z, length-take (u8 (col + 1)) msg)
]

-- The cut is never past the width, and makes progress on a display with at least one column.
next_wrap_bounds :
    (b : ℕ) (bs : Bytes) (col : ℕ)
    → col < 256
    → (next_wrap (b ∷ bs) col ≤ col)
      × (next_wrap (b ∷ bs) col ≤ length (b ∷ bs))
      × (0 < col → 0 < next_wrap (b ∷ bs) col)
unfolding next_wrap
next_wrap_bounds b bs col h = ground (arith, wrap_pos_bounds (b ∷ bs) col h)

abbrev pub FitsIn : ℕ → Bytes → Type 0
FitsIn col line = length line ≤ col

fit_lines-fits :
    (n : ℕ) (msg : Bytes) (col : ℕ)
    → col < 256
    → (length (fit_lines n msg col) ≤ n) × All (FitsIn col) (fit_lines n msg col)
unfolding fit_lines
fit_lines-fits zero msg col h = (omega arith, tt)
fit_lines-fits (suc n) [] col h = (omega arith, tt)
fit_lines-fits (suc n) (b ∷ bs) col h =
    let cut = next_wrap (b ∷ bs) col in
    let (few, lines) = fit_lines-fits n (trim_left (drop cut (b ∷ bs))) col h in
    let (narrow, inside, _) = next_wrap_bounds b bs col h in
    (omega arith, (omega (arith, length-take cut (b ∷ bs)), lines))

-- There are at most Row + 1 lines, and no line is wider than the rectangle.
pub fit_shape :
    (msg : Bytes) (rect : Coord)
    → rect.col < 256
    → (length (fit msg rect) ≤ rect.row + 1) × All (FitsIn rect.col) (fit msg rect)
unfolding fit
fit_shape msg rect h = fit_lines-fits (rect.row + 1) msg rect.col h

-- The bytes of a text that are not blanks, and the lines put back together.
abbrev pub inked : Bytes → Bytes
inked [] = []
inked (b ∷ bs) = if b == space then inked bs else b ∷ inked bs

abbrev pub joined : List Bytes → Bytes
joined [] = []
joined (l ∷ ls) = l ++ joined ls

inked-append : (xs ys : Bytes) → inked (xs ++ ys) ≡ inked xs ++ inked ys
inked-append [] ys = refl
inked-append (x ∷ xs) ys = ground (arith, inked-append xs ys)

inked-trim_left : (bs : Bytes) → inked (trim_left bs) ≡ inked bs
unfolding trim_left
inked-trim_left [] = refl
inked-trim_left (b ∷ bs) = ground (arith, inked-trim_left bs)

length-trim_left : (bs : Bytes) → length (trim_left bs) ≤ length bs
unfolding trim_left
length-trim_left [] = omega arith
length-trim_left (b ∷ bs) = ground (arith, length-trim_left bs)

inked-cut :
    (cut : ℕ) (msg : Bytes) → inked (take cut msg) ++ inked (trim_left (drop cut msg)) ≡ inked msg
inked-cut cut msg =
    ap (λ x. inked (take cut msg) ++ x) (inked-trim_left (drop cut msg))
    ∙ sym (inked-append (take cut msg) (drop cut msg))
    ∙ ap inked (take-append-drop cut msg)

-- What is shown is a front of the message, blanks aside.
fit_lines-inked :
    (n : ℕ) (msg : Bytes) (col : ℕ)
    → (rest : Bytes) × (inked (joined (fit_lines n msg col)) ++ rest ≡ inked msg)
unfolding fit_lines
fit_lines-inked zero msg col = (inked msg, refl)
fit_lines-inked (suc n) [] col = ([], refl)
fit_lines-inked (suc n) (b ∷ bs) col =
    let cut = next_wrap (b ∷ bs) col in
    let tail = trim_left (drop cut (b ∷ bs)) in
    let (rest, e) = fit_lines-inked n tail col in
    (
      rest,
      ap (λ x. x ++ rest) (inked-append (take cut (b ∷ bs)) (joined (fit_lines n tail col)))
          ∙ append_assoc (inked (take cut (b ∷ bs))) (inked (joined (fit_lines n tail col))) rest
          ∙ ap (λ x. inked (take cut (b ∷ bs)) ++ x) e
          ∙ inked-cut cut (b ∷ bs),
    )

-- Enough rounds show everything: each takes at least one byte.
fit_lines-all_inked :
    (n : ℕ) (msg : Bytes) (col : ℕ)
    → col < 256
    → 0 < col
    → length msg ≤ n
    → inked (joined (fit_lines n msg col)) ≡ inked msg
unfolding fit_lines
fit_lines-all_inked zero [] col h pos few = refl
fit_lines-all_inked zero (b ∷ bs) col h pos few = absurd (omega arith)
fit_lines-all_inked (suc n) [] col h pos few = refl
fit_lines-all_inked (suc n) (b ∷ bs) col h pos few =
    let cut = next_wrap (b ∷ bs) col in
    let tail = trim_left (drop cut (b ∷ bs)) in
    let (_, _, forward) = next_wrap_bounds b bs col h in
    let shorter : length tail ≤ n =
      omega (arith, forward pos, length-trim_left (drop cut (b ∷ bs)), length-drop cut (b ∷ bs)) in
    inked-append (take cut (b ∷ bs)) (joined (fit_lines n tail col))
    ∙ ap (λ x. inked (take cut (b ∷ bs)) ++ x) (fit_lines-all_inked n tail col h pos shorter)
    ∙ inked-cut cut (b ∷ bs)

-- Of the message's bytes that are not blanks, the lines hold a front part, in order; all of them
-- if the rectangle has a column and at least as many rows as the message has bytes.
pub fit-inked :
    (msg : Bytes) (rect : Coord)
    → rect.col < 256
    → ((rest : Bytes) × (inked (joined (fit msg rect)) ++ rest ≡ inked msg))
      × (0 < rect.col → length msg ≤ rect.row + 1 → inked (joined (fit msg rect)) ≡ inked msg)
unfolding fit
fit-inked msg rect h =
    (fit_lines-inked (rect.row + 1) msg rect.col, fit_lines-all_inked (rect.row + 1) msg rect.col h)
