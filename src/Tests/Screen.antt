-- ===== src/Tests/Screen.antt =====
-- Text on the display at concrete inputs.
use gprovision.Cfa.Display.{write_lines}
use gprovision.Cfa.Display.Fits.{IsDisplay}
use gprovision.Cfa.Display.Lines.{row_packets, write_lines_fills}
use gprovision.Cfa.Text.{Coord, fit, last_space, next_wrap, trim_left, wrap_pos}
use gprovision.Cfa.Text.Fit.{fit-inked, inked, joined}
use gprovision.Prelude.{
  Bytes, [], arith, codes, length, none, replicate, ◌++◌, ◌+◌, ◌<◌, ◌∷◌, ◌≡◌, ◌≤◌,
}

abbrev hello : Bytes
hello = codes "hello big world"

hello_lines :
    fit hello (record { col = 6; row = 3 }) ≡ codes "hello" ∷ codes "big" ∷ codes "world" ∷ []
unfolding fit trim_left next_wrap wrap_pos last_space
hello_lines = ground arith

fit-inked_example :
    ((rest : Bytes) × (inked (joined (fit hello (record { col = 6; row = 30 }))) ++ rest
        ≡ inked hello))
    × (0 < 6
        → length hello ≤ 30 + 1
        → inked (joined (fit hello (record { col = 6; row = 30 }))) ≡ inked hello)
fit-inked_example = fit-inked hello (record { col = 6; row = 30 }) (omega arith)

-- The last position of a CFA-635, and all of its columns.
abbrev dims_635 : Coord
dims_635 = record { col = 19; row = 3 }

dims_635-IsDisplay : IsDisplay dims_635 20
dims_635-IsDisplay = record { narrow = omega arith; low = omega arith; usable = omega arith }

write_lines_fills_example :
    write_lines (λ p. none) dims_635 20 (codes "hello" ∷ [])
    ≡ record { sent = row_packets 20 (3 + 1) 0 (codes "hello" ∷ []); error = none }
write_lines_fills_example =
    write_lines_fills dims_635 20 (codes "hello" ∷ []) dims_635-IsDisplay (omega arith, tt)

-- 256 bytes, of which the last ten are shown.
abbrev long_text : Bytes
long_text = replicate 256 0x61
