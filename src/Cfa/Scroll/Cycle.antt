-- ===== src/Cfa/Scroll/Cycle.antt =====
-- The cycle of the scrolling texts: positions stay useful, and everything is shown in turn.
use Prim.Native.Nat.{min}
use gprovision.Cfa.Scroll.{Horiz, next_top, update_state}
use gprovision.Prelude.{Bool, ap, arith, suc, zero, ℕ, ◌+◌, ◌-◌, ◌<◌, ◌∙◌, ◌≡◌, ◌≤◌}

-- What `updateState` keeps.
pub record IsScroll (final : ℕ) (hs : Horiz) : Type 0 where
  pub useful : hs.pos ≤ final
  pub in_cycle : hs.scroll_state ≤ final + 4

-- `n` ticks.
unfoldable pub ticks : ℕ → ℕ → Horiz → Horiz
ticks final zero hs = hs
ticks final (suc n) hs = (update_state final (ticks final n hs)).1

update_state_keeps :
    (final : ℕ) (hs : Horiz) → IsScroll final hs → IsScroll final (update_state final hs).1
unfolding update_state
update_state_keeps final hs h = record {
  useful = ground (arith, h.useful);
  in_cycle = ground (arith, h.in_cycle);
}

update_state_next :
    (final : ℕ) (hs : Horiz)
    → hs.scroll_state < final + 4
    → (update_state final hs).1
      ≡ record { pos = min (hs.scroll_state - 2) final; scroll_state = hs.scroll_state + 1 }
unfolding update_state
update_state_next final hs h = ground arith

update_state_wraps :
    (final : ℕ) (hs : Horiz)
    → hs.scroll_state ≡ final + 4
    → (update_state final hs).1 ≡ record { pos = final; scroll_state = 0 }
unfolding update_state
update_state_wraps final hs h = ground arith

-- After `n` + 1 ticks from the start of a cycle.
ticks_lem :
    (final n p : ℕ)
    → n < final + 4
    → ticks final (suc n) (record { pos = p; scroll_state = 0 })
      ≡ record { pos = min (n - 2) final; scroll_state = n + 1 }
unfolding ticks
ticks_lem final zero p h = update_state_next final (record { pos = p; scroll_state = 0 }) h
ticks_lem final (suc n) p h =
    ap (λ hs. (update_state final hs).1) (ticks_lem final n p (omega arith))
    ∙ update_state_next final (record { pos = min (n - 2) final; scroll_state = n + 1 })
        (omega arith)
    ∙ ground arith

-- From the start of a cycle, `final` + 5 calls of `updateState` bring the text to its last
-- position and to the start of the next cycle.
pub update_state-cycle :
    (final p : ℕ)
    → ticks final (final + 5) (record { pos = p; scroll_state = 0 })
      ≡ record { pos = final; scroll_state = 0 }
unfolding ticks
update_state-cycle final p =
    let start : Horiz = record { pos = p; scroll_state = 0 } in
    let steps : final + 5 ≡ suc (suc (final + 3)) = omega arith in
    ap (λ n. ticks final n start) steps
    ∙ ap (λ hs. (update_state final hs).1) (ticks_lem final (final + 3) p (omega arith))
    ∙ update_state_wraps final
        (record { pos = min (final + 3 - 2) final; scroll_state = final + 3 + 1 }) (omega arith)

-- The window shows byte `i` and no place behind the text.
abbrev pub IsShownAt : ℕ → ℕ → ℕ → Horiz → Type 0
IsShownAt len avail i hs = (hs.pos ≤ i) × (i < hs.pos + avail) × (hs.pos + avail ≤ len)

-- The index of `vertScroller` stays within the text, so that its slice expression is in range.
pub next_top_in_range :
    (lines top : ℕ) (error : Bool) → top ≤ lines → next_top lines error top ≤ lines
unfolding next_top
next_top_in_range lines top error h = ground arith
