-- ===== src/Cfa/Command/Laws.antt =====
-- The command code and the type bits of a byte determine each other; names have no blank.
use gprovision.Cfa.Command.{command_from_response, to_string}
use gprovision.Prelude.{
  ==_iff, Bool, Bytes, IsByte, [], holds_below, holds_below→holds, leb, not, refl, true, ℕ, ◌%◌,
  ◌&&◌, ◌==◌, ◌||◌, ◌∷◌, ◌≡◌,
}

-- The mask keeps the low six bits of a byte.
pub command_from_response-mod : (c : ℕ) → IsByte c → command_from_response c ≡ c % 64
unfolding command_from_response holds_below
command_from_response-mod c h =
    (==_iff _ _).0 (holds_below→holds (λ x. command_from_response x == x % 64) 256 refl c h)

abbrev is_space : ℕ → Bool
is_space b = b == b' ' || (leb 9 b && leb b 13)

abbrev pub no_space : Bytes → Bool
no_space [] = true
no_space (b ∷ bs) = not (is_space b) && no_space bs

-- The name of every command byte is free of white space.
pub to_string-no_space : (c : ℕ) → IsByte c → no_space (to_string c) ≡ true
unfolding to_string holds_below
to_string-no_space = holds_below→holds (λ x. no_space (to_string x)) 256 refl
