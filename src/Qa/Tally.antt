-- ===== src/Qa/Tally.antt =====
-- The loops of `bdpopulate` and `FoundDisks`: an item is counted at its first match, or appended.
use gprovision.Prelude.{Bool, List, [], if◌then◌else◌, ◌∷◌}

module _ {ℓ} {A : Type ℓ} (same : A → Bool) (count_one : A → A) (new : A) where
  unfoldable pub tally : List A → List A
  tally [] = new ∷ []
  tally (x ∷ xs) = let rest = tally xs in if same x then count_one x ∷ xs else x ∷ rest
