-- ===== src/Archive/Choice.antt =====
-- The update that `findValidUpd` takes.
use gprovision.Archive.{find_valid_upd}
use gprovision.History.{ImageResult, check}
use gprovision.Prelude.{
  All, Bool, Bytes, List, [], arith, false, none, true, ◌++◌, ◌∷◌, ◌≡◌, ◌≢◌, ◌⊎◌,
}

module _ (dtag_of : Bytes → Bytes) (extracts : Bytes → Bool) (rs : List ImageResult) where
  -- An update that is passed over: its image failed too often, or it does not extract.
  abbrev pub IsSkipped : Bytes → Type 0
  IsSkipped v = (check (dtag_of v) rs ≡ false) ⊎ (extracts v ≡ false)

  -- `u` stands behind updates that are passed over, extracts, and its image did not fail too often
  -- or it is the last choice.
  pub record IsTaken (choices : List Bytes) (u : Bytes) : Type 0 where
    pub before : List Bytes
    pub after : List Bytes
    pub place : choices ≡ before ++ u ∷ after
    pub skipped : All IsSkipped before
    pub allowed : (check (dtag_of u) rs ≡ true) ⊎ (after ≡ [])
    pub good : extracts u ≡ true

  -- The history alone never leaves the appliance without an image: `findValidUpd` finds one if the
  -- last choice extracts.
  find_valid_upd_finds :
      (before : List Bytes) (u : Bytes)
      → extracts u ≡ true
      → find_valid_upd dtag_of extracts rs (before ++ u ∷ []) ≢ none
  unfolding find_valid_upd
  find_valid_upd_finds [] u good = ground arith
  find_valid_upd_finds (v ∷ before) u good = ground (arith, find_valid_upd_finds before u good)
