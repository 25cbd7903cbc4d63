-- ===== src/Tests/Names.antt =====
-- Dates of updates at concrete inputs.
use gprovision.Archive.Dates.{Update, all_digits, decode, decode_lem}
use gprovision.Prelude.{
  Bool, Bytes, List, Option, arith, codes, equal, if◌then◌else◌, none, refl, some, ℕ, ◌++◌, ◌∷◌,
  ◌≡◌,
}

-- A place for one number only.
abbrev one_number : Bytes → Option ℕ
one_number t = if equal t (codes "20150203.7") then some 5 else none

abbrev unsorted : (Update → Update → Bool) → List Update → List Update
unsorted less us = us

reads_number :
    one_number (codes "2015" ++ (codes "02" ++ (codes "03" ++ b'.' ∷ codes "7"))) ≡ some 5
unfolding equal
reads_number = refl

decode_lem_example :
    (decode one_number 0 unsorted (
      codes "P"
      ++ b'.'
        ∷ (codes "OS"
            ++ b'.'
              ∷ (codes "HW"
                  ++ b'.'
                    ∷ ((codes "2015" ++ b'-' ∷ (codes "02" ++ b'-' ∷ codes "03"))
                        ++ b'.' ∷ (codes "7" ++ b'.' ∷ codes "upd")))))).date
    ≡ 5
decode_lem_example =
    decode_lem one_number 0 unsorted (codes "P") (codes "OS") (codes "HW") (codes "2015")
      (codes "02") (codes "03") (codes "7") (codes "upd") (refl, tt) (refl, (refl, tt))
      (refl, (refl, tt)) (refl, (refl, (refl, tt))) (unfold all_digits in refl)
      (unfold all_digits in refl) (unfold all_digits in refl) (unfold all_digits in refl)
      (omega arith) refl reads_number
