-- ===== src/Archive/Dates.antt =====
-- pkg/recovery/archive/sort.go: the dates in the names of updates, and the order by them.
use gprovision.Prelude.{
  ==_iff, Bool, Bytes, List, NoByte, NoByte-append, Option, [], ap, arith, false, if◌then◌else◌,
  leb, length, ltb, map, none, not, refl, some, split_on, split_on_first, split_on_none, true, ℕ,
  ◌&&◌, ◌++◌, ◌<◌, ◌==◌, ◌||◌, ◌∙◌, ◌∷◌, ◌≡◌,
}

-- `allDigits`
unfoldable pub all_digits : Bytes → Bool
all_digits [] = true
all_digits (c ∷ s) = let rest = all_digits s in (leb b'0' c && leb c b'9') && rest

-- The text that `decode` reads as a number, from the parts of the date and the build.
unfoldable pub date_text : List Bytes → Bytes → Option Bytes
date_text (yyyy ∷ mm ∷ dd ∷ []) build =
    if not (all_digits yyyy && all_digits mm && all_digits dd)
    then none
    else if length build == 0 || not (all_digits build)
    then none
    else some (yyyy ++ (mm ++ (dd ++ b'.' ∷ build)))
date_text [] build = none
date_text (a ∷ []) build = none
date_text (a ∷ b ∷ []) build = none
date_text (a ∷ b ∷ c ∷ d ∷ more) build = none

unfoldable pub parts_text : List Bytes → Option Bytes
parts_text (prod ∷ os ∷ plat ∷ date ∷ build ∷ ext ∷ []) =
    if not (length date == 10) then none else date_text (split_on b'-' date) build
parts_text parts = none

digits-NoByte :
    (c : ℕ) (s : Bytes) → (leb b'0' c && leb c b'9') ≡ false → all_digits s ≡ true → NoByte c s
unfolding all_digits
digits-NoByte c [] h a = tt
digits-NoByte c (b ∷ s) h a = (other, digits-NoByte c s h (ground arith))
  where
    other : (b == c) ≡ false
    other = ground arith

date-NoByte :
    (yyyy mm dd : Bytes)
    → all_digits yyyy ≡ true
    → all_digits mm ≡ true
    → all_digits dd ≡ true
    → NoByte b'.' (yyyy ++ b'-' ∷ (mm ++ b'-' ∷ dd))
date-NoByte yyyy mm dd hy hm hd =
    NoByte-append b'.' yyyy (b'-' ∷ (mm ++ b'-' ∷ dd)) (digits-NoByte b'.' yyyy refl hy) (
      refl,
      NoByte-append b'.' mm (b'-' ∷ dd) (digits-NoByte b'.' mm refl hm)
          (refl, digits-NoByte b'.' dd refl hd),
    )

date_text-split :
    (yyyy mm dd build : Bytes)
    → all_digits yyyy ≡ true
    → all_digits mm ≡ true
    → all_digits dd ≡ true
    → all_digits build ≡ true
    → 0 < length build
    → date_text (split_on b'-' (yyyy ++ b'-' ∷ (mm ++ b'-' ∷ dd))) build
      ≡ some (yyyy ++ (mm ++ (dd ++ b'.' ∷ build)))
unfolding date_text
date_text-split yyyy mm dd build hy hm hd hb l =
    let some_build : (length build == 0) ≡ false = ground (arith, l) in
    rw
      (
        split_on_first b'-' yyyy (mm ++ b'-' ∷ dd) (digits-NoByte b'-' yyyy refl hy),
        split_on_first b'-' mm dd (digits-NoByte b'-' mm refl hm),
        split_on_none b'-' dd (digits-NoByte b'-' dd refl hd),
        hy,
        hm,
        hd,
        some_build,
        hb,
      )
      refl

split_name :
    (prod os plat date build ext : Bytes)
    → NoByte b'.' prod
    → NoByte b'.' os
    → NoByte b'.' plat
    → NoByte b'.' date
    → NoByte b'.' build
    → NoByte b'.' ext
    → split_on b'.'
        (prod ++ b'.' ∷ (os ++ b'.' ∷ (plat ++ b'.' ∷ (date ++ b'.' ∷ (build ++ b'.' ∷ ext)))))
      ≡ prod ∷ os ∷ plat ∷ date ∷ build ∷ ext ∷ []
split_name prod os plat date build ext h1 h2 h3 h4 h5 h6 =
    rw
      (
        split_on_first b'.' prod
            (os ++ b'.' ∷ (plat ++ b'.' ∷ (date ++ b'.' ∷ (build ++ b'.' ∷ ext)))) h1,
        split_on_first b'.' os (plat ++ b'.' ∷ (date ++ b'.' ∷ (build ++ b'.' ∷ ext))) h2,
        split_on_first b'.' plat (date ++ b'.' ∷ (build ++ b'.' ∷ ext)) h3,
        split_on_first b'.' date (build ++ b'.' ∷ ext) h4,
        split_on_first b'.' build ext h5,
        split_on_none b'.' ext h6,
      )
      refl

parts_text_ten :
    (prod os plat date build ext : Bytes)
    → length date ≡ 10
    → parts_text (prod ∷ os ∷ plat ∷ date ∷ build ∷ ext ∷ []) ≡ date_text (split_on b'-' date) build
unfolding parts_text
parts_text_ten prod os plat date build ext h =
    let ten : (length date == 10) ≡ true = (==_iff (length date) 10).1 h in
    rw (parts_text, ten) refl

-- `Update`: a name, and the number of its date as a place in the order of the numbers.
pub record Update : Type 0 where
  pub name : Bytes
  pub date : ℕ

-- `strconv.ParseFloat` and `sort.Sort`. A name without a date, and a text that cannot be read, count
-- as `zero_date`, the place of 0.0.
module _ (parse_float : Bytes → Option ℕ) (zero_date : ℕ)
    (sort : (Update → Update → Bool) → List Update → List Update) where
  abbrev date_or_zero : Option ℕ → ℕ
  date_or_zero none = zero_date
  date_or_zero (some d) = d

  unfoldable pub dated : Bytes → Option Bytes → Update
  dated name none = record { name = name; date = zero_date }
  dated name (some t) = record { name = name; date = date_or_zero (parse_float t) }

  -- `decode`
  unfoldable pub decode : Bytes → Update
  decode name = dated name (parts_text (split_on b'.' name))

  abbrev less : Update → Update → Bool
  less a b = ltb a.date b.date

  -- `sortUpdates`: the newest update first, or the oldest one.
  unfoldable pub sort_updates : List Bytes → Bool → List Bytes
  sort_updates names oldest_first =
      let s = map decode names in
      map (λ u. u.name) (if oldest_first then sort less s else sort (λ a b. less b a) s)

  -- The date of a name that has a product, an operating system, a platform, a date of ten bytes in
  -- three numbers with dashes, a build number and an extension is that of the number whose digits
  -- are the date's and, behind the point, the build's.
  pub decode_lem :
      (prod os plat yyyy mm dd build ext : Bytes) {n : ℕ}
      → NoByte b'.' prod
      → NoByte b'.' os
      → NoByte b'.' plat
      → NoByte b'.' ext
      → all_digits yyyy ≡ true
      → all_digits mm ≡ true
      → all_digits dd ≡ true
      → all_digits build ≡ true
      → 0 < length build
      → length (yyyy ++ b'-' ∷ (mm ++ b'-' ∷ dd)) ≡ 10
      → parse_float (yyyy ++ (mm ++ (dd ++ b'.' ∷ build))) ≡ some n
      → (decode (
          prod
          ++ b'.'
            ∷ (os
                ++ b'.'
                  ∷ (plat
                      ++ b'.'
                        ∷ ((yyyy ++ b'-' ∷ (mm ++ b'-' ∷ dd))
                            ++ b'.' ∷ (build ++ b'.' ∷ ext)))))).date
        ≡ n
  unfolding decode dated
  decode_lem prod os plat yyyy mm dd build ext {n} h1 h2 h3 h4 dy dm dd' db nb len pf =
      let date = yyyy ++ b'-' ∷ (mm ++ b'-' ∷ dd) in
      let name =
        prod ++ b'.' ∷ (os ++ b'.' ∷ (plat ++ b'.' ∷ (date ++ b'.' ∷ (build ++ b'.' ∷ ext)))) in
      let text : parts_text (split_on b'.' name) ≡ some (yyyy ++ (mm ++ (dd ++ b'.' ∷ build))) =
        ap parts_text (
          split_name prod os plat date build ext h1 h2 h3 (date-NoByte yyyy mm dd dy dm dd')
            (digits-NoByte b'.' build refl db) h4)
        ∙ parts_text_ten prod os plat date build ext len
        ∙ date_text-split yyyy mm dd build dy dm dd' db nb in
      ap (λ o. (dated name o).date) text ∙ ap date_or_zero pf
