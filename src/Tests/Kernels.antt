-- ===== src/Tests/Kernels.antt =====
-- Versions of kernels at concrete inputs.
use gprovision.Kver.{bytes_at, desc, get_kdesc, is_frame, parse_desc, parsed}
use gprovision.Kver.Desc.{get_kdesc_lem}
use gprovision.Kver.Parts.{IsPart, parse_desc_lem, release_text}
use gprovision.Prelude.{
  Bytes, Option, [], arith, codes, digit_value, equal, false, has_prefix, is_space, parse_digits,
  parse_uint, refl, replicate, some, trim_by, trim_left_by, trim_prefix, trim_space, ◌++◌, ◌∷◌, ◌≡◌,
}

abbrev image_head : Bytes
image_head =
    replicate 510 0 ++ (85 ∷ 170 ∷ 0 ∷ 0 ∷ codes "HdrS") ++ replicate 8 0 ++ (18 ∷ 0 ∷ 0 ∷ 0 ∷ [])

abbrev image : Bytes
image = image_head ++ codes "5.0" ++ (0 ∷ [])

get_kdesc_lem_example : get_kdesc image ≡ desc (codes "5.0")
get_kdesc_lem_example =
    get_kdesc_lem image (codes "5.0") [] (omega arith) refl refl not_zeros refl
      (refl, (refl, (refl, tt))) (omega arith)
  where
    not_zeros : equal (bytes_at 526 4 image) (0 ∷ 0 ∷ 0 ∷ 0 ∷ []) ≡ false
    not_zeros = unfold equal in refl

abbrev any_time : Bytes → Option Bytes
any_time t = some t

four_ok : IsPart (codes "4")
four_ok = record { no_hash = (refl, tt); no_space = (refl, tt); no_dot = (refl, tt) }

number_4 : parse_uint 10 64 (codes "4") ≡ some 4
unfolding parse_uint parse_digits digit_value
number_4 = refl

time_kept : any_time (trim_space (trim_prefix (codes "SMP now") (codes "SMP"))) ≡ some (codes "now")
unfolding trim_space trim_by trim_left_by is_space trim_prefix has_prefix
time_kept = refl

parse_desc_lem_example :
    parse_desc any_time (
      release_text (codes "4") (codes "4") (codes "4") (codes "4")
      ++ b' ' ∷ (codes "(me) " ++ b'#' ∷ (codes "4" ++ b' ' ∷ codes "SMP now")))
    ≡ parsed (record {
      release = release_text (codes "4") (codes "4") (codes "4") (codes "4");
      version = b'#' ∷ (codes "4" ++ b' ' ∷ codes "SMP now");
      builder = trim_by is_frame (codes "(me) ");
      build_num = 4;
      build_time = codes "now";
      maj = 4;
      min = 4;
      patch = 4;
      local_ver = codes "4";
    })
parse_desc_lem_example =
    parse_desc_lem any_time (codes "4") (codes "4") (codes "4") (codes "4") (codes "(me) ")
      (codes "4") (codes "SMP now") four_ok four_ok four_ok four_ok (refl, tt)
      (refl, (refl, (refl, (refl, (refl, tt))))) (refl, tt) (refl, tt)
      (refl, (refl, (refl, (refl, (refl, (refl, (refl, tt))))))) number_4 number_4 number_4 number_4
      time_kept
