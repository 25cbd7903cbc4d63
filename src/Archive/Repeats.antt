-- ===== src/Archive/Repeats.antt =====
-- An image that fails again and again is refused in the end.
use gprovision.Archive.{get_tag, set_tag}
use gprovision.History.{ImageResult, reboot_hook}
use gprovision.Prelude.{
  Bytes, List, [], arith, codes, drop-append, false, has_prefix, has_suffix, length, length-append,
  refl, take-append, trim_suffix, true, ℕ, ◌++◌, ◌-◌, ◌∷◌, ◌≡◌,
}

has_prefix_refl : (s : Bytes) → has_prefix s s ≡ true
unfolding has_prefix
has_prefix_refl [] = refl
has_prefix_refl (b ∷ s) = ground (arith, has_prefix_refl s)

trim_suffix-append : (s p : Bytes) → trim_suffix (s ++ p) p ≡ s
unfolding trim_suffix has_suffix
trim_suffix-append s p =
    let n : length (s ++ p) - length p ≡ length s = omega (arith, length-append s p) in
    rw (trim_suffix, has_suffix, n, drop-append s p, has_prefix_refl p)
      (ground (arith, take-append s p))

-- `Get` returns the tag that was given to `Set`.
pub get_tag-set_tag : (t : Bytes) → get_tag (set_tag t) ≡ t
unfolding get_tag set_tag
get_tag-set_tag t = trim_suffix-append t (codes ".disktag")

-- `RebootHook` after each of a number of restores that failed, with the tag of the same image.
unfoldable pub fail_all : Bytes → List Bytes → List ImageResult → List ImageResult
fail_all dtag [] rs = rs
fail_all dtag (note ∷ notes) rs =
    fail_all dtag notes (reboot_hook (get_tag (set_tag dtag)) false note rs)

abbrev pub u64_size : ℕ
u64_size = 18446744073709551616
