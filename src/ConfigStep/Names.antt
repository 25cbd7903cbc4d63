-- ===== src/ConfigStep/Names.antt =====
-- `makeFsSafeName`: what a name of a directory is made of.
use mathlib.Core.Path.{ap₂}
use gprovision.ConfigStep.{make_fs_safe_name, safe_byte}
use gprovision.Prelude.{
  All, Bytes, [], ap, arith, false, if◌then◌else◌, is_space, length, length-take, ltb, map, refl,
  suc, take, ℕ, ◌∷◌, ◌≡◌, ◌≢◌, ◌≤◌,
}

-- A byte that neither a file system nor a shell reads specially.
abbrev pub IsSafe : ℕ → Type 0
IsSafe b = (b'#' ≤ b) × (b ≤ b'z') × (b ≢ b'/') × (b ≢ b'\\') × (b ≢ b'*') × (b ≢ b'?') × (b ≢ b':')

safe_byte-IsSafe : (b : ℕ) → IsSafe (safe_byte b)
unfolding safe_byte
safe_byte-IsSafe b = (
  ground arith,
  ground arith,
  ground arith,
  ground arith,
  ground arith,
  ground arith,
  ground arith,
)

map-IsSafe : (s : Bytes) → All IsSafe (map safe_byte s)
map-IsSafe [] = tt
map-IsSafe (b ∷ s) = (safe_byte-IsSafe b, map-IsSafe s)

length-map_safe : (s : Bytes) → length (map safe_byte s) ≡ length s
length-map_safe [] = refl
length-map_safe (b ∷ s) = ap suc (length-map_safe s)

safe_byte_same : (b : ℕ) → IsSafe b → safe_byte b ≡ b
unfolding safe_byte is_space
safe_byte_same b h = ground (arith, h)

map_same : (s : Bytes) → All IsSafe s → map safe_byte s ≡ s
map_same [] h = refl
map_same (b ∷ s) h = ap₂ ◌∷◌ (safe_byte_same b h.0) (map_same s h.1)

not_more : (n : ℕ) → n ≤ 20 → ltb 20 n ≡ false
not_more n h = ground (arith, h)

-- A safe name has at most 20 bytes, all of them safe, and a name of at most 20 safe bytes is kept.
pub make_fs_safe_name_lem :
    (name : Bytes)
    → (length (make_fs_safe_name name) ≤ 20)
      × All IsSafe (make_fs_safe_name name)
      × (length name ≤ 20 → All IsSafe name → make_fs_safe_name name ≡ name)
unfolding make_fs_safe_name
make_fs_safe_name_lem name =
    let cut_off = if ltb 20 (length name) then take 20 name else name in
    let short : length cut_off ≤ 20 = ground (arith, length-take 20 name) in
    (
      omega (arith, length-map_safe cut_off, short),
      map-IsSafe cut_off,
      λ few safe. rw (not_more (length name) few) (map_same name safe),
    )
