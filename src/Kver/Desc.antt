-- ===== src/Kver/Desc.antt =====
-- The description in a kernel image.
use gprovision.Kver.{bytes_at, desc, end_of_text, get_kdesc, le16, read_into}
use gprovision.Prelude.{
  Bytes, NoByte, [], ap, append_assoc, arith, codes, drop, drop-take, equal, equal_iff, false,
  length, length-append, length-take, refl, replicate, suc, sym, take, take-append,
  take-append_of_le, take-take_of_le, true, zero, ℕ, ◌++◌, ◌+◌, ◌-◌, ◌<◌, ◌==◌, ◌∙◌, ◌∷◌, ◌≡◌, ◌≢◌,
  ◌≤◌,
}

bytes_at-read :
    (from n : ℕ) (k buf : Bytes)
    → from + n ≤ 530
    → 530 ≤ length k
    → bytes_at from n (read_into k 530 buf) ≡ bytes_at from n k
bytes_at-read from n k buf h l =
    let size = length-take 530 k in
    sym (drop-take from n (read_into k 530 buf))
    ∙ ap (drop from) (
        take-append_of_le (from + n) (take 530 k) (drop (length (take 530 k)) buf) (omega arith)
        ∙ take-take_of_le (from + n) 530 k h)
    ∙ drop-take from n k

end_of_text_lem : (d rest : Bytes) → NoByte 0 d → end_of_text (d ++ 0 ∷ rest) ≡ length d
unfolding end_of_text
end_of_text_lem [] [] h = refl
end_of_text_lem [] (c ∷ rest) h = ground arith
end_of_text_lem (b ∷ []) rest (h, hs) = let later = end_of_text_lem [] rest tt in ground arith
end_of_text_lem (b ∷ c ∷ d) rest (h, hs) =
    let later = end_of_text_lem (c ∷ d) rest hs in ground arith

take-text :
    (n : ℕ) (d rest : Bytes)
    → length d < n
    → take n (d ++ 0 ∷ rest) ≡ d ++ 0 ∷ take (n - length d - 1) rest
take-text zero d rest h = absurd (omega arith)
take-text (suc n) [] rest h = let same : suc n - 0 - 1 ≡ n = omega arith in rw same refl
take-text (suc n) (b ∷ d) rest h =
    let same : suc n - suc (length d) - 1 ≡ n - length d - 1 = omega arith in
    rw same (ap (λ s. b ∷ s) (take-text n d rest (omega arith)))

-- The text in a buffer that was read from where it begins.
text_of_read :
    (d rest buf : Bytes)
    → NoByte 0 d
    → length d < 1023
    → (end_of_text (read_into (d ++ 0 ∷ rest) 1024 buf) ≡ length d)
      × (take (length d) (read_into (d ++ 0 ∷ rest) 1024 buf) ≡ d)
text_of_read d rest buf h l =
    let got = take-text 1024 d rest (omega arith) in
    let more = take (1024 - length d - 1) rest in
    let tail = drop (length (take 1024 (d ++ 0 ∷ rest))) buf in
    let whole : read_into (d ++ 0 ∷ rest) 1024 buf ≡ d ++ 0 ∷ (more ++ tail) =
      ap (λ s. s ++ tail) got ∙ append_assoc d (0 ∷ more) tail in
    (
      ap end_of_text whole ∙ end_of_text_lem d (more ++ tail) h,
      ap (take (length d)) whole ∙ take-append d (0 ∷ (more ++ tail)),
    )

not_same : (n m : ℕ) → n ≢ m → (n == m) ≡ false
not_same n m h = ground (arith, h)

-- `GetKDesc` of an image with the signature of a boot sector, that of a kernel's header, and an
-- offset of its version that is not 0, returns the text that begins 512 bytes behind the offset, up
-- to a byte 0, if there is one within 1023 bytes.
pub get_kdesc_lem :
    (k d rest : Bytes)
    → 530 ≤ length k
    → bytes_at 510 2 k ≡ 85 ∷ 170 ∷ []
    → bytes_at 514 4 k ≡ codes "HdrS"
    → equal (bytes_at 526 4 k) (0 ∷ 0 ∷ 0 ∷ 0 ∷ []) ≡ false
    → drop (le16 (bytes_at 526 2 k) + 512) k ≡ d ++ 0 ∷ rest
    → NoByte 0 d
    → length d < 1023
    → get_kdesc k ≡ desc d
unfolding get_kdesc
get_kdesc_lem k d rest size boot sig off text h l =
    let zeros = replicate 1024 0 in
    let buf = read_into k 530 zeros in
    let some_bytes : (length k == 0) ≡ false = not_same (length k) 0 (λ e. absurd (omega arith)) in
    let a : equal (bytes_at 510 2 buf) (85 ∷ 170 ∷ []) ≡ true =
      (equal_iff _ _).1 (bytes_at-read 510 2 k zeros (omega arith) size ∙ boot) in
    let b : equal (bytes_at 514 4 buf) (codes "HdrS") ≡ true =
      (equal_iff _ _).1 (bytes_at-read 514 4 k zeros (omega arith) size ∙ sig) in
    let c : equal (bytes_at 526 4 buf) (0 ∷ 0 ∷ 0 ∷ 0 ∷ []) ≡ false =
      ap (λ s. equal s (0 ∷ 0 ∷ 0 ∷ 0 ∷ [])) (bytes_at-read 526 4 k zeros (omega arith) size)
      ∙ off in
    let place : drop (le16 (bytes_at 526 2 buf) + 512) k ≡ d ++ 0 ∷ rest =
      ap (λ s. drop (le16 s + 512) k) (bytes_at-read 526 2 k zeros (omega arith) size) ∙ text in
    let found = text_of_read d rest buf h l in
    let more = length-append d (0 ∷ rest) in
    let there : (length (d ++ 0 ∷ rest) == 0) ≡ false =
      not_same (length (d ++ 0 ∷ rest)) 0 (λ e. absurd (omega arith)) in
    let short : (length d == 1023) ≡ false = not_same (length d) 1023 (λ e. absurd (omega arith)) in
    rw (get_kdesc, some_bytes, a, b, c, place, there, found.0, short, found.1) refl
