-- ===== src/Kver.antt =====
-- pkg/fileutil/kver/kver.go: the version that a kernel image carries.
pub mod Desc
pub mod Parts
use gprovision.Prelude.{
  Bool, Bytes, List, Option, [], codes, cut, drop, equal, if◌then◌else◌, length, none, not,
  parse_uint, replicate, some, split_on, take, trim_by, trim_prefix, trim_space, ℕ, ◌*◌, ◌++◌, ◌+◌,
  ◌==◌, ◌||◌, ◌∷◌,
}

-- What `GetKDesc` ends with. `e_read` is an error of the reader.
pub data DescResult : Type 0 where
  desc : Bytes → DescResult
  e_read e_boot_sig e_bad_sig e_bad_off e_bad_str : DescResult

-- A read into a buffer: the bytes that the file still has, before what was in the buffer.
abbrev pub read_into : Bytes → ℕ → Bytes → Bytes
read_into rest n buf = take n rest ++ drop (length (take n rest)) buf

-- The index of the first byte of a buffer that is 0, or of its last byte.
unfoldable pub end_of_text : Bytes → ℕ
end_of_text [] = 0
end_of_text (b ∷ []) = 0
end_of_text (b ∷ c ∷ buf) = let rest = end_of_text (c ∷ buf) in if b == 0 then 0 else rest + 1

abbrev pub bytes_at : ℕ → ℕ → Bytes → Bytes
bytes_at from n buf = take n (drop from buf)

-- `binary.LittleEndian.Uint16`
abbrev pub le16 : Bytes → ℕ
le16 [] = 0
le16 (a ∷ []) = 0
le16 (a ∷ b ∷ more) = a + 256 * b

-- `GetKDesc`, from the contents of the file; a read returns all that is there, and an error at the
-- end of the file.
unfoldable pub get_kdesc : Bytes → DescResult
get_kdesc k =
    let buf = read_into k 530 (replicate 1024 0) in
    let off = le16 (bytes_at 526 2 buf) + 512 in
    let buf' = read_into (drop off k) 1024 buf in
    let i = end_of_text buf' in
    if length k == 0
    then e_read
    else if not (equal (bytes_at 510 2 buf) (85 ∷ 170 ∷ []))
    then e_boot_sig
    else if not (equal (bytes_at 514 4 buf) (codes "HdrS"))
    then e_bad_sig
    else if equal (bytes_at 526 4 buf) (0 ∷ 0 ∷ 0 ∷ 0 ∷ [])
    then e_bad_off
    else if length (drop off k) == 0
    then e_read
    else if i == 1023
    then e_bad_str
    else desc (take i buf')

-- `KInfo`; `Time` is what `time.Parse` returns.
pub record KInfo (Time : Type 0) : Type 0 where
  pub release : Bytes
  pub version : Bytes
  pub builder : Bytes
  pub build_num : ℕ
  pub build_time : Time
  pub maj : ℕ
  pub min : ℕ
  pub patch : ℕ
  pub local_ver : Bytes

pub data ParseResult (Time : Type 0) : Type 0 where
  parsed : KInfo Time → ParseResult Time
  e_parse e_number e_time : ParseResult Time

-- The last of several texts.
unfoldable pub last_of : Bytes → List Bytes → Bytes
last_of p [] = p
last_of p (q ∷ ps) = last_of q ps

abbrev pub fst_or : Bytes → Option (Bytes × Bytes) → Bytes
fst_or p none = p
fst_or p (some (a, b)) = a

abbrev pub snd_or_nil : Option (Bytes × Bytes) → Bytes
snd_or_nil none = []
snd_or_nil (some (a, b)) = b

abbrev pub is_frame : ℕ → Bool
is_frame b = b == b' ' || b == b'(' || b == b')'

-- The release and the builder, from the text and its parts around a space.
abbrev pub split_builder : Option (Bytes × Bytes) → Bytes → Bytes × Bytes
split_builder none first = (first, [])
split_builder (some (r, b)) first = (r, trim_by is_frame b)

module _ {Time : Type 0} (parse_time : Bytes → Option Time) where
  -- The part of `ParseDesc` that takes the release apart; `ki` has what was found before.
  unfoldable pub parse_release : KInfo Time → List Bytes → ParseResult Time
  parse_release ki [] = e_parse
  parse_release ki (a ∷ []) = e_parse
  parse_release ki (a ∷ b ∷ []) = e_parse
  parse_release ki (a ∷ b ∷ c ∷ more) = elim (parse_uint 10 64 a) [
    | none ↦ e_number
    | some x ↦ elim (parse_uint 10 64 b) [
      | none ↦ e_number
      | some y ↦ elim (parse_uint 10 64 (fst_or c (cut b'-' c))) [
        | none ↦ e_number
        | some z ↦ parsed (record ki {
          maj = x;
          min = y;
          patch = z;
          local_ver = snd_or_nil (cut b'-' (last_of c more));
        })
      ]
    ]
  ]

  -- The part that takes the build number and time apart.
  unfoldable pub parse_build : Bytes → Bytes → Bytes → Bytes × Bytes → ParseResult Time
  parse_build release builder version (num, rest) = elim (parse_uint 10 64 num) [
    | none ↦ e_number
    | some n ↦ elim (parse_time (trim_space (trim_prefix rest (codes "SMP")))) [
      | none ↦ e_time
      | some t ↦
          parse_release
            (record {
              release = release;
              version = version;
              builder = builder;
              build_num = n;
              build_time = t;
              maj = 0;
              min = 0;
              patch = 0;
              local_ver = [];
            })
            (split_on b'.' release)
    ]
  ]

  -- The build number and time behind the release and the builder.
  unfoldable pub parse_second : Bytes × Bytes → Bytes → Option (Bytes × Bytes) → ParseResult Time
  parse_second first version none = e_parse
  parse_second first version (some halves) = parse_build first.0 first.1 version halves

  unfoldable pub parse_halves : List Bytes → ParseResult Time
  parse_halves (first ∷ second ∷ []) =
      parse_second (split_builder (cut b' ' first) first) (b'#' ∷ second) (cut b' ' second)
  parse_halves [] = e_parse
  parse_halves (first ∷ []) = e_parse
  parse_halves (first ∷ second ∷ third ∷ more) = e_parse

  -- `ParseDesc`
  unfoldable pub parse_desc : Bytes → ParseResult Time
  parse_desc d = parse_halves (split_on b'#' d)
