-- ===== src/Kver/Parts.antt =====
-- What a description that has all its parts is taken apart into.
use Prim.Native.Nat.{min}
use mathlib.Core.Path.{ap₂}
use gprovision.Kver.{
  KInfo, fst_or, is_frame, last_of, parse_build, parse_desc, parse_halves, parse_release,
  parse_second, parsed, snd_or_nil, split_builder,
}
use gprovision.Prelude.{
  Bytes, NoByte, NoByte-append, Option, [], ap, append_assoc, codes, cut, cut_first, false,
  parse_uint, refl, some, split_on, split_on_first, split_on_none, trim_by, trim_prefix, trim_space,
  ℕ, ◌++◌, ◌==◌, ◌∙◌, ◌∷◌, ◌≡◌,
}

-- The text of a release: three numbers with dots between them, a dash and the local version.
abbrev pub release_text : Bytes → Bytes → Bytes → Bytes → Bytes
release_text maj min patch local = maj ++ b'.' ∷ (min ++ b'.' ∷ (patch ++ b'-' ∷ local))

-- A text of none of the separators.
pub record IsPart (s : Bytes) : Type 0 where
  pub no_hash : NoByte b'#' s
  pub no_space : NoByte b' ' s
  pub no_dot : NoByte b'.' s

release-NoByte :
    (c : ℕ) (maj min patch local : Bytes)
    → (b'.' == c) ≡ false
    → (b'-' == c) ≡ false
    → NoByte c maj
    → NoByte c min
    → NoByte c patch
    → NoByte c local
    → NoByte c (release_text maj min patch local)
release-NoByte c maj min patch local d e h1 h2 h3 h4 =
    NoByte-append c maj (b'.' ∷ (min ++ b'.' ∷ (patch ++ b'-' ∷ local))) h1 (
      d,
      NoByte-append c min (b'.' ∷ (patch ++ b'-' ∷ local)) h2
          (d, NoByte-append c patch (b'-' ∷ local) h3 (e, h4)),
    )

split_release :
    (maj min patch local : Bytes)
    → NoByte b'.' maj
    → NoByte b'.' min
    → NoByte b'.' patch
    → NoByte b'.' local
    → split_on b'.' (release_text maj min patch local) ≡ maj ∷ min ∷ (patch ++ b'-' ∷ local) ∷ []
split_release maj min patch local h1 h2 h3 h4 =
    rw
      (
        split_on_first b'.' maj (min ++ b'.' ∷ (patch ++ b'-' ∷ local)) h1,
        split_on_first b'.' min (patch ++ b'-' ∷ local) h2,
        split_on_none b'.' (patch ++ b'-' ∷ local)
            (NoByte-append b'.' patch (b'-' ∷ local) h3 (refl, h4)),
      )
      refl

module _ {Time : Type 0} (parse_time : Bytes → Option Time) where
  parse_release_lem :
      (ki : KInfo Time) (maj min patch local : Bytes) {x y z : ℕ}
      → parse_uint 10 64 maj ≡ some x
      → parse_uint 10 64 min ≡ some y
      → parse_uint 10 64 patch ≡ some z
      → NoByte b'-' patch
      → parse_release parse_time ki (maj ∷ min ∷ (patch ++ b'-' ∷ local) ∷ [])
        ≡ parsed (record ki { maj = x; min = y; patch = z; local_ver = local })
  unfolding parse_release last_of
  parse_release_lem ki maj min patch local {x} {y} {z} e f g h =
      let dash = cut_first b'-' patch local h in
      let number : parse_uint 10 64
            (fst_or (patch ++ b'-' ∷ local) (cut b'-' (patch ++ b'-' ∷ local)))
          ≡ some z =
        ap (λ o. parse_uint 10 64 (fst_or (patch ++ b'-' ∷ local) o)) dash ∙ g in
      rw (parse_release, e, f, number)
        (ap (λ o. parsed (record ki { maj = x; min = y; patch = z; local_ver = snd_or_nil o }))
          dash)

  parse_build_lem :
      (release builder version num rest : Bytes) {n : ℕ} {t : Time}
      → parse_uint 10 64 num ≡ some n
      → parse_time (trim_space (trim_prefix rest (codes "SMP"))) ≡ some t
      → parse_build parse_time release builder version (num, rest)
        ≡ parse_release parse_time
            (record {
              release = release;
              version = version;
              builder = builder;
              build_num = n;
              build_time = t;
              maj = 0;
              min = 0;
              patch = 0;
              local_ver = [];
            })
            (split_on b'.' release)
  unfolding parse_build
  parse_build_lem release builder version num rest e f = rw (parse_build, e, f) refl

  parse_halves_lem :
      (release builder num rest : Bytes)
      → NoByte b' ' release
      → NoByte b' ' num
      → parse_halves parse_time ((release ++ b' ' ∷ builder) ∷ (num ++ b' ' ∷ rest) ∷ [])
        ≡ parse_build parse_time release
            (trim_by is_frame builder)
            (b'#' ∷ (num ++ b' ' ∷ rest))
            (num, rest)
  unfolding parse_halves parse_second
  parse_halves_lem release builder num rest h k =
      let first = cut_first b' ' release builder h in
      let second = cut_first b' ' num rest k in
      ap₂
        (λ p q.
          parse_second parse_time (split_builder p (release ++ b' ' ∷ builder))
            (b'#' ∷ (num ++ b' ' ∷ rest)) q)
        first second

  split_halves :
      (release builder num rest : Bytes)
      → NoByte b'#' release
      → NoByte b'#' builder
      → NoByte b'#' num
      → NoByte b'#' rest
      → split_on b'#' (release ++ b' ' ∷ (builder ++ b'#' ∷ (num ++ b' ' ∷ rest)))
        ≡ (release ++ b' ' ∷ builder) ∷ (num ++ b' ' ∷ rest) ∷ []
  split_halves release builder num rest h1 h2 h3 h4 =
      rw
        (
          ← append_assoc release (b' ' ∷ builder) (b'#' ∷ (num ++ b' ' ∷ rest)),
          split_on_first b'#' (release ++ b' ' ∷ builder) (num ++ b' ' ∷ rest)
              (NoByte-append b'#' release (b' ' ∷ builder) h1 (refl, h2)),
          split_on_none b'#' (num ++ b' ' ∷ rest)
              (NoByte-append b'#' num (b' ' ∷ rest) h3 (refl, h4)),
        )
        refl

  -- A description with a release of three numbers and a local version, a builder, a build number and
  -- a time is taken apart into these, where the builder loses spaces and parentheses around it and
  -- the time a leading SMP and spaces around it; its numbers are those of their texts, its parts have
  -- no number sign, those of the release no space and no dot, the last number no dash, and the build
  -- number no space.
  pub parse_desc_lem :
      (maj min patch local builder num rest : Bytes) {x y z n : ℕ} {t : Time}
      → IsPart maj
      → IsPart min
      → IsPart patch
      → IsPart local
      → NoByte b'-' patch
      → NoByte b'#' builder
      → NoByte b' ' num
      → NoByte b'#' num
      → NoByte b'#' rest
      → parse_uint 10 64 maj ≡ some x
      → parse_uint 10 64 min ≡ some y
      → parse_uint 10 64 patch ≡ some z
      → parse_uint 10 64 num ≡ some n
      → parse_time (trim_space (trim_prefix rest (codes "SMP"))) ≡ some t
      → parse_desc parse_time
          (release_text maj min patch local ++ b' ' ∷ (builder ++ b'#' ∷ (num ++ b' ' ∷ rest)))
        ≡ parsed (record {
          release = release_text maj min patch local;
          version = b'#' ∷ (num ++ b' ' ∷ rest);
          builder = trim_by is_frame builder;
          build_num = n;
          build_time = t;
          maj = x;
          min = y;
          patch = z;
          local_ver = local;
        })
  unfolding parse_desc
  parse_desc_lem maj min patch local builder num rest p1 p2 p3 p4 dash hb hn hn' hr e1 e2 e3 en et =
      let release = release_text maj min patch local in
      let version = b'#' ∷ (num ++ b' ' ∷ rest) in
      ap (parse_halves parse_time) (
        split_halves release builder num rest
          (release-NoByte b'#' maj min patch local refl refl p1.no_hash p2.no_hash p3.no_hash
            p4.no_hash)
          hb hn' hr)
      ∙ parse_halves_lem release builder num rest
          (release-NoByte b' ' maj min patch local refl refl p1.no_space p2.no_space p3.no_space
            p4.no_space)
          hn
      ∙ parse_build_lem release (trim_by is_frame builder) version num rest en et
      ∙ ap (parse_release parse_time _)
          (split_release maj min patch local p1.no_dot p2.no_dot p3.no_dot p4.no_dot)
      ∙ parse_release_lem _ maj min patch local e1 e2 e3 dash
