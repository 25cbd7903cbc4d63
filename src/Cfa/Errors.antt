-- ===== src/Cfa/Errors.antt =====
-- The errors that pkg/hw/cfa returns, and fallible results. Formatted messages keep their kind.
use gprovision.Prelude.{refl, ◌≡◌}

pub data Error : Type 0 where
  -- io.ErrShortBuffer, io.ErrUnexpectedEOF, os.ErrInvalid, os.ErrClosed
  short_buffer unexpected_eof invalid closed : Error
  -- EPacket, ERetry, ELen, ERange
  e_packet e_retry e_len e_range : Error
  -- fmt.Errorf of SetCommand and of SetData
  command_range data_oversized : Error

-- What a Go function with a value and an error returns; beside an error no value is used.
pub data Result {ℓ} (A : Type ℓ) : Type ℓ where
  err : Error → Result A
  ok : A → Result A

infixl 5 ◌>>=◌
-- `if err != nil { return }` between two calls.
abbrev pub ◌>>=◌ {ℓ κ} : {A : Type ℓ} {B : Type κ} → Result A → (A → Result B) → Result B
err code >>= cont = err code
ok got >>= cont = cont got

-- Both calls of a chain without an error had none.
pub >>=-eq-ok {ℓ κ} :
    {A : Type ℓ} {B : Type κ} (outcome : Result A) (cont : A → Result B) {final : B}
    → (outcome >>= cont) ≡ ok final
    → (got : A) × (outcome ≡ ok got) × (cont got ≡ ok final)
>>=-eq-ok (err code) cont went = cc
>>=-eq-ok (ok got) cont went = (got, refl, went)
