-- ===== src/Prelude/Result.antt =====
-- A Go result with an `error`: a value, or the error's message.
use mathlib.Core.Path.{◌≡◌, refl}
use reversibility_engine.Prelude.Text.{Text}

pub data Result {ℓ} (V : Type ℓ) : Type ℓ where
  err : (message : Text) → Result V
  ok : (value : V) → Result V

infixl 5 ◌>>=◌
-- `if err != nil { return err }`, then the rest.
abbrev pub ◌>>=◌ {ℓ ℓ'} : {V : Type ℓ} {W : Type ℓ'} (r : Result V) → (V → Result W) → Result W
(err message) >>= next = err message
(ok value) >>= next = next value

pub >>=-eq-ok {ℓ ℓ'} :
    {V : Type ℓ} {W : Type ℓ'} (r : Result V) (next : V → Result W) {w : W}
    → (r >>= next) ≡ ok w
    → (v : V) × (r ≡ ok v) × (next v ≡ ok w)
>>=-eq-ok (err message) next h = cc
>>=-eq-ok (ok value) next h = (value, refl, h)

pub ok_injective {ℓ} : {V : Type ℓ} {v w : V} → ok v ≡ ok w → v ≡ w
ok_injective e = cc
