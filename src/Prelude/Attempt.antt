-- ===== src/Prelude/Attempt.antt =====
-- A call that returns a value or throws an error, which carries its message.
use mathlib.Core.Path.{◌≡◌, refl, ap}
use mathlib.Core.Bool.{Bool, true, false}
use mathlib.Core.List.{[]}
use enclave_mail.Prelude.Strings.{Text}

pub data Attempt {ℓ} (A : Type ℓ) : Type ℓ where
  returned : A → Attempt A
  thrown : Text → Attempt A

infixl 5 ◌>>=◌
abbrev pub ◌>>=◌ {ℓ κ} : {A : Type ℓ} {B : Type κ} → Attempt A → (A → Attempt B) → Attempt B
returned a >>= f = f a
thrown message >>= f = thrown message

abbrev pub when {ℓ} : {A : Type ℓ} → Bool → Text → Attempt A → Attempt A
when true message next = thrown message
when false message next = next

-- What a call returned by way of a second one.
pub >>=-eq-returned {ℓ κ} :
    {A : Type ℓ} {B : Type κ} (m : Attempt A) (f : A → Attempt B) (b : B)
    → (m >>= f) ≡ returned b
    → (a : A) × (m ≡ returned a) × (f a ≡ returned b)
>>=-eq-returned (returned a) f b e = (a, refl, e)
>>=-eq-returned (thrown message) f b e = cc

-- What holds of a value that is returned.
abbrev pub Returns {ℓ κ} : {A : Type ℓ} → (A → Type κ) → Attempt A → Type κ
Returns P (returned a) = P a
Returns P (thrown message) = Unit

pub returned_injective {ℓ} : {A : Type ℓ} (a b : A) → returned a ≡ returned b → a ≡ b
returned_injective a b e = cc

abbrev message_of {ℓ} : {A : Type ℓ} → Attempt A → Text
message_of (returned a) = []
message_of (thrown message) = message

pub thrown_injective {ℓ} :
    {A : Type ℓ} (s t : Text) → ◌≡◌ {A = Attempt A} (thrown s) (thrown t) → s ≡ t
thrown_injective s t e = ap message_of e
