-- ===== src/Base/Outcome.antt =====
-- anyhow's `Result`: a value, or one of the errors that the program can end a step with.
use mathlib.Core.Path.{◌≡◌, refl}
use mathlib.Core.Bool.{Bool, true, false}
use mathlib.Core.Logic.{◌⊎◌, inl, inr}

-- One constructor for each `bail!` and `anyhow!` of the modelled code; `panicked` is an `expect` or
-- an index out of bounds, and `stuck` a model loop that ran out of its fuel.
pub data Error : Type 0 where
  check_head_mismatch auth_hmac_mismatch bad_auth_length auth_checksum_mismatch : Error
  rnd_len_overrun data_length_mismatch bad_data_length data_checksum_mismatch : Error
  data_padding_overrun udp_too_short udp_hmac_mismatch : Error
  non_utf8_domain unsupported_atyp : Error
  unsupported_profile unsupported_cipher short_datagram no_handshake : Error
  config_invalid panel_ret too_many_users : Error
  no_counter header_incomplete port_is_forbidden not_resolved only_forbidden : Error
  idle_timeout handshake_too_long no_ip_set audit_blocked : Error
  external : Error
  panicked stuck : Error

pub data Result {ℓ} (A : Type ℓ) : Type ℓ where
  ok : A → Result A
  err : Error → Result A

-- `if !b { bail!(e) }`
abbrev pub guard : (holds : Bool) (otherwise : Error) → Result (Unit {0})
guard false otherwise = err otherwise
guard true otherwise = ok tt

-- `?`
infixl 5 ◌>>=◌
abbrev pub ◌>>=◌ {ℓ κ} : {A : Type ℓ} {B : Type κ} → (m : Result A) → (f : A → Result B) → Result B
err e >>= next = err e
ok value >>= next = next value

infixl 5 ◌>>◌
abbrev pub ◌>>◌ {κ} : {B : Type κ} → (first : Result (Unit {0})) → (second : Result B) → Result B
first >> second = first >>= λ _. second

pub >>=_assoc {ℓ} :
    {A B C : Type ℓ} (m : Result A) (f : A → Result B) (g : B → Result C)
    → ((m >>= f) >>= g) ≡ (m >>= λ a. f a >>= g)
>>=_assoc (ok a) f g = refl
>>=_assoc (err e) f g = refl

pub Result-cases {ℓ} :
    {A : Type ℓ} (r : Result A) → ((e : Error) × (r ≡ err e)) ⊎ ((a : A) × (r ≡ ok a))
Result-cases (err e) = inl (e, refl)
Result-cases (ok a) = inr (a, refl)

-- A chain that succeeds, taken apart.
pub >>=-eq-ok {κ ℓ} :
    {B : Type κ} {A : Type ℓ} (first : Result A) (next : A → Result B) {out : B}
    → (first >>= next) ≡ ok out
    → (value : A) × (first ≡ ok value) × (next value ≡ ok out)
>>=-eq-ok (err e) next failed = cc
>>=-eq-ok (ok value) next done = (value, refl, done)
