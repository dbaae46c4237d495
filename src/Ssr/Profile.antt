-- ===== src/Ssr/Profile.antt =====
-- src/ssr/mod.rs: the method, protocol and obfs of a listener.
use sspanel_ssr_rust_backend.Base.{
  ℕ, ◌&&◌, ◌||◌, ◌≡◌, ◌⊎◌, ◌↔◌, inl, inr, refl, ap, List, ◌∙◌, sym, bytes_eq, bytes_eq_iff,
  if◌then◌else◌, Result, Error, ok, err, ◌>>=◌, ◌>>◌, arith,
}
use sspanel_ssr_rust_backend.Panel.{PanelUser, unwrap_or}
use sspanel_ssr_rust_backend.Config.{NodeConfig, timeout, auth_aes128_md5_name, plain_name}
use sspanel_ssr_rust_backend.Ssr.Cipher.{
  CipherKind, from_method, to_ascii_lowercase, rc4_md5_name, chacha20_ietf_name, lower_byte,
}

pub record Profile : Type 0 where
  pub method : List ℕ
  pub protocol : List ℕ
  pub obfs : List ℕ
  pub timeout_secs : ℕ

unfoldable pub ensure_supported : Profile → Result (Unit {0})
ensure_supported p =
    if (bytes_eq p.method rc4_md5_name || bytes_eq p.method chacha20_ietf_name)
      && bytes_eq p.protocol auth_aes128_md5_name
      && bytes_eq p.obfs plain_name
    then (from_method p.method >>= λ _. ok tt)
    else err Error.unsupported_profile

unfoldable pub new : List ℕ → List ℕ → List ℕ → ℕ → Result Profile
new method protocol obfs timeout =
    let profile : Profile = record {
      method = to_ascii_lowercase method;
      protocol = to_ascii_lowercase protocol;
      obfs = to_ascii_lowercase obfs;
      timeout_secs = timeout;
    } in
    ensure_supported profile >> ok profile

unfoldable pub from_user : {F : Type 0} → PanelUser F → NodeConfig → Result Profile
unfolding unwrap_or
from_user user node =
    new (unwrap_or user.method node.method) (unwrap_or user.protocol node.protocol)
      (unwrap_or user.obfs node.obfs) (timeout node)

-- `expect` on a failure.
unfoldable pub cipher_kind : Profile → Result CipherKind
cipher_kind p = elim (from_method p.method) [ ok kind ↦ ok kind | err _ ↦ err Error.panicked ]

-- The methods that the codec is wired for.
abbrev pub IsMethod : List ℕ → Type 0
IsMethod name = (name ≡ rc4_md5_name) ⊎ (name ≡ chacha20_ietf_name)

from_method_lower :
    (name : List ℕ) → IsMethod name → (kind : CipherKind) × (from_method name ≡ ok kind)
from_method_lower name (inl h) =
    unfold from_method to_ascii_lowercase lower_byte bytes_eq in rw h (CipherKind.rc4_md5, refl)
from_method_lower name (inr h) =
    unfold from_method to_ascii_lowercase lower_byte bytes_eq in
    rw h (CipherKind.chacha20_ietf, refl)

ensure_supported_iff :
    (p : Profile)
    → (ensure_supported p ≡ ok tt)
      ↔ (IsMethod p.method × (p.protocol ≡ auth_aes128_md5_name) × (p.obfs ≡ plain_name))
ensure_supported_iff p =
    let is_rc4 = bytes_eq_iff p.method rc4_md5_name in
    let is_chacha = bytes_eq_iff p.method chacha20_ietf_name in
    let is_protocol = bytes_eq_iff p.protocol auth_aes128_md5_name in
    let is_obfs = bytes_eq_iff p.obfs plain_name in
    (
      λ h. unfold ensure_supported in ground (arith, is_rc4, is_chacha, is_protocol, is_obfs),
      λ h.
          unfold ensure_supported in
          ground (arith, is_rc4, is_chacha, is_protocol, is_obfs, from_method_lower p.method),
    )

new_step :
    (method protocol obfs : List ℕ) (timeout : ℕ)
    → let p : Profile = record {
      method = to_ascii_lowercase method;
      protocol = to_ascii_lowercase protocol;
      obfs = to_ascii_lowercase obfs;
      timeout_secs = timeout;
    } in
      new method protocol obfs timeout ≡ (ensure_supported p >> ok p)
unfolding new
new_step method protocol obfs timeout = refl

>>-eq-ok :
    {A : Type 0} (m : Result (Unit {0})) (a b : A) → (m >> ok a) ≡ ok b → (m ≡ ok tt) × (a ≡ b)
>>-eq-ok (ok tt) a b h = (refl, ground arith)
>>-eq-ok (err e) a b h = cc

-- `new` accepts exactly the spellings, in any case of the letters, of rc4-md5 or chacha20-ietf with
-- auth_aes128_md5 and plain, whatever the timeout, and what it builds has the names in lower case.
pub new_iff :
    (method protocol obfs : List ℕ) (timeout : ℕ) (profile : Profile)
    → (new method protocol obfs timeout ≡ ok profile) ↔ (
        IsMethod profile.method
        × (profile.protocol ≡ auth_aes128_md5_name)
        × (profile.obfs ≡ plain_name)
        × (to_ascii_lowercase method ≡ profile.method)
        × (to_ascii_lowercase protocol ≡ profile.protocol)
        × (to_ascii_lowercase obfs ≡ profile.obfs)
        × (timeout ≡ profile.timeout_secs))
new_iff method protocol obfs timeout profile =
    let p : Profile = record {
      method = to_ascii_lowercase method;
      protocol = to_ascii_lowercase protocol;
      obfs = to_ascii_lowercase obfs;
      timeout_secs = timeout;
    } in
    (
      λ h.
          let (accepted, same) =
            >>-eq-ok (ensure_supported p) p profile
              (sym (new_step method protocol obfs timeout) ∙ h) in
          let (m, q, o) =
            (ensure_supported_iff profile).0 (ap ensure_supported (sym same) ∙ accepted) in
          (
            m,
            q,
            o,
            ap (λ x. x.method) same,
            ap (λ x. x.protocol) same,
            ap (λ x. x.obfs) same,
            ap (λ x. x.timeout_secs) same,
          ),
      λ (m, q, o, same_m, same_q, same_o, same_t).
          let accepted = (ensure_supported_iff profile).1 (m, q, o) in
          new_step method protocol obfs timeout
          ∙ (rw (same_m, same_q, same_o, same_t, accepted) refl),
    )

cipher_kind_ok :
    (p : Profile) (kind : CipherKind) → from_method p.method ≡ ok kind → cipher_kind p ≡ ok kind
unfolding cipher_kind
cipher_kind_ok p kind h = rw (h, cipher_kind) refl

-- The `expect` of `cipher_kind` never fails on a profile that `new` has built.
pub cipher_kind-new :
    (method protocol obfs : List ℕ) (timeout : ℕ) (profile : Profile)
    → new method protocol obfs timeout ≡ ok profile
    → (kind : CipherKind) × (cipher_kind profile ≡ ok kind)
cipher_kind-new method protocol obfs timeout profile h =
    let (kind, found) =
      from_method_lower profile.method ((new_iff method protocol obfs timeout profile).0 h).0 in
    (kind, cipher_kind_ok profile kind found)
