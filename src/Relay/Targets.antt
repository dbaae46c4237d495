-- ===== src/Relay/Targets.antt =====
-- src/tcp.rs and src/udp.rs: what a policy lets a relay reach.
use sspanel_ssr_rust_backend.Base.{
  ℕ, Bool, true, false, ◌&&◌, Option, none, some, List, [], ◌∷◌, ◌≡◌, refl, ap, ◌∙◌, inl, inr,
  arith, All, Bool-cases, Result, Result-cases, Error, ok,
}
use sspanel_ssr_rust_backend.Net.{SocketAddr, IpAddr}
use sspanel_ssr_rust_backend.Policy.{EnforcementConfig, UserPolicy, ip_forbidden}
use sspanel_ssr_rust_backend.Ssr.Address.{Address, connect_target}
use sspanel_ssr_rust_backend.Relay.{port_blocked, ip_check, allowed_only}
use sspanel_ssr_rust_backend.Relay.Tcp.{connect_first, connect_target_checked}

-- Whether the policy forbids an address; it has no say while enforcement is off.
unfoldable pub ip_blocked : EnforcementConfig → Option UserPolicy → IpAddr → Bool
ip_blocked enforcement none ip = false
ip_blocked enforcement (some p) ip = enforcement.forbidden && ip_forbidden p ip

-- An address that the policy lets through.
unfoldable pub IsAllowed : EnforcementConfig → Option UserPolicy → SocketAddr → Type 0
IsAllowed enforcement policy a =
    (port_blocked enforcement policy a.port ≡ false) × (ip_blocked enforcement policy a.ip ≡ false)

-- A port that the policy lets through, without any address that it forbids.
unfoldable pub IsOpenTarget : EnforcementConfig → Option UserPolicy → ℕ → Type 0
IsOpenTarget enforcement policy port =
    (port_blocked enforcement policy port ≡ false) × (ip_check enforcement policy ≡ false)

-- What tokio's `lookup_host` documents: the addresses carry the port that was asked for.
unfoldable pub KeepsPort : (List ℕ → ℕ → Result (List SocketAddr)) → Type 0
KeepsPort lookup_host =
    (host : List ℕ) (port : ℕ) (addrs : List SocketAddr)
    → lookup_host host port ≡ ok addrs
    → All (λ a. a.port ≡ port) addrs

pub ip_forbidden-IsAllowed :
    (enforcement : EnforcementConfig) (p : UserPolicy) (port : ℕ) (a : SocketAddr)
    → port_blocked enforcement (some p) port ≡ false
    → a.port ≡ port
    → ip_forbidden p a.ip ≡ false
    → IsAllowed enforcement (some p) a
unfolding IsAllowed ip_blocked
ip_forbidden-IsAllowed enforcement p port a passes same free =
    (ap (port_blocked enforcement (some p)) same ∙ passes, ground (arith, free))

connect_first_same {ℓ} :
    {S : Type ℓ} (connect connect' : SocketAddr → Result S) (enforcement : EnforcementConfig)
    (p : UserPolicy) (port : ℕ) (last : Error) (addrs : List SocketAddr)
    → port_blocked enforcement (some p) port ≡ false
    → All (λ a. a.port ≡ port) addrs
    → ((a : SocketAddr) → IsAllowed enforcement (some p) a → connect a ≡ connect' a)
    → connect_first connect last (allowed_only p addrs)
      ≡ connect_first connect' last (allowed_only p addrs)
unfolding allowed_only connect_first
connect_first_same connect connect' enforcement p port last [] passes same agree = refl
connect_first_same connect connect' enforcement p port last (a ∷ addrs) passes (here, same) agree =
    elim (Bool-cases (ip_forbidden p a.ip)) [
      | inl blocked ↦
          rw blocked
            (connect_first_same connect connect' enforcement p port last addrs passes same agree)
      | inr free ↦
          let now = agree a (ip_forbidden-IsAllowed enforcement p port a passes here free) in
          elim (Result-cases (connect' a)) [
            | inl (e, q) ↦
                rw (free, now, q)
                  (connect_first_same connect connect' enforcement p port e addrs passes same agree)
            | inr (stream, q) ↦ rw (free, now, q)
          ]
    ]

-- The part of the code that resolves.
resolving_same {ℓ} :
    {S : Type ℓ} (connect_host connect_host' : List ℕ → ℕ → Result S)
    (connect connect' : SocketAddr → Result S) (lookup_host : List ℕ → ℕ → Result (List SocketAddr))
    (target : Address) (policy : Option UserPolicy) (enforcement : EnforcementConfig)
    → KeepsPort lookup_host
    → ((a : SocketAddr) → IsAllowed enforcement policy a → connect a ≡ connect' a)
    → port_blocked enforcement policy target.port ≡ false
    → ip_check enforcement policy ≡ true
    → connect_target_checked connect_host connect lookup_host target policy enforcement
      ≡ connect_target_checked connect_host' connect' lookup_host target policy enforcement
unfolding connect_target_checked connect_target ip_check KeepsPort
resolving_same connect_host connect_host' connect connect' lookup_host target none enforcement keeps
      agree passes checks =
    ground arith
resolving_same connect_host connect_host' connect connect' lookup_host target (some p) enforcement
      keeps agree passes checks =
    elim (Result-cases (lookup_host target.host target.port)) [
      | inl (e, q) ↦ rw (passes, checks, q)
      | inr (addrs, q) ↦
          let tried =
            connect_first_same connect connect' enforcement p target.port Error.panicked addrs
              passes (keeps target.host target.port addrs q) agree in
          rw (passes, checks, q, tried)
    ]

-- The connection that a session gets depends on `connect` at no address and at no port that the
-- user's policy forbids: two behaviours of the network that agree wherever the policy lets the
-- session go cannot be told apart, so that no forbidden target is ever tried. It holds for a
-- resolver whose answers carry the port asked for.
pub connect_target_checked_blind {ℓ} :
    {S : Type ℓ} (connect_host connect_host' : List ℕ → ℕ → Result S)
    (connect connect' : SocketAddr → Result S) (lookup_host : List ℕ → ℕ → Result (List SocketAddr))
    (target : Address) (policy : Option UserPolicy) (enforcement : EnforcementConfig)
    → KeepsPort lookup_host
    → ((a : SocketAddr) → IsAllowed enforcement policy a → connect a ≡ connect' a)
    → ((host : List ℕ) (port : ℕ)
        → IsOpenTarget enforcement policy port
        → connect_host host port ≡ connect_host' host port)
    → connect_target_checked connect_host connect lookup_host target policy enforcement
      ≡ connect_target_checked connect_host' connect' lookup_host target policy enforcement
unfolding connect_target_checked connect_target
connect_target_checked_blind connect_host connect_host' connect connect' lookup_host target policy
      enforcement keeps agree agree_host =
    elim (Bool-cases (port_blocked enforcement policy target.port)) [
      | inl blocked ↦ rw blocked
      | inr passes ↦ elim (Bool-cases (ip_check enforcement policy)) [
        | inr unchecked ↦
            rw (passes, unchecked)
              (agree_host target.host target.port (unfold IsOpenTarget in (passes, unchecked)))
        | inl checks ↦
            resolving_same connect_host connect_host' connect connect' lookup_host target policy
              enforcement keeps agree passes checks
      ]
    ]
