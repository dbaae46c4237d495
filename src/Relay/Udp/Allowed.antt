-- ===== src/Relay/Udp/Allowed.antt =====
-- src/udp.rs: where the relay sends datagrams.
use sspanel_ssr_rust_backend.Base.{
  ℕ, true, false, Option, none, some, List, [], ◌∷◌, ◌++◌, ◌≡◌, refl, ◌⊎◌, inl, inr, arith, All,
  nat_eq, Bool-cases, Option-cases, Result, Result-cases, Error, ok, err,
}
use mathlib.Core.Path.{subst}
use sspanel_ssr_rust_backend.Base.Table
use sspanel_ssr_rust_backend.Text.{is_empty}
use sspanel_ssr_rust_backend.Net.{SocketAddr}
use sspanel_ssr_rust_backend.Policy.{EnforcementConfig, UserPolicy, ip_forbidden}
use sspanel_ssr_rust_backend.Ssr.Address.{Address}
use sspanel_ssr_rust_backend.State.{touch}
use sspanel_ssr_rust_backend.Relay.{port_blocked, ip_check}
use sspanel_ssr_rust_backend.Relay.Targets.{
  KeepsPort, IsAllowed, IsOpenTarget, ip_forbidden-IsAllowed,
}
use sspanel_ssr_rust_backend.Relay.Udp.{
  AssociationKey_eq, AssociationKey, ResponsePump, Listener, UdpDest, addr, host_port, Sent,
  UdpState, Os, find_allowed, resolve_udp_dest, outbound_for, deliver, forward,
}

-- The target's port and address, or its port alone where no address is forbidden.
unfoldable pub MayReach : EnforcementConfig → Option UserPolicy → UdpDest → Type 0
MayReach enforcement policy (addr a) = IsAllowed enforcement policy a
MayReach enforcement policy (host_port host port) = IsOpenTarget enforcement policy port

find_allowed-IsAllowed :
    (enforcement : EnforcementConfig) (p : UserPolicy) (port : ℕ) (addrs : List SocketAddr)
    (a : SocketAddr)
    → port_blocked enforcement (some p) port ≡ false
    → All (λ a. a.port ≡ port) addrs
    → find_allowed p addrs ≡ some a
    → IsAllowed enforcement (some p) a
unfolding find_allowed
find_allowed-IsAllowed enforcement p port [] a passes same found = cc
find_allowed-IsAllowed enforcement p port (b ∷ others) a passes (here, same) found =
    elim (Bool-cases (ip_forbidden p b.ip)) [
      | inl blocked ↦ find_allowed-IsAllowed enforcement p port others a passes same (ground arith)
      | inr free ↦
          let it : b ≡ a = ground arith in
          subst (IsAllowed enforcement (some p)) it
            (ip_forbidden-IsAllowed enforcement p port b passes here free)
    ]

-- The answers of `resolve_udp_dest`, one for each of its branches.
resolve_udp_dest_unchecked :
    (os : Os) (target : Address) (policy : Option UserPolicy) (enforcement : EnforcementConfig)
    → ip_check enforcement policy ≡ false
    → resolve_udp_dest os target policy enforcement ≡ ok (host_port target.host target.port)
resolve_udp_dest_unchecked os target policy enforcement unchecked =
    unfold resolve_udp_dest in rw unchecked

resolve_udp_dest-none :
    (os : Os) (target : Address) (p : UserPolicy) (enforcement : EnforcementConfig)
    (addrs : List SocketAddr)
    → ip_check enforcement (some p) ≡ true
    → os.lookup_host target.host target.port ≡ ok addrs
    → find_allowed p addrs ≡ none
    → (e : Error) × (resolve_udp_dest os target (some p) enforcement ≡ err e)
resolve_udp_dest-none os target p enforcement [] checks answer none_found =
    (Error.not_resolved, unfold resolve_udp_dest is_empty in rw (checks, answer))
resolve_udp_dest-none os target p enforcement (a ∷ others) checks answer none_found =
    (Error.only_forbidden, unfold resolve_udp_dest is_empty in rw (checks, answer, none_found))

resolve_udp_dest-some :
    (os : Os) (target : Address) (p : UserPolicy) (enforcement : EnforcementConfig)
    (addrs : List SocketAddr) (a : SocketAddr)
    → ip_check enforcement (some p) ≡ true
    → os.lookup_host target.host target.port ≡ ok addrs
    → find_allowed p addrs ≡ some a
    → resolve_udp_dest os target (some p) enforcement ≡ ok (addr a)
unfolding find_allowed
resolve_udp_dest-some os target p enforcement [] a checks answer found = cc
resolve_udp_dest-some os target p enforcement (b ∷ others) a checks answer found =
    unfold resolve_udp_dest is_empty in rw (checks, answer, found)

resolve_udp_dest_err :
    (os : Os) (target : Address) (p : UserPolicy) (enforcement : EnforcementConfig) (e : Error)
    → ip_check enforcement (some p) ≡ true
    → os.lookup_host target.host target.port ≡ err e
    → resolve_udp_dest os target (some p) enforcement ≡ err e
resolve_udp_dest_err os target p enforcement e checks answer =
    unfold resolve_udp_dest in rw (checks, answer)

dest_of : (d d' : UdpDest) (r : Result UdpDest) → r ≡ ok d → r ≡ ok d' → d ≡ d'
dest_of d d' r e e' = cc

not_ok : (e : Error) (d : UdpDest) (r : Result UdpDest) → r ≡ err e → r ≡ ok d → ⊥
not_ok e d r failed done = cc

resolved-MayReach :
    (os : Os) (target : Address) (p : UserPolicy) (enforcement : EnforcementConfig) (dest : UdpDest)
    → KeepsPort os.lookup_host
    → port_blocked enforcement (some p) target.port ≡ false
    → ip_check enforcement (some p) ≡ true
    → resolve_udp_dest os target (some p) enforcement ≡ ok dest
    → MayReach enforcement (some p) dest
unfolding MayReach KeepsPort
resolved-MayReach os target p enforcement dest keeps passes checks done =
    elim (Result-cases (os.lookup_host target.host target.port)) [
      | inl (e, q) ↦
          absurd (not_ok e dest _ (resolve_udp_dest_err os target p enforcement e checks q) done)
      | inr (addrs, q) ↦ elim (Option-cases (find_allowed p addrs)) [
        | inl f ↦
            let (e, failed) = resolve_udp_dest-none os target p enforcement addrs checks q f in
            absurd (not_ok e dest _ failed done)
        | inr (a, f) ↦
            let it : addr a ≡ dest =
              dest_of _ _ _ (resolve_udp_dest-some os target p enforcement addrs a checks q f)
                done in
            subst (MayReach enforcement (some p)) it (
              find_allowed-IsAllowed enforcement p target.port addrs a passes
                (keeps target.host target.port addrs q) f)
      ]
    ]

none_checked : (enforcement : EnforcementConfig) → ip_check enforcement none ≡ true → ⊥
unfolding ip_check
none_checked enforcement checks = ground arith

checked-MayReach :
    (os : Os) (target : Address) (policy : Option UserPolicy) (enforcement : EnforcementConfig)
    (dest : UdpDest)
    → KeepsPort os.lookup_host
    → port_blocked enforcement policy target.port ≡ false
    → ip_check enforcement policy ≡ true
    → resolve_udp_dest os target policy enforcement ≡ ok dest
    → MayReach enforcement policy dest
checked-MayReach os target none enforcement dest keeps passes checks done =
    absurd (none_checked enforcement checks)
checked-MayReach os target (some p) enforcement dest keeps passes checks done =
    resolved-MayReach os target p enforcement dest keeps passes checks done

resolve_udp_dest-MayReach :
    (os : Os) (target : Address) (policy : Option UserPolicy) (enforcement : EnforcementConfig)
    (dest : UdpDest)
    → KeepsPort os.lookup_host
    → port_blocked enforcement policy target.port ≡ false
    → resolve_udp_dest os target policy enforcement ≡ ok dest
    → MayReach enforcement policy dest
unfolding MayReach
resolve_udp_dest-MayReach os target policy enforcement dest keeps passes done =
    elim (Bool-cases (ip_check enforcement policy)) [
      | inr unchecked ↦
          let it : host_port target.host target.port ≡ dest =
            dest_of _ _ _ (resolve_udp_dest_unchecked os target policy enforcement unchecked)
              done in
          subst (MayReach enforcement policy) it (unfold IsOpenTarget in (passes, unchecked))
      | inl checks ↦ checked-MayReach os target policy enforcement dest keeps passes checks done
    ]

-- The socket is found or made, and nothing is sent for it.
outbound_for-sent :
    (os : Os) (s : UdpState) (key : AssociationKey) (pump : ResponsePump)
    → (outbound_for os s key pump).0.sent ≡ s.sent
outbound_for-sent os s key pump = elim (Option-cases (touch s.associations key os.now).1) [
  | inr (a, e) ↦ unfold outbound_for in rw (e, outbound_for)
  | inl e ↦ elim (Result-cases os.bind) [
    | inl (f, q) ↦ unfold outbound_for in rw (e, outbound_for, q)
    | inr (socket, q) ↦ unfold outbound_for in rw (e, outbound_for, q)
  ]
]

-- What is sent at most: one datagram with the payload, where the policy lets it go.
unfoldable pub SendsAtMost :
    EnforcementConfig
    → Option UserPolicy
    → List ℕ
    → List (Sent UdpDest)
    → List (Sent UdpDest)
    → Type 0
SendsAtMost enforcement policy payload before after =
    (after ≡ before)
    ⊎ ((d : Sent UdpDest) × (after ≡ before ++ (d ∷ []))
        × (d.payload ≡ payload)
        × MayReach enforcement policy d.to)

deliver-SendsAtMost :
    (os : Os) (s : UdpState) (outbound : ℕ) (dest : UdpDest) (payload : List ℕ)
    (enforcement : EnforcementConfig) (policy : Option UserPolicy)
    → MayReach enforcement policy dest
    → SendsAtMost enforcement policy payload s.sent (deliver os s outbound dest payload).0.sent
deliver-SendsAtMost os s outbound dest payload enforcement policy may =
    elim (Result-cases os.send_to) [
      | inl (e, q) ↦ unfold SendsAtMost deliver in rw q (inl refl)
      | inr (done, q) ↦
          unfold SendsAtMost deliver in
          rw q (inr (record { from = outbound; to = dest; payload = payload }, refl, refl, may))
    ]

module _ (os : Os) (l : Listener) (s : UdpState) (peer : SocketAddr) (real_user_id : ℕ)
    (pump : ResponsePump) (target : Address) (payload : List ℕ) where
  abbrev pub policy_of : Option UserPolicy
  policy_of = Table.get real_user_id l.tables.policies

  abbrev pub outbound_of : UdpState × Result ℕ
  outbound_of = outbound_for os s (record { peer = peer; user_id = real_user_id }) pump

  pub forward_unresolved :
      (e : Error)
      → resolve_udp_dest os target policy_of l.enforcement ≡ err e
      → forward os l s peer real_user_id pump target payload ≡ (s, err e)
  unfolding forward
  forward_unresolved e q = rw (q, forward)

  pub forward_resolved :
      (dest : UdpDest) (out : Result ℕ)
      → resolve_udp_dest os target policy_of l.enforcement ≡ ok dest
      → outbound_of.1 ≡ out
      → forward os l s peer real_user_id pump target payload ≡ elim out [
        | err e ↦ (outbound_of.0, err e)
        | ok socket ↦ deliver os outbound_of.0 socket dest payload
      ]
  unfolding forward
  forward_resolved dest out q r = rw (q, forward) (rw r)

  pub forward-SendsAtMost :
      KeepsPort os.lookup_host
      → port_blocked l.enforcement policy_of target.port ≡ false
      → SendsAtMost l.enforcement policy_of payload s.sent
          (forward os l s peer real_user_id pump target payload).0.sent
  forward-SendsAtMost keeps passes =
      let kept = outbound_for-sent os s (record { peer = peer; user_id = real_user_id }) pump in
      elim (Result-cases (resolve_udp_dest os target policy_of l.enforcement)) [
        | inl (e, q) ↦ rw (forward_unresolved e q) (unfold SendsAtMost in inl refl)
        | inr (dest, q) ↦ elim (Result-cases outbound_of.1) [
          | inl (e, r) ↦ rw (forward_resolved dest (err e) q r) (unfold SendsAtMost in inl kept)
          | inr (socket, r) ↦ rw (forward_resolved dest (ok socket) q r) (
              subst
                (λ before.
                  SendsAtMost l.enforcement policy_of payload before
                    (deliver os outbound_of.0 socket dest payload).0.sent)
                kept
                (deliver-SendsAtMost os outbound_of.0 socket dest payload l.enforcement policy_of (
                  resolve_udp_dest-MayReach os target policy_of l.enforcement dest keeps passes q)))
        ]
      ]
