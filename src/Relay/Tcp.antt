-- ===== src/Relay/Tcp.antt =====
-- src/tcp.rs: one TCP connection, from the handshake to its end.
use sspanel_ssr_rust_backend.Base.{
  ℕ, ◌+◌, ◌-◌, ◌*◌, ◌^◌, ◌&&◌, not, Option, none, some, List, [], ◌∷◌, ◌++◌, length, drop, get_or,
  min, ltb, set, if◌then◌else◌, nat_eq, bytes_key, Result, Error, ok, err, ◌>>=◌,
}
use sspanel_ssr_rust_backend.Base.Int.{ℤ}
use sspanel_ssr_rust_backend.Base.Table
use sspanel_ssr_rust_backend.Text.{is_empty}
use sspanel_ssr_rust_backend.Net.{SocketAddr}
use sspanel_ssr_rust_backend.Panel.{unwrap_or}
use sspanel_ssr_rust_backend.Policy.{EnforcementConfig, UserPolicy}
use sspanel_ssr_rust_backend.Traffic.{UserIpSet, record_upload, acquire, release}
use sspanel_ssr_rust_backend.Audit
use sspanel_ssr_rust_backend.Audit.{CompiledRule, report_connect, scan}
use sspanel_ssr_rust_backend.UserTables.{UserTables}
use sspanel_ssr_rust_backend.Ssr.Crypto.{Crypto}
use sspanel_ssr_rust_backend.Ssr.Cipher.{CipherKind}
use sspanel_ssr_rust_backend.Ssr.Session
use sspanel_ssr_rust_backend.Ssr.Session.{ServerSession, decrypt, encrypt}
use sspanel_ssr_rust_backend.Ssr.Address.{Address, connect_target, parse}
use sspanel_ssr_rust_backend.Relay.{World, port_blocked, ip_check, allowed_only}

abbrev pub max_handshake_bytes : ℕ
max_handshake_bytes = 64 * 1024

-- The channel of events is in `World`; the timeouts show in what a read gives.
pub record StreamContext : Type 0 where
  pub password : List ℕ
  pub fallback_user_id : ℕ
  pub tables : UserTables
  pub enforcement : EnforcementConfig
  pub is_multi_user : ℤ
  pub cipher_kind : CipherKind
  pub rules : List CompiledRule
  pub peer_ip : List ℕ
  pub peer : List ℕ

-- What a read gives: a chunk, which is empty at the end of the stream, or an error.
pub data Read : Type 0 where
  chunk : List ℕ → Read
  fails : Error → Read

-- `pending` waits for a read.
pub data Handshake : Type 0 where
  closed : Handshake
  pending : (session : ServerSession) (app_buf : List ℕ) (pre_auth_upload : ℕ) → Handshake
  complete :
      (target : Address) (initial : List ℕ) (session : ServerSession) (pre_auth_upload : ℕ)
      → Handshake

-- `saturating_add` of `u64`
abbrev pub saturating_add : ℕ → ℕ → ℕ
saturating_add a b = min (a + b) (2 ^ 64 - 1)

-- From `app_buf.extend_from_slice(&decoded)` on.
unfoldable pub handshake_parse : ServerSession → List ℕ → ℕ → Result Handshake
handshake_parse session app_buf pre_auth_upload = parse app_buf >>= λ found. elim found [
  | some (addr, consumed) ↦ ok (complete addr (drop consumed app_buf) session pre_auth_upload)
  | none ↦
      if ltb max_handshake_bytes (length app_buf)
      then err Error.handshake_too_long
      else ok (pending session app_buf pre_auth_upload)
]

module _ ⦃c : Crypto⦄ where
  -- One round of the handshake loop.
  unfoldable pub handshake_read : ServerSession → List ℕ → ℕ → Read → Result Handshake
  unfolding handshake_parse
  handshake_read session app_buf pre_auth_upload (fails e) = err e
  handshake_read session app_buf pre_auth_upload (chunk []) = ok closed
  handshake_read session app_buf pre_auth_upload (chunk (byte ∷ bytes)) = do
    let n = length (byte ∷ bytes)
    (session', decoded) ← decrypt session (byte ∷ bytes)
    if is_empty decoded
        then ok (pending session' app_buf (saturating_add pre_auth_upload n))
        else handshake_parse session' (app_buf ++ decoded) (saturating_add pre_auth_upload n)

  -- The loop, over the reads of a connection.
  unfoldable pub handshake : ServerSession → List ℕ → ℕ → List Read → Result Handshake
  handshake session app_buf pre_auth_upload [] = ok (pending session app_buf pre_auth_upload)
  handshake session app_buf pre_auth_upload (r ∷ rs) =
      elim (handshake_read session app_buf pre_auth_upload r) [
        | err e ↦ err e
        | ok closed ↦ ok closed
        | ok (pending session' app_buf' n) ↦ handshake session' app_buf' n rs
        | ok (complete target initial session' n) ↦ ok (complete target initial session' n)
      ]

-- What the rest of the session keeps: the user, the counter, the policy, and the IP set whose slot
-- the guard holds.
pub record Admitted : Type 0 where
  pub user_id : ℕ
  pub counter : ℕ
  pub policy : Option UserPolicy
  pub guarded : Option ℕ

-- The set behind a reference.
unfoldable pub ip_set : List UserIpSet → ℕ → UserIpSet
ip_set sets ref = get_or sets ref []

-- The drop of the guard.
unfoldable pub release_guard : World → Option ℕ → List ℕ → World
unfolding ip_set
release_guard w none ip = w
release_guard w (some ref) ip = record w {
  conns = record w.conns { sets = set w.conns.sets ref (release (ip_set w.conns.sets ref) ip) };
}

-- The `match (&policy, context.enforcement.conn_limit)`; a refusal is `ok none`.
unfoldable pub acquire_guard :
    StreamContext → World → ℕ → Option UserPolicy → World × Result (Option (Option ℕ))
unfolding ip_set
acquire_guard context w user_id none = (w, ok (some none))
acquire_guard context w user_id (some policy) =
    if context.enforcement.conn_limit_on && ltb 0 policy.conn_limit
    then elim (Table.get user_id context.tables.conns_by_user) [
      | none ↦ (w, err Error.no_ip_set)
      | some ref ↦ elim (acquire (ip_set w.conns.sets ref) context.peer_ip policy.conn_limit) [
        | none ↦ (w, ok none)
        | some ips ↦ (
          record w { conns = record w.conns { sets = set w.conns.sets ref ips } },
          ok (some (some ref)),
        )
      ]
    ]
    else (w, ok (some none))

-- `counters_by_user.get(&user_id)`, or that of the listener's user.
unfoldable pub counter_of : UserTables → ℕ → ℕ → Option ℕ
counter_of tables user_id fallback = elim (Table.get user_id tables.counters_by_user) [
  | some ref ↦ some ref
  | none ↦ Table.get fallback tables.counters_by_user
]

-- From `auditor.report_connect()` on: the scan of the initial payload.
unfoldable pub audit_initial :
    StreamContext → World → Admitted → List ℕ → World × Result (Option Admitted)
unfolding release_guard
audit_initial context w a initial =
    let channel = report_connect w.channel a.user_id context.peer_ip context.peer in
    let auditor = Audit.new a.user_id context.peer_ip context.peer in
    let (_, channel', hit) = scan auditor context.rules channel initial in
    let w' = record w { channel = channel' } in
    if hit && context.enforcement.audit_block
    then (release_guard w' a.guarded context.peer_ip, err Error.audit_blocked)
    else (w', ok (some a))

-- From the end of the handshake to the audit of the initial payload.
unfoldable pub admit :
    StreamContext → World → ServerSession → List ℕ → ℕ → World × Result (Option Admitted)
unfolding counter_of acquire_guard audit_initial
admit context w session initial pre_auth_upload =
    let user_id = unwrap_or (Session.user_id session) context.fallback_user_id in
    elim (counter_of context.tables user_id context.fallback_user_id) [
      | none ↦ (w, err Error.no_counter)
      | some counter ↦
          let w1 = record w { traffic = record_upload w.traffic counter pre_auth_upload } in
          let policy = Table.get user_id context.tables.policies in
          let (w2, guarded) = acquire_guard context w1 user_id policy in
          elim guarded [
            | err e ↦ (w2, err e)
            | ok none ↦ (w2, ok none)
            | ok (some held) ↦
                audit_initial context w2
                  (record { user_id = user_id; counter = counter; policy = policy; guarded = held })
                  initial
          ]
    ]

-- The loop over the allowed addresses; `connect` is the socket's.
unfoldable pub connect_first {ℓ} :
    {S : Type ℓ} → (SocketAddr → Result S) → Error → List SocketAddr → Result S
connect_first connect last_err [] = err last_err
connect_first connect last_err (addr ∷ addrs) = elim (connect addr) [
  | ok stream ↦ ok stream
  | err e ↦ connect_first connect e addrs
]

-- `connect_host`, `connect` and `lookup_host` are tokio's.
unfoldable pub connect_target_checked {ℓ} :
    {S : Type ℓ}
    → (List ℕ → ℕ → Result S)
    → (SocketAddr → Result S)
    → (List ℕ → ℕ → Result (List SocketAddr))
    → Address
    → Option UserPolicy
    → EnforcementConfig
    → Result S
unfolding connect_first
connect_target_checked connect_host connect lookup_host target policy enforcement =
    let (host, port) = connect_target target in
    if port_blocked enforcement policy port
    then err Error.port_is_forbidden
    else if not (ip_check enforcement policy)
    then connect_host host port
    else elim policy [
      | none ↦ err Error.panicked
      | some p ↦ lookup_host host port >>= λ resolved.
          if is_empty resolved
          then err Error.not_resolved
          else if is_empty (allowed_only p resolved)
          then err Error.only_forbidden
          else connect_first connect Error.panicked (allowed_only p resolved)
    ]
