-- ===== src/Tests/Relay.antt =====
-- The theorems on the relays at concrete inputs.
use sspanel_ssr_rust_backend.Base.{
  ℕ, ◌≡◌, ◌≤◌, ◌⊎◌, refl, true, false, none, some, List, [], ◌∷◌, ◌++◌, length, take, drop, slice,
  bytes_eq, max, replicate, Result, Error, ok, err, arith, if◌then◌else◌, All,
}
use mathlib.Core.Path.{subst}
use sspanel_ssr_rust_backend.Base.Int.{pos}
use sspanel_ssr_rust_backend.Base.Bytes.{u32_le_bytes, from_u32_le, from_u16_be}
use sspanel_ssr_rust_backend.Base.Table
use sspanel_ssr_rust_backend.Base.Table.{IsMap}
use sspanel_ssr_rust_backend.Net.{SocketAddr, v4}
use sspanel_ssr_rust_backend.Policy.{
  EnforcementConfig, UserPolicy, ip_forbidden, port_forbidden, has_forbidden_ip, any, in_range,
  contains, contains_by, v4_in,
}
use sspanel_ssr_rust_backend.Text.{is_empty}
use sspanel_ssr_rust_backend.Ssr.Kdf.{hmac_md5_prefix, evp_bytes_to_key, evp_loop, md5}
use sspanel_ssr_rust_backend.State
use sspanel_ssr_rust_backend.UserTables.{no_tables}
use sspanel_ssr_rust_backend.Ssr.Cipher.{
  CipherKind, StreamCipher, chacha20, process, new_stream, iv_len, key_len, apply_keystream,
}
use sspanel_ssr_rust_backend.Ssr.Protocol.{
  AuthAes128Md5, server_post_decrypt, process_buffer, read_header, open_auth, close_auth,
  select_user, rebuild_aes_key, aes_seed_key, aes_decrypt_block, read_packets, packets, read_packet,
  server_pre_encrypt, pre_encrypt_loop, data_pos, u16_le,
}
use sspanel_ssr_rust_backend.Ssr.Protocol
use sspanel_ssr_rust_backend.Ssr.Session
use sspanel_ssr_rust_backend.Ssr.Session.{ServerSession, decrypt, decode, encrypt, start}
use sspanel_ssr_rust_backend.Ssr.Session.Duplex.{IsOpen}
use sspanel_ssr_rust_backend.Ssr.Session.Buffers.{IsSmall, buffered, decrypt-IsSmall}
use sspanel_ssr_rust_backend.Relay.{World, port_blocked, ip_check, allowed_only}
use sspanel_ssr_rust_backend.Relay.Tcp.{
  StreamContext, handshake_parse, admit, acquire_guard, counter_of, audit_initial, Read, chunk,
  pending, handshake, handshake_read, connect_target_checked, connect_first,
}
use sspanel_ssr_rust_backend.Relay.Handshake.{Explains, handshake-Explains}
use sspanel_ssr_rust_backend.Relay.Pump.{
  idle_expires, Input, from_client, from_remote, Pump, continues, round, rounds, write_client,
  write_remote,
}
use sspanel_ssr_rust_backend.Relay.Transparent.{Passed, rounds-Passed}
use sspanel_ssr_rust_backend.Relay.Targets.{
  KeepsPort, IsAllowed, ip_blocked, connect_target_checked_blind,
}
use sspanel_ssr_rust_backend.Relay.Udp.{
  Os, Listener, UdpState, Sent, UdpDest, handle_inbound, listen, AssociationKey_eq,
}
use sspanel_ssr_rust_backend.Relay.Udp.Inbound.{Forwards, handle_inbound-Forwards}
use sspanel_ssr_rust_backend.Relay.Udp.Associations.{listen-bounded}
use sspanel_ssr_rust_backend.Relay.Stream.{Network, handle_stream, serve, relay, leave, after_relay}
use sspanel_ssr_rust_backend.Relay.Stream.Admission.{NoneIdle}
use sspanel_ssr_rust_backend.Relay.Stream.Restores.{handle_stream_restores}
use sspanel_ssr_rust_backend.Audit
use sspanel_ssr_rust_backend.Audit.{report_connect, try_send, scan}
use sspanel_ssr_rust_backend.Panel.{unwrap_or}
use sspanel_ssr_rust_backend.Traffic.{acquire}
use sspanel_ssr_rust_backend.Ssr.Address.{parse, atyp, parse_ipv4, connect_target}
use sspanel_ssr_rust_backend.Tests.Toy.{toy}

abbrev layer : AuthAes128Md5
layer = record {
  master_key = 1 ∷ 2 ∷ [];
  user_key = 3 ∷ 4 ∷ [];
  users = [];
  is_multi_user = pos 0;
  user_id = none;
  aes_key = [];
  recv_iv = 5 ∷ [];
  recv_buf = [];
  has_recv_header = true;
  recv_id = 7;
  pack_id = 7;
}

abbrev cipher : StreamCipher
cipher = chacha20 [] [] 0

abbrev session : ServerSession
session = record {
  cipher = CipherKind.chacha20_ietf;
  master_key = replicate 32 1;
  recv_iv_buf = [];
  decryptor = some cipher;
  protocol = some layer;
  users = [];
  is_multi_user = pos 0;
  send_iv = replicate 12 2;
  encryptor = cipher;
  send_iv_emitted = true;
}

session-IsOpen : IsOpen session
session-IsOpen = record {
  stream = cipher;
  layer = layer;
  has_stream = refl;
  has_layer = refl;
  opened = refl;
}

abbrev pump : Pump
pump = record {
  session = session;
  traffic = record {
    cells = record { upload = 0; download = 0 } ∷ [];
    counters = [];
    checkpoints = [];
  };
  to_remote = [];
  to_client = [];
}

-- A packet of the client in two pieces, with two bytes of the target in between.
abbrev inputs : List Input
inputs =
    from_client (chunk (11 ∷ 1 ∷ 10 ∷ [])) (ok tt)
    ∷ from_remote (chunk (8 ∷ 9 ∷ [])) (ok tt)
    ∷ from_client (chunk (11 ∷ 5 ∷ 13 ∷ 15 ∷ 10 ∷ 5 ∷ 4 ∷ 7 ∷ [])) (ok tt)
    ∷ []

goes_on : (rounds 0 pump inputs).1 ≡ continues
unfolding rounds round write_client write_remote decrypt decode encrypt process apply_keystream
    server_post_decrypt process_buffer read_packets packets read_packet is_empty hmac_md5_prefix
    data_pos u16_le take server_pre_encrypt pre_encrypt_loop bytes_eq slice drop u32_le_bytes
goes_on = refl

passed_on : (rounds 0 pump inputs).0.to_remote ≡ 8 ∷ 9 ∷ []
unfolding rounds round write_client write_remote decrypt decode encrypt process apply_keystream
    server_post_decrypt process_buffer read_packets packets read_packet is_empty hmac_md5_prefix
    data_pos u16_le take server_pre_encrypt pre_encrypt_loop bytes_eq slice drop u32_le_bytes
passed_on = refl

rounds-Passed_example : Passed 0 pump (rounds 0 pump inputs).0 inputs
rounds-Passed_example = rounds-Passed 0 pump inputs session-IsOpen goes_on

-- The IV in two pieces, one byte short.
abbrev reads : List Read
reads = chunk (replicate 7 3) ∷ chunk (replicate 4 4) ∷ []

abbrev master_key : List ℕ
master_key = replicate 16 1 ++ replicate 16 17

abbrev fresh : ServerSession
fresh = record {
  cipher = CipherKind.chacha20_ietf;
  master_key = master_key;
  recv_iv_buf = [];
  decryptor = none;
  protocol = none;
  users = [];
  is_multi_user = pos 0;
  send_iv = replicate 12 2;
  encryptor = chacha20 master_key (replicate 12 2) 0;
  send_iv_emitted = false;
}

fresh_lem :
    Session.new (1 ∷ []) [] (pos 0) CipherKind.chacha20_ietf (λ n. some (replicate n 2)) ≡ ok fresh
unfolding Session.new new_stream iv_len key_len evp_bytes_to_key evp_loop md5 take
fresh_lem = refl

abbrev waits : ServerSession
waits = record fresh { recv_iv_buf = replicate 7 3 ++ replicate 4 4 }

after_reads : handshake fresh [] 0 reads ≡ ok (pending waits [] 11)
unfolding handshake handshake_read decrypt start iv_len is_empty
after_reads = refl

handshake-Explains_example : Explains fresh [] reads (pending waits [] 11)
handshake-Explains_example =
    handshake-Explains (1 ∷ []) [] (pos 0) CipherKind.chacha20_ietf (λ n. some (replicate n 2))
      fresh reads (pending waits [] 11) fresh_lem after_reads

fresh-IsSmall : IsSmall fresh
unfolding buffered iv_len
fresh-IsSmall = record { iv = omega arith; held = omega arith }

half_iv : decrypt fresh (replicate 7 3) ≡ ok (record fresh { recv_iv_buf = replicate 7 3 }, [])
unfolding decrypt start iv_len
half_iv = refl

decrypt-IsSmall_example : IsSmall (record fresh { recv_iv_buf = replicate 7 3 })
decrypt-IsSmall_example =
    decrypt-IsSmall fresh (record fresh { recv_iv_buf = replicate 7 3 }) (replicate 7 3) []
      fresh-IsSmall half_iv

-- A resolver that gives an address that is forbidden, and one that is not.
abbrev lookup : List ℕ → ℕ → Result (List SocketAddr)
lookup host port =
    ok
      (record { ip = v4 0x0a000001; port = port } ∷ record { ip = v4 0x01020304; port = port } ∷ [])

lookup-KeepsPort : KeepsPort lookup
unfolding KeepsPort
lookup-KeepsPort host port addrs q =
    let two : List SocketAddr =
      record { ip = v4 0x0a000001; port = port }
      ∷ record { ip = v4 0x01020304; port = port }
      ∷ [] in
    let same : two ≡ addrs = cc in subst (All (λ a. a.port ≡ port)) same (refl, (refl, tt))

abbrev private_only : UserPolicy
private_only = record {
  speed_limit_bps = 0;
  conn_limit = 0;
  forbidden_ips = record { base = v4 0x0a000000; prefix = 8 } ∷ [];
  forbidden_ports = record { start = 25; end = 25 } ∷ [];
}

abbrev all_on : EnforcementConfig
all_on = record { forbidden = true; conn_limit_on = true; audit_block = true; speed = true }

-- Two networks that differ at the forbidden addresses.
abbrev connects : SocketAddr → Result ℕ
connects a = ok 1

abbrev guarded_connects : SocketAddr → Result ℕ
guarded_connects a = if ip_forbidden private_only a.ip then ok 2 else ok 1

agree : (a : SocketAddr) → IsAllowed all_on (some private_only) a → connects a ≡ guarded_connects a
unfolding IsAllowed ip_blocked
agree a h = ground arith

abbrev any_host : List ℕ → ℕ → Result ℕ
any_host host port = ok 3

connect_target_checked_blind_example :
    connect_target_checked any_host connects lookup
      (record { host = b'a' ∷ []; port = 443 })
      (some private_only)
      all_on
    ≡ connect_target_checked any_host guarded_connects lookup
        (record { host = b'a' ∷ []; port = 443 })
        (some private_only)
        all_on
connect_target_checked_blind_example =
    connect_target_checked_blind any_host any_host connects guarded_connects lookup
      (record { host = b'a' ∷ []; port = 443 }) (some private_only) all_on lookup-KeepsPort agree
      (λ host port h. refl)

abbrev os : Os
os = record { now = 5; lookup_host = lookup; bind = ok 9; send_to = ok tt }

-- One user, with uid 5 and the policy above.
abbrev listener : Listener
listener = record {
  user_id = 1;
  master_key = replicate 32 1;
  tables = record no_tables {
    auth_users = (5, 6 ∷ 7 ∷ []) ∷ [];
    counters_by_user = (5, 0) ∷ [];
    policies = (5, private_only) ∷ [];
  };
  enforcement = all_on;
  is_multi_user = pos 0;
  cipher_kind = CipherKind.chacha20_ietf;
  rules = [];
}

abbrev world : World
world = record {
  traffic = record {
    cells = record { upload = 0; download = 0 } ∷ [];
    counters = [];
    checkpoints = [];
  };
  conns = record { sets = []; state = [] };
  channel = [];
}

abbrev idle : UdpState
idle = record { world = world; associations = State.new 60 2; sent = [] }

abbrev peer : SocketAddr
peer = record { ip = v4 0x05060708; port = 4000 }

-- To port 443 of 1.2.3.4, with the payload 9, for user 5.
abbrev datagram : List ℕ
datagram =
    replicate 12 2
    ++ (process (chacha20 (replicate 32 1) (replicate 12 2) 0)
        (1 ∷ 1 ∷ 2 ∷ 3 ∷ 4 ∷ 1 ∷ 187 ∷ 9 ∷ 5 ∷ 0 ∷ 0 ∷ 0 ∷ 14 ∷ 14 ∷ 14 ∷ 14 ∷ [])).1

handle_inbound-Forwards_example :
    ((handle_inbound os listener idle peer datagram).0.sent ≡ [])
    ⊎ ((d : Sent UdpDest) × ((handle_inbound os listener idle peer datagram).0.sent
          ≡ [] ++ (d ∷ []))
        × Forwards listener datagram d)
handle_inbound-Forwards_example =
    handle_inbound-Forwards os listener idle peer datagram lookup-KeepsPort

listen-bounded_example :
    (length (listen listener idle ((os, listener.tables, peer, datagram) ∷ [])).associations.entries
      ≤ max 2 1)
    × IsMap (listen listener idle ((os, listener.tables, peer, datagram) ∷ [])).associations.entries
listen-bounded_example =
    listen-bounded listener world 60 2 ((os, listener.tables, peer, datagram) ∷ [])

abbrev context : StreamContext
context = record {
  password = 1 ∷ [];
  fallback_user_id = 5;
  tables = record no_tables {
    counters_by_user = (5, 0) ∷ [];
    conns_by_user = (5, 0) ∷ [];
    policies = (5, record private_only { conn_limit = 1 }) ∷ [];
  };
  enforcement = all_on;
  is_multi_user = pos 0;
  cipher_kind = CipherKind.chacha20_ietf;
  rules = [];
  peer_ip = b'a' ∷ [];
  peer = b'b' ∷ [];
}

abbrev vacant : World
vacant = record world { conns = record { sets = [] ∷ []; state = (5, 0) ∷ [] } }

abbrev network : Network
network = record {
  stream = ℕ;
  getrandom = λ n. some (replicate n 2);
  connect_host = any_host;
  connect = connects;
  lookup_host = lookup;
  initial_written = ok tt;
}

-- The IV, and an auth header around the address header of 1.2.3.4:443 and the payload 9.
abbrev hello : List Read
hello =
    chunk (replicate 12 2)
    ∷ chunk (
        17 ∷ 44 ∷ 47 ∷ 46 ∷ 41 ∷ 40 ∷ 43 ∷ 7 ∷ 8 ∷ 9 ∷ 10 ∷ 11 ∷ 12 ∷ 13 ∷ 14 ∷ 15 ∷ 16 ∷ 17 ∷ 18
        ∷ 19 ∷ 20 ∷ 21 ∷ 22 ∷ 60 ∷ 24 ∷ 25 ∷ 26 ∷ 91 ∷ 92 ∷ 93 ∷ 94 ∷ 30 ∷ 33 ∷ 35 ∷ 33 ∷ 39 ∷ 37
        ∷ 158 ∷ 47 ∷ 96 ∷ 111 ∷ 110 ∷ 109 ∷ [])
    ∷ []

vacant-NoneIdle : NoneIdle vacant.conns.sets context.peer_ip
unfolding NoneIdle Table.get
vacant-NoneIdle = (λ e. cc, tt)

times_out :
    (handle_stream context vacant network hello (idle_expires ∷ [])).1
    ≡ some (err Error.idle_timeout)
unfolding handle_stream Session.new new_stream iv_len key_len evp_bytes_to_key evp_loop md5 take
    handshake handshake_read handshake_parse decrypt start decode process apply_keystream
    server_post_decrypt process_buffer read_header open_auth close_auth select_user Protocol.new
    rebuild_aes_key aes_seed_key aes_decrypt_block is_empty hmac_md5_prefix u16_le bytes_eq slice
    drop from_u32_le Table.get serve relay admit acquire_guard counter_of audit_initial leave
    after_relay rounds round write_remote connect_target_checked read_packets packets read_packet
    parse atyp parse_ipv4 from_u16_be Session.user_id unwrap_or report_connect try_send scan
    connect_target port_blocked ip_check port_forbidden has_forbidden_ip any in_range allowed_only
    ip_forbidden contains contains_by v4_in connect_first acquire Audit.new
times_out = refl

handle_stream_restores_example :
    (handle_stream context vacant network hello (idle_expires ∷ [])).0.conns ≡ vacant.conns
handle_stream_restores_example =
    handle_stream_restores context vacant network hello (idle_expires ∷ []) (err Error.idle_timeout)
      vacant-NoneIdle times_out
