-- ===== src/Lib.antt =====
-- A verification library for the SSR node backend.
--
-- The program is a node of an SSPanel service: it polls the panel for its users, listens on their
-- ports, decodes the SSR protocol of their clients, relays to the targets, and reports traffic,
-- online IPs and audit hits. Its parts and their modules:
--
--   Ssr       src/ssr: the data-plane codec. Ssr.Protocol is the `auth_aes128_md5` layer of
--             src/ssr/protocol.rs, with one function for each method, and for each stage of
--             `server_post_decrypt` (`read_header`, `read_packets`). Ssr.Kdf, Ssr.Rc4, Ssr.Cipher
--             and Ssr.Address are kdf.rs, rc4.rs, cipher.rs and address.rs; Ssr.Session, Ssr.Udp and
--             Ssr.Profile are the three parts of src/ssr/mod.rs. A session passes the bytes of a
--             connection through the cipher to the protocol layer; a datagram does so in one go.
--   State     src/runtime/state.rs: the map that bounds the supervisor's memory.
--   Traffic   src/traffic.rs: the traffic ledger with its checkpoints, the sets of client IPs, and
--             in Traffic.Speed the token buckets of the speed caps.
--             An `Arc` that outlives its ledger's entry is an index into a store.
--   Policy    src/policy.rs: blocks of addresses, port ranges and a user's controls; Policy.Parse
--             makes them from a row of the panel.
--   Audit     src/audit.rs: the compiled rules, the two scans and the bounded event channel.
--   Panel     src/panel.rs: the rows of the panel and the envelope of its answers.
--   Config    src/config.rs: the settings, their defaults and `validate`.
--   UserTables src/user_tables.rs: the snapshot of the per-user tables that the listeners read.
--   Relay     src/tcp.rs and src/udp.rs. Relay.Tcp is `handle_stream` up to the connection:
--             `handshake`, `admit` and `connect_target_checked`; Relay.Pump is its relay loop, over
--             what each `select!` wakes up on; Relay.Stream is the whole of `handle_stream`.
--             Relay.Udp is `run_listener`, `handle_inbound` and one turn of the response pump. What
--             sockets and the resolver answer is an argument.
--   Supervisor src/runtime/supervisor.rs: reports, audit events and the rows that open listeners;
--             Supervisor.Sync is `sync_users`, which fills the tables of the relays from the rows of
--             the panel and starts and stops listeners by their fingerprints. Its child modules
--             read the wanted listeners (Wanted), their tasks (Serving) and the tables (Collect)
--             off the rows.
--   Base, Text, Net, Float: shared types and lemmas, and the parts of std that the code uses:
--             `HashMap` as an association list with distinct keys, `trim`, IP addresses, UTF-8.
--
-- Bytes are natural numbers below 256, strings are their UTF-8 bytes, and an `Instant` or a
-- `Duration` is a number. A word wraps around where the source wraps (`% 2 ^ w`). An operation that
-- changes `self` takes the state and returns it; `anyhow::Result` is `Result`, with one error for
-- each message.
--
-- Fuel: the loop over data packets has one round more than the buffer has bytes, and each packet
-- takes 7 bytes at least; the loop that cuts the plaintext has one round more than the plaintext has
-- bytes; the key derivation has a round for each byte of the key, and each round adds a digest.
--
-- Third-party code is a parameter: the record Ssr.Crypto holds MD5, HMAC-MD5, AES-128, base64 and
-- ChaCha20, and CryptoSizes their documented sizes; the regex crate, the JSON decoding and the
-- requests to the panel are arguments of the operations that use them. Random bytes are an argument.
--
-- `f64` is the parameter record Float.F64 of the operations that the code calls.
--
-- Not modelled: sockets, tasks, time-outs and the waits of the rate limiter inside the relays; the
-- accept loop of src/tcp.rs; the HTTP requests of src/panel.rs; the reading of the configuration
-- file; the signals and the select loop of the supervisor; traffic that is counted while a report
-- is awaited; the end of a ChaCha20 stream after 2 ^ 38 bytes, where the crate panics; src/main.rs;
-- the scripts.
pub mod Base
pub mod Text
pub mod Net
pub mod Float
pub mod Config
pub mod Panel
pub mod Ssr
pub mod State
pub mod Traffic
pub mod Policy
pub mod Audit
pub mod UserTables
pub mod Relay
pub mod Supervisor
mod Tests
