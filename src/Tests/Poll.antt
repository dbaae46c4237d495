-- ===== src/Tests/Poll.antt =====
-- The theorems on a poll of the panel at concrete inputs.
use sspanel_ssr_rust_backend.Base.{
  inr, ℕ, ◌+◌, ◌-◌, ◌*◌, ◌/◌, ◌^◌, ◌≡◌, ◌≤◌, ◌<◌, refl, Option, none, some, List, [], ◌∷◌, length,
  max, min, ltb, leb, Error, ok, err, arith, All, nat_eq,
}
use sspanel_ssr_rust_backend.Base.Int.{pos}
use sspanel_ssr_rust_backend.Base.Table
use sspanel_ssr_rust_backend.Base.Table.{IsMap}
use sspanel_ssr_rust_backend.Net.{IpAddr, v4}
use sspanel_ssr_rust_backend.Float.{F64}
use sspanel_ssr_rust_backend.Config.{
  Config, default_panel, default_node, default_limits, auth_aes128_md5_name, plain_name,
}
use sspanel_ssr_rust_backend.Panel.{PanelUser}
use sspanel_ssr_rust_backend.Policy.Parse
use sspanel_ssr_rust_backend.Policy.Ranges.{IsBlock, IsRange, from_user-bounded}
use sspanel_ssr_rust_backend.State
use sspanel_ssr_rust_backend.UserTables.{no_tables}
use sspanel_ssr_rust_backend.Ssr.Cipher.{rc4_md5_name}
use sspanel_ssr_rust_backend.Ssr.Profile.{Profile}
use sspanel_ssr_rust_backend.Supervisor.Carriers.{rows_of}
use sspanel_ssr_rust_backend.Supervisor.Sync.{
  ActiveUser, BackendRuntime, spawn, fingerprint_of, enforcement_of, sync_users,
}
use sspanel_ssr_rust_backend.Supervisor.Sync.Wanted.{wanted}
use sspanel_ssr_rust_backend.Supervisor.Sync.Serving.{IsListening, AllServing}
use sspanel_ssr_rust_backend.Supervisor.Sync.Listening.{listening}
use sspanel_ssr_rust_backend.Supervisor.Sync.Ports.{sync_users_ports}
use sspanel_ssr_rust_backend.Supervisor.Sync.Alike.{
  SameListener, AllSame, HasDistinctPorts, KeepListeners,
}
use sspanel_ssr_rust_backend.Supervisor.Sync.Restarts.{sync_users_kept, sync_users_fails}
use sspanel_ssr_rust_backend.Supervisor.Sync.Collect.{last_policy, last_key, is_listed, HasLedgers}
use sspanel_ssr_rust_backend.Supervisor.Sync.Tables.{sync_users_tables}
use sspanel_ssr_rust_backend.Tests.Toy.{toy}

-- Numbers without a fraction.
instance abbrev numbers : F64 ℕ
numbers = record {
  of_u64 = λ n. n;
  to_u64 = λ n. n;
  add = λ a b. a + b;
  sub = λ a b. a - b;
  mul = λ a b. a * b;
  div = λ a b. a / b;
  fmax = max;
  fmin = min;
  abs = λ a. a;
  le = leb;
  lt = ltb;
  epsilon = 1;
  secs = λ n. n;
  nanos = λ n. n;
}

abbrev parse_ip : List ℕ → Option IpAddr
parse_ip text = some (v4 0x0a000000)

-- "10.0.0.0/8" and "25-20,443".
abbrev row : PanelUser ℕ
row = record {
  id = 5;
  user_id_field = none;
  port = 558;
  password = b'p' ∷ [];
  method = some rc4_md5_name;
  protocol = some auth_aes128_md5_name;
  protocol_param = none;
  obfs = some plain_name;
  obfs_param = none;
  enable = none;
  is_multi_user = pos 0;
  node_speedlimit = some 8;
  node_connector = some (pos 2);
  forbidden_ip = some (b'1' ∷ b'0' ∷ b'.' ∷ b'0' ∷ b'.' ∷ b'0' ∷ b'.' ∷ b'0' ∷ b'/' ∷ b'8' ∷ []);
  forbidden_port = some (b'2' ∷ b'5' ∷ b'-' ∷ b'2' ∷ b'0' ∷ b',' ∷ b'4' ∷ b'4' ∷ b'3' ∷ []);
}

from_user-bounded_example :
    All IsBlock (Parse.from_user parse_ip row).forbidden_ips
    × All IsRange (Parse.from_user parse_ip row).forbidden_ports
    × ((Parse.from_user parse_ip row).conn_limit < 2 ^ 32)
from_user-bounded_example = from_user-bounded parse_ip row

abbrev config : Config
config = record { panel = default_panel [] [] 0; node = default_node; limits = default_limits }

-- Nothing runs yet.
abbrev started : BackendRuntime ℕ
started = record {
  traffic = record { cells = []; counters = []; checkpoints = [] };
  conns = record { sets = []; state = [] };
  speeds = record { limiters = []; state = [] };
  active_users = [];
  local_state = record {
    sessions = State.new 60 10;
    alive_ips = State.new 60 10;
    detect_logs = State.new 60 10;
  };
  user_tables = no_tables;
  stopped = [];
}

abbrev rows : List (PanelUser ℕ)
rows = row ∷ []

few : length rows ≤ config.limits.max_users
unfolding default_limits
few = omega arith

abbrev profile : Profile
profile = record {
  method = rc4_md5_name;
  protocol = auth_aes128_md5_name;
  obfs = plain_name;
  timeout_secs = 300;
}

-- A listener runs on a port that no row has any more.
abbrev stale : ActiveUser
stale = spawn config.node (record row { port = 600 }) profile

abbrev running : BackendRuntime ℕ
running = record started { active_users = (600, stale) ∷ [] }

running-IsMap : IsMap running.active_users
unfolding Table.contains
running-IsMap = (refl, tt)

serving : AllServing config.node running.active_users
unfolding spawn fingerprint_of IsListening enforcement_of default_node
serving = (
  (
    refl,
    (_, refl, refl, refl, refl, refl, refl, refl),
    (_, refl, refl, refl, refl, refl, refl, refl),
  ),
  tt,
)

sync_users_ports_example :
    let (rt', result) = sync_users config parse_ip 7 (ok rows) running in
    (result ≡ ok tt)
    × (listening 558 rt'.active_users ≡ wanted config.node rows 558)
    × IsMap rt'.active_users
    × AllServing config.node rt'.active_users
sync_users_ports_example =
    sync_users_ports config parse_ip 7 rows running 558 running-IsMap serving few

refused : (sync_users config parse_ip 7 (err Error.panel_ret) started).1 ≡ err Error.panel_ret
unfolding sync_users
refused = refl

sync_users_fails_example : (sync_users config parse_ip 7 (err Error.panel_ret) started).0 ≡ started
sync_users_fails_example =
    sync_users_fails config parse_ip 7 (err Error.panel_ret) started Error.panel_ret refused

-- A user that has left the panel is still in the ledger of traffic.
abbrev counted : BackendRuntime ℕ
counted = record running {
  traffic = record {
    cells = record { upload = 1; download = 2 } ∷ [];
    counters = (9, 0) ∷ [];
    checkpoints = (9, record { upload = 0; download = 0 }) ∷ [];
  };
}

counted-IsMap : IsMap counted.traffic.counters
unfolding Table.contains
counted-IsMap = (refl, tt)

sync_users_tables_example :
    let rt' = (sync_users config parse_ip 7 (ok rows) counted).0 in
    let tables = rt'.user_tables in
    (Table.get 5 tables.policies ≡ last_policy parse_ip 5 rows)
    × (Table.get 5 tables.auth_users ≡ last_key 5 rows)
    × HasLedgers tables 5 (is_listed 5 rows)
    × (Table.get 5 tables.counters_by_user ≡ Table.get 5 rt'.traffic.counters)
    × (Table.get 5 tables.conns_by_user ≡ Table.get 5 rt'.conns.state)
    × (Table.get 5 tables.speeds_by_user ≡ Table.get 5 rt'.speeds.state)
sync_users_tables_example =
    sync_users_tables config parse_ip 7 rows counted 5 few counted-IsMap tt tt

-- The same user with no cap, no limit and no forbidden blocks.
abbrev rows_later : List (PanelUser ℕ)
rows_later = record row { node_speedlimit = none; node_connector = none; forbidden_ip = none } ∷ []

few_later : length rows_later ≤ config.limits.max_users
unfolding default_limits
few_later = omega arith

keep : KeepListeners rows rows_later
unfolding AllSame SameListener HasDistinctPorts rows_of
keep = inr (((refl, refl, refl, refl, refl, refl), tt), (refl, tt))

abbrev after : BackendRuntime ℕ
after = (sync_users config parse_ip 7 (ok rows) running).0

sync_users_kept_example :
    let second = (sync_users config parse_ip 67 (ok rows_later) after).0 in
    (second.active_users ≡ after.active_users) × (second.stopped ≡ after.stopped)
sync_users_kept_example =
    sync_users_kept config parse_ip 7 67 rows rows_later running after running-IsMap few few_later
      keep refl
