-- ===== src/Tests/Node.antt =====
-- The theorems on the node's state, its policies and its reports at concrete inputs.
use sspanel_ssr_rust_backend.Base.{
  ℕ, ◌+◌, ◌-◌, ◌/◌, ◌^◌, ◌≤◌, ◌<◌, ◌≡◌, ◌↔◌, ◌⊎◌, refl, true, false, ◌&&◌, not, none, some, List,
  [], ◌∷◌, length, max, nat_eq, bytes_key, ok, arith,
}
use sspanel_ssr_rust_backend.Base.Int.{pos}
use sspanel_ssr_rust_backend.Base.Table
use sspanel_ssr_rust_backend.Base.Table.{Table, IsMap}
use sspanel_ssr_rust_backend.Text.{trim, trim_from, trim_end, space_len, is_empty}
use sspanel_ssr_rust_backend.Net.{v4, v6, to_ipv6_mapped}
use sspanel_ssr_rust_backend.State
use sspanel_ssr_rust_backend.State.{
  BoundedTtlMap, Entry, evict_oldest, evict_expired, insert, is_live,
}
use sspanel_ssr_rust_backend.State.Bounded
use sspanel_ssr_rust_backend.State.Bounded.{Call, run-new-IsBounded}
use sspanel_ssr_rust_backend.State.Lookup.{NoneBefore, get-evict_expired, evict_oldest_least}
use sspanel_ssr_rust_backend.Traffic.{
  TrafficLedger, acquire, snapshot, checkpoint_of, pending_deltas, mark_reported,
}
use sspanel_ssr_rust_backend.Traffic.Guards
use sspanel_ssr_rust_backend.Traffic.Guards.{
  Event, connect, disconnect, idle, live_from, refcount, run-idle_counted, acquire_refused_iff,
}
use sspanel_ssr_rust_backend.Traffic.Ledger.{
  up, uploaded, downloaded, counted, counted_one, pending, reported, count_all,
}
use sspanel_ssr_rust_backend.Traffic.Reports.{mark_reported-pending_deltas}
use sspanel_ssr_rust_backend.Supervisor.Reports
use sspanel_ssr_rust_backend.Supervisor.Reports.{Round, IsTracked, taken, counted_rounds, taken-run}
use sspanel_ssr_rust_backend.Panel.{PanelUser}
use sspanel_ssr_rust_backend.Supervisor.{merge_carrier_users}
use sspanel_ssr_rust_backend.Supervisor.Carriers.{first_row, rows_of, first_row-merge_carrier_users}
use sspanel_ssr_rust_backend.Policy.{Cidr, v4_in, v6_in, contains, any}
use sspanel_ssr_rust_backend.Policy.Laws.{v4_in_iff, v6_in_iff, contains_mapped}
use sspanel_ssr_rust_backend.Audit.{RelayEvent, CompiledRule, ConnectionAuditor, scan, scan_payload}
use sspanel_ssr_rust_backend.Audit
use sspanel_ssr_rust_backend.Audit.Dedup.{
  reports, scan_all, scan-any, scan_payload-scan, reports-scan_all_once,
}
use sspanel_ssr_rust_backend.Config.{Config, default_panel, default_node, default_limits}
use sspanel_ssr_rust_backend.Config.Validate.{validate, IsComplete, node_profile, validate_iff}
use sspanel_ssr_rust_backend.Ssr.Profile.{Profile}

abbrev calls : List (Call ℕ ℕ)
calls = Call.insert_at 1 10 0 ∷ Call.insert_at 2 20 1 ∷ Call.insert_at 3 30 2 ∷ []

run-new-IsBounded_example :
    (length (Bounded.run (State.new {V = ℕ} 60 2) calls).entries ≤ max 2 1)
    × IsMap (Bounded.run (State.new {V = ℕ} 60 2) calls).entries
run-new-IsBounded_example = run-new-IsBounded 60 2 calls

abbrev two_entries : BoundedTtlMap ℕ ℕ
two_entries = record {
  ttl = 60;
  capacity = 2;
  entries =
      (1, record { value = 10; last_seen = 5 }) ∷ (2, record { value = 20; last_seen = 3 }) ∷ [];
}

two_entries-IsMap : IsMap two_entries.entries
unfolding Table.contains
two_entries-IsMap = (refl, (refl, tt))

evict_oldest_least_example :
    (k : ℕ) × (entry : Entry ℕ) × (Table.get k two_entries.entries ≡ some entry)
    × NoneBefore entry.last_seen two_entries.entries
    × ((evict_oldest two_entries).entries ≡ Table.remove k two_entries.entries)
evict_oldest_least_example = evict_oldest_least two_entries two_entries-IsMap (omega arith)

get-evict_expired_example :
    (Table.get 2 (evict_expired two_entries 62).entries
      ≡ some (record { value = 20; last_seen = 3 }))
    ↔ ((Table.get 2 two_entries.entries ≡ some (record { value = 20; last_seen = 3 }))
        × (62 < 3 + 60)
        × (0 < 60))
get-evict_expired_example =
    get-evict_expired 2 two_entries 62 (record { value = 20; last_seen = 3 }) two_entries-IsMap

abbrev phone : List ℕ
phone = b'1' ∷ []

abbrev laptop : List ℕ
laptop = b'2' ∷ []

abbrev one : ℕ
one = 1

abbrev used : Table (List ℕ) ℕ
used = (phone, 2) ∷ []

abbrev events : List Event
events = connect phone ∷ connect phone ∷ connect laptop ∷ disconnect phone ∷ []

run-idle_counted_example :
    IsMap (Guards.run 1 idle events).ips
    × (Table.get phone (Guards.run 1 idle events).ips
        ≡ refcount (live_from phone (Guards.run 1 idle events).guards))
    × ((one ≡ 0) ⊎ (length (Guards.run 1 idle events).ips ≤ 1))
run-idle_counted_example = run-idle_counted 1 events phone

acquire_refused_iff_example :
    (acquire used laptop 1 ≡ none) ↔ ((Table.get laptop used ≡ none) × (0 < 1) × (1 ≤ length used))
acquire_refused_iff_example = acquire_refused_iff 1 used laptop

-- A ledger with user 7, who has 100 bytes up of which 40 are reported.
abbrev ledger : TrafficLedger
ledger = record {
  cells = record { upload = 100; download = 0 } ∷ [];
  counters = (7, 0) ∷ [];
  checkpoints = (7, record { upload = 40; download = 0 }) ∷ [];
}

tracked : IsTracked up ledger 7 0
unfolding Table.contains Table.get snapshot checkpoint_of
tracked = record { distinct = (refl, tt); row = refl; inside = omega arith; behind = omega arith }

abbrev rounds : List Round
rounds =
    record { traffic = uploaded 0 5 ∷ []; accepted = false }
    ∷ record { traffic = downloaded 0 9 ∷ uploaded 0 6 ∷ []; accepted = true }
    ∷ []

fits : 100 + counted_rounds up 0 rounds < 2 ^ 64
unfolding counted_rounds counted counted_one
fits = omega arith

taken-run_example :
    taken up 7 ledger rounds + pending up (Reports.run ledger rounds) 7 0
    ≡ pending up ledger 7 0 + counted_rounds up 0 rounds
taken-run_example = taken-run up 7 0 ledger rounds tracked (unfold snapshot in fits)

ledger_facts :
    IsMap ledger.counters
    × (Table.get 7 ledger.counters ≡ some 0)
    × ((checkpoint_of ledger 7).upload ≤ (snapshot ledger.cells 0).upload)
    × ((snapshot ledger.cells 0).upload + counted up 0 (uploaded 0 5 ∷ []) < 2 ^ 64)
unfolding Table.contains Table.get snapshot checkpoint_of counted counted_one
ledger_facts = ((refl, tt), refl, omega arith, omega arith)

mark_reported-pending_deltas_example :
    let s1 = count_all ledger (uploaded 0 5 ∷ []) in
    (pending up (mark_reported s1 (pending_deltas s1)) 7 0 ≡ 0)
    × (reported up 7 (pending_deltas s1) ≡ pending up ledger 7 0 + counted up 0 (uploaded 0 5 ∷ []))
mark_reported-pending_deltas_example =
    mark_reported-pending_deltas up ledger (uploaded 0 5 ∷ []) 7 0 ledger_facts.0 ledger_facts.1
      (omega arith) ledger_facts.2 ledger_facts.3

abbrev row : ℕ → ℕ → PanelUser ℕ
row id port = record {
  id = id;
  user_id_field = none;
  port = port;
  password = [];
  method = none;
  protocol = none;
  protocol_param = none;
  obfs = none;
  obfs_param = none;
  enable = none;
  is_multi_user = pos 2;
  node_speedlimit = none;
  node_connector = none;
  forbidden_ip = none;
  forbidden_port = none;
}

first_row-merge_carrier_users_example :
    (first_row 558 (merge_carrier_users (row 1 558 ∷ row 2 558 ∷ []))
      ≡ first_row 558 (row 1 558 ∷ row 2 558 ∷ []))
    × (rows_of 558 (merge_carrier_users (row 1 558 ∷ row 2 558 ∷ [])) ≤ 1)
first_row-merge_carrier_users_example =
    first_row-merge_carrier_users (row 1 558 ∷ row 2 558 ∷ []) 558

v4_in_iff_example :
    (v4_in 0x7f000000 0x7f000001 8 ≡ true) ↔ (0x7f000000 / 2 ^ (32 - 8) ≡ 0x7f000001 / 2 ^ (32 - 8))
v4_in_iff_example = v4_in_iff 0x7f000000 0x7f000001 8 (omega arith) (omega arith) (omega arith)

v6_in_iff_example : (v6_in 1 2 128 ≡ true) ↔ (1 / 2 ^ (128 - 128) ≡ 2 / 2 ^ (128 - 128))
v6_in_iff_example = v6_in_iff 1 2 128 (omega arith) (omega arith) (omega arith)

abbrev loopback : Cidr
loopback = record { base = v4 0x7f000000; prefix = 8 }

contains_mapped_example :
    contains loopback (v6 (to_ipv6_mapped 0x7f000001)) ≡ contains loopback (v4 0x7f000001)
contains_mapped_example = contains_mapped loopback 0x7f000001 (omega arith)

abbrev rules : List CompiledRule
rules = record { compiled_id = 4; is_match = λ bytes. not (is_empty bytes) } ∷ []

abbrev auditor : ConnectionAuditor
auditor = record { user_id = 7; ip = phone; peer = laptop; matched = [] }

scan-any_example :
    (scan auditor rules [] (1 ∷ [])).2
    ≡ (not (is_empty {A = ℕ} (1 ∷ [])) && any (λ r. r.is_match (1 ∷ [])) rules)
scan-any_example = scan-any auditor rules [] (1 ∷ [])

scan_payload-scan_example :
    (scan_payload rules [] 7 phone (1 ∷ [])).0 ≡ (scan auditor rules [] (1 ∷ [])).2
scan_payload-scan_example = scan_payload-scan auditor rules [] [] (1 ∷ []) phone 7

reports-scan_all_once_example :
    reports 4 (scan_all (Audit.new 7 phone laptop) [] ((rules, 1 ∷ []) ∷ (rules, 2 ∷ []) ∷ [])).1
    ≤ reports 4 [] + 1
reports-scan_all_once_example =
    reports-scan_all_once 4 7 phone laptop [] ((rules, 1 ∷ []) ∷ (rules, 2 ∷ []) ∷ [])

abbrev url : List ℕ
url = b'h' ∷ b't' ∷ b't' ∷ b'p' ∷ []

not_blank : is_empty (trim url) ≡ false
unfolding trim trim_from trim_end space_len is_empty
not_blank = refl

abbrev defaults : Config
defaults = record { panel = default_panel url url 1; node = default_node; limits = default_limits }

validate_iff_example :
    (validate defaults ≡ ok tt)
    ↔ (IsComplete defaults × ((profile : Profile) × (node_profile defaults ≡ ok profile)))
validate_iff_example = validate_iff defaults
