-- ===== src/Audit.antt =====
-- src/audit.rs: the events of the relay tasks, and the scan for the panel's detect rules.
pub mod Dedup
use sspanel_ssr_rust_backend.Base.{
  ℕ, ◌-◌, Bool, true, false, ◌&&◌, ◌||◌, not, Option, none, some, List, [], ◌∷◌, ◌++◌, length, ltb,
  if◌then◌else◌, nat_eq,
}
use sspanel_ssr_rust_backend.Text.{trim, is_empty}
use sspanel_ssr_rust_backend.Panel.{DetectRule}
use sspanel_ssr_rust_backend.Traffic.{mem}

pub data RelayEvent : Type 0 where
  connect : (user_id : ℕ) (ip peer : List ℕ) → RelayEvent
  detect : (user_id list_id : ℕ) (ip : List ℕ) → RelayEvent

abbrev pub event_channel_capacity : ℕ
event_channel_capacity = 1024

-- The bounded channel: what was sent and not received. `try_send` on a full channel drops the event.
unfoldable pub try_send : List RelayEvent → RelayEvent → List RelayEvent
try_send channel event =
    if ltb (length channel) event_channel_capacity then channel ++ (event ∷ []) else channel

-- The regex crate is a parameter: a compiled regex is its `is_match`.
pub record CompiledRule : Type 0 where
  pub compiled_id : ℕ
  pub is_match : List ℕ → Bool

unfoldable pub compile_rules :
    (List ℕ → Option (List ℕ → Bool)) → List DetectRule → List CompiledRule
compile_rules new_regex [] = []
compile_rules new_regex (rule ∷ rules) =
    let rest = compile_rules new_regex rules in
    if is_empty (trim rule.regex) then rest else elim (new_regex rule.regex) [
      | some re ↦ record { compiled_id = rule.rule_id; is_match = re } ∷ rest
      | none ↦ rest
    ]

unfoldable pub report_connect : List RelayEvent → ℕ → List ℕ → List ℕ → List RelayEvent
unfolding try_send
report_connect channel user_id ip peer = try_send channel (connect user_id ip peer)

-- The loop of `scan_payload`.
unfoldable pub scan_rules :
    List CompiledRule → List RelayEvent → ℕ → List ℕ → List ℕ → Bool → Bool × List RelayEvent
unfolding try_send
scan_rules [] channel user_id ip bytes matched = (matched, channel)
scan_rules (rule ∷ rules) channel user_id ip bytes matched =
    let hit = rule.is_match bytes in
    scan_rules rules
      (if hit then try_send channel (detect user_id rule.compiled_id ip) else channel) user_id ip
      bytes (if hit then true else matched)

unfoldable pub scan_payload :
    List CompiledRule → List RelayEvent → ℕ → List ℕ → List ℕ → Bool × List RelayEvent
unfolding scan_rules
scan_payload rules channel user_id ip bytes =
    if is_empty bytes || is_empty rules
    then (false, channel)
    else scan_rules rules channel user_id ip bytes false

-- The watch channel of the rules and the event channel are arguments of the operations.
pub record ConnectionAuditor : Type 0 where
  pub user_id : ℕ
  pub ip : List ℕ
  pub peer : List ℕ
  pub matched : List ℕ

unfoldable pub new : ℕ → List ℕ → List ℕ → ConnectionAuditor
new user_id ip peer = record { user_id = user_id; ip = ip; peer = peer; matched = [] }

-- The body of the loop of `scan`, for one rule.
unfoldable pub scan_one :
    CompiledRule
    → List ℕ
    → ConnectionAuditor × List RelayEvent × Bool
    → ConnectionAuditor × List RelayEvent × Bool
unfolding try_send
scan_one rule bytes (a, channel, matched_now) =
    if not (rule.is_match bytes)
    then (a, channel, matched_now)
    else if mem rule.compiled_id a.matched
    then (a, channel, true)
    else (
      record a { matched = rule.compiled_id ∷ a.matched },
      try_send channel (detect a.user_id rule.compiled_id a.ip),
      true,
    )

unfoldable pub scan_each :
    List CompiledRule
    → List ℕ
    → ConnectionAuditor × List RelayEvent × Bool
    → ConnectionAuditor × List RelayEvent × Bool
unfolding scan_one
scan_each [] bytes s = s
scan_each (rule ∷ rules) bytes s = scan_each rules bytes (scan_one rule bytes s)

unfoldable pub scan :
    ConnectionAuditor
    → List CompiledRule
    → List RelayEvent
    → List ℕ
    → ConnectionAuditor × List RelayEvent × Bool
unfolding scan_each
scan a rules channel bytes =
    if is_empty bytes
    then (a, channel, false)
    else if is_empty rules
    then (a, channel, false)
    else scan_each rules bytes (a, channel, false)
