-- ===== src/Audit/Dedup.antt =====
-- src/audit.rs: what a scan says of its chunk, and how often a connection reports a rule.
use sspanel_ssr_rust_backend.Base.{
  ℕ, ◌+◌, ◌≤◌, ◌≡◌, refl, sym, ◌∙◌, Bool, true, false, ◌&&◌, ◌||◌, not, List, [], ◌∷◌, ◌++◌, length,
  ltb, ◌==◌, if◌then◌else◌, arith, Bool-cases, inl, inr,
}
use sspanel_ssr_rust_backend.Text.{is_empty}
use sspanel_ssr_rust_backend.Policy.{any}
use sspanel_ssr_rust_backend.Traffic.{mem}
use sspanel_ssr_rust_backend.Audit.{
  RelayEvent, connect, detect, try_send, CompiledRule, ConnectionAuditor, new, scan_one, scan_each,
  scan, scan_rules, scan_payload,
}

scan_one-matched :
    (rule : CompiledRule) (bytes : List ℕ) (a : ConnectionAuditor) (channel : List RelayEvent)
    (m : Bool)
    → (scan_one rule bytes (a, channel, m)).2 ≡ (m || rule.is_match bytes)
unfolding scan_one
scan_one-matched rule bytes a channel m = ground arith

scan_each-matched :
    (rules : List CompiledRule) (bytes : List ℕ) (a : ConnectionAuditor) (channel : List RelayEvent)
    (m : Bool)
    → (scan_each rules bytes (a, channel, m)).2 ≡ (m || any (λ r. r.is_match bytes) rules)
unfolding scan_each any
scan_each-matched [] bytes a channel m = ground arith
scan_each-matched (rule ∷ rules) bytes a channel m =
    let (a', channel', m') = scan_one rule bytes (a, channel, m) in
    ground
      (arith, scan_one-matched rule bytes a channel m, scan_each-matched rules bytes a' channel' m')

-- `scan` reports a hit exactly if some rule of the current set matches the chunk, whether or not it
-- was reported before on this connection; an empty chunk is never a hit.
pub scan-any :
    (a : ConnectionAuditor) (rules : List CompiledRule) (channel : List RelayEvent) (bytes : List ℕ)
    → (scan a rules channel bytes).2 ≡ (not (is_empty bytes) && any (λ r. r.is_match bytes) rules)
unfolding scan is_empty any
scan-any a rules channel [] = refl
scan-any a [] channel (b ∷ bs) = refl
scan-any a (rule ∷ rules) channel (b ∷ bs) =
    scan_each-matched (rule ∷ rules) (b ∷ bs) a channel false

scan_rules-matched :
    (rules : List CompiledRule) (channel : List RelayEvent) (user_id : ℕ) (ip bytes : List ℕ)
    (m : Bool)
    → (scan_rules rules channel user_id ip bytes m).0 ≡ (m || any (λ r. r.is_match bytes) rules)
unfolding scan_rules any
scan_rules-matched [] channel user_id ip bytes m = ground arith
scan_rules-matched (rule ∷ rules) channel user_id ip bytes m =
    let channel' =
      if rule.is_match bytes
      then try_send channel (detect user_id rule.compiled_id ip)
      else channel in
    let m' = if rule.is_match bytes then true else m in
    ground (arith, scan_rules-matched rules channel' user_id ip bytes m')

scan_payload-any :
    (rules : List CompiledRule) (channel : List RelayEvent) (user_id : ℕ) (ip bytes : List ℕ)
    → (scan_payload rules channel user_id ip bytes).0
      ≡ (not (is_empty bytes) && any (λ r. r.is_match bytes) rules)
unfolding scan_payload is_empty any
scan_payload-any rules channel user_id ip [] = refl
scan_payload-any [] channel user_id ip (b ∷ bs) = refl
scan_payload-any (rule ∷ rules) channel user_id ip (b ∷ bs) =
    scan_rules-matched (rule ∷ rules) channel user_id ip (b ∷ bs) false

-- The scan of a datagram and the scan of a chunk by a connection give the same verdict.
pub scan_payload-scan :
    (a : ConnectionAuditor) (rules : List CompiledRule) (channel channel' : List RelayEvent)
    (bytes ip : List ℕ) (user_id : ℕ)
    → (scan_payload rules channel user_id ip bytes).0 ≡ (scan a rules channel' bytes).2
scan_payload-scan a rules channel channel' bytes ip user_id =
    scan_payload-any rules channel user_id ip bytes ∙ sym (scan-any a rules channel' bytes)

abbrev is_detect : ℕ → RelayEvent → ℕ
is_detect id (connect _ _ _) = 0
is_detect id (detect _ list_id _) = if list_id == id then 1 else 0

-- The reports of one rule in the channel.
unfoldable pub reports : ℕ → List RelayEvent → ℕ
reports id [] = 0
reports id (event ∷ events) = is_detect id event + reports id events

-- What the connection may still report of a rule.
abbrev left : ℕ → ConnectionAuditor → ℕ
left id a = if mem id a.matched then 0 else 1

reports-append :
    (id : ℕ) (xs ys : List RelayEvent) → reports id (xs ++ ys) ≡ reports id xs + reports id ys
unfolding reports
reports-append id [] ys = omega arith
reports-append id (x ∷ xs) ys = omega (arith, reports-append id xs ys)

reports_single : (id : ℕ) (event : RelayEvent) → reports id (event ∷ []) ≡ is_detect id event
unfolding reports
reports_single id event = omega arith

reports-try_send :
    (id : ℕ) (channel : List RelayEvent) (event : RelayEvent)
    → reports id (try_send channel event) ≤ reports id channel + is_detect id event
reports-try_send id channel event = elim (Bool-cases (ltb (length channel) 1024)) [
  | inl room ↦
      unfold try_send in
      rw room (omega (arith, reports-append id channel (event ∷ []), reports_single id event))
  | inr full ↦ unfold try_send in rw full (omega arith)
]

reports-scan_one :
    (id : ℕ) (rule : CompiledRule) (bytes : List ℕ) (a : ConnectionAuditor)
    (channel : List RelayEvent) (m : Bool)
    → let (a', channel', _) = scan_one rule bytes (a, channel, m) in
      reports id channel' + left id a' ≤ reports id channel + left id a
unfolding scan_one mem
reports-scan_one id rule bytes a channel m =
    ground (arith, reports-try_send id channel (detect a.user_id rule.compiled_id a.ip))

reports-scan_each :
    (id : ℕ) (rules : List CompiledRule) (bytes : List ℕ) (a : ConnectionAuditor)
    (channel : List RelayEvent) (m : Bool)
    → let (a', channel', _) = scan_each rules bytes (a, channel, m) in
      reports id channel' + left id a' ≤ reports id channel + left id a
unfolding scan_each
reports-scan_each id [] bytes a channel m = omega arith
reports-scan_each id (rule ∷ rules) bytes a channel m =
    let (a', channel', m') = scan_one rule bytes (a, channel, m) in
    omega (
      arith,
      reports-scan_one id rule bytes a channel m,
      reports-scan_each id rules bytes a' channel' m',
    )

reports-scan :
    (id : ℕ) (a : ConnectionAuditor) (rules : List CompiledRule) (channel : List RelayEvent)
    (bytes : List ℕ)
    → let (a', channel', _) = scan a rules channel bytes in
      reports id channel' + left id a' ≤ reports id channel + left id a
unfolding scan is_empty
reports-scan id a rules channel [] = omega arith
reports-scan id a [] channel (b ∷ bs) = omega arith
reports-scan id a (rule ∷ rules) channel (b ∷ bs) =
    reports-scan_each id (rule ∷ rules) (b ∷ bs) a channel false

-- The chunks of one connection, each with the rules that are current when it is scanned.
unfoldable pub scan_all :
    ConnectionAuditor
    → List RelayEvent
    → List (List CompiledRule × List ℕ)
    → ConnectionAuditor × List RelayEvent
scan_all a channel [] = (a, channel)
scan_all a channel ((rules, bytes) ∷ chunks) =
    let (a', channel', _) = scan a rules channel bytes in scan_all a' channel' chunks

reports-scan_all :
    (id : ℕ) (a : ConnectionAuditor) (channel : List RelayEvent)
    (chunks : List (List CompiledRule × List ℕ))
    → let (a', channel') = scan_all a channel chunks in
      reports id channel' + left id a' ≤ reports id channel + left id a
unfolding scan_all
reports-scan_all id a channel [] = omega arith
reports-scan_all id a channel ((rules, bytes) ∷ chunks) =
    let (a', channel', _) = scan a rules channel bytes in
    omega (arith, reports-scan id a rules channel bytes, reports-scan_all id a' channel' chunks)

-- Over its whole life a connection reports a rule at most once, however many of its chunks match it
-- and however the rule set is replaced between the chunks.
pub reports-scan_all_once :
    (id user_id : ℕ) (ip peer : List ℕ) (channel : List RelayEvent)
    (chunks : List (List CompiledRule × List ℕ))
    → reports id (scan_all (new user_id ip peer) channel chunks).1 ≤ reports id channel + 1
unfolding new mem
reports-scan_all_once id user_id ip peer channel chunks =
    omega (arith, reports-scan_all id (new user_id ip peer) channel chunks)
