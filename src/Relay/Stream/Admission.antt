-- ===== src/Relay/Stream/Admission.antt =====
-- src/tcp.rs: the IP sets across the admission of a connection.
use sspanel_ssr_rust_backend.Base.{
  ℕ, zero, suc, ◌≡◌, ◌≢◌, refl, ap, ◌∙◌, true, false, ◌&&◌, Option, none, some, List, [], ◌∷◌, set,
  get_or, All, ltb, bytes_key, nat_eq, Option-cases, Bool-cases, inl, inr, Result, Error, ok, err,
}
use sspanel_ssr_rust_backend.Base.Table
use sspanel_ssr_rust_backend.Panel.{unwrap_or}
use sspanel_ssr_rust_backend.Policy.{UserPolicy}
use sspanel_ssr_rust_backend.Traffic.{UserIpSet, acquire, record_upload}
use sspanel_ssr_rust_backend.Audit
use sspanel_ssr_rust_backend.Audit.{report_connect, scan}
use sspanel_ssr_rust_backend.Ssr.Session
use sspanel_ssr_rust_backend.Ssr.Session.{ServerSession}
use sspanel_ssr_rust_backend.Relay.{World}
use sspanel_ssr_rust_backend.Relay.Tcp.{
  StreamContext, Admitted, admit, acquire_guard, audit_initial, counter_of, ip_set, release_guard,
}
use sspanel_ssr_rust_backend.Relay.Stream.Slots.{release-acquire, set_restores}

-- No set counts an address without a connection.
unfoldable pub NoneIdle : List UserIpSet → List ℕ → Type 0
NoneIdle sets ip = All (λ ips. Table.get ip ips ≢ some 0) sets

NoneIdle-at :
    (sets : List UserIpSet) (ip : List ℕ) (ref : ℕ)
    → NoneIdle sets ip
    → Table.get ip (get_or sets ref []) ≢ some 0
unfolding NoneIdle Table.get
NoneIdle-at [] ip ref h = λ e. cc
NoneIdle-at (x ∷ xs) ip zero h = h.0
NoneIdle-at (x ∷ xs) ip (suc ref) h = NoneIdle-at xs ip ref h.1

-- The drop of a guard looks at the sets alone.
pub release_guard_same :
    (v w : World) (held : Option ℕ) (ip : List ℕ)
    → v.conns ≡ w.conns
    → (release_guard v held ip).conns ≡ (release_guard w held ip).conns
unfolding release_guard
release_guard_same v w none ip h = h
release_guard_same v w (some ref) ip h = rw h

-- Once the guard is dropped, the sets are those of `w`.
unfoldable Holds : World → List ℕ → World × Result (Option (Option ℕ)) → Type 0
Holds w ip (w', err e) = w'.conns ≡ w.conns
Holds w ip (w', ok none) = w'.conns ≡ w.conns
Holds w ip (w', ok (some held)) = (release_guard w' held ip).conns ≡ w.conns

unfoldable pub Admits : World → List ℕ → World × Result (Option Admitted) → Type 0
Admits w ip (w', err e) = w'.conns ≡ w.conns
Admits w ip (w', ok none) = w'.conns ≡ w.conns
Admits w ip (w', ok (some a)) = (release_guard w' a.guarded ip).conns ≡ w.conns

module _ (context : StreamContext) (w : World) (user_id : ℕ) (policy : UserPolicy) where
  unlimited :
      (context.enforcement.conn_limit_on && ltb 0 policy.conn_limit) ≡ false
      → acquire_guard context w user_id (some policy) ≡ (w, ok (some none))
  unfolding acquire_guard
  unlimited off = rw (off, acquire_guard)

  no_set :
      (context.enforcement.conn_limit_on && ltb 0 policy.conn_limit) ≡ true
      → Table.get user_id context.tables.conns_by_user ≡ none
      → acquire_guard context w user_id (some policy) ≡ (w, err Error.no_ip_set)
  unfolding acquire_guard
  no_set on q = rw (on, acquire_guard) (rw q)

  refused :
      (ref : ℕ)
      → (context.enforcement.conn_limit_on && ltb 0 policy.conn_limit) ≡ true
      → Table.get user_id context.tables.conns_by_user ≡ some ref
      → acquire (get_or w.conns.sets ref []) context.peer_ip policy.conn_limit ≡ none
      → acquire_guard context w user_id (some policy) ≡ (w, ok none)
  unfolding acquire_guard ip_set
  refused ref on q r = rw (on, acquire_guard) (rw (q, r))

  taken :
      (ref : ℕ) (ips : UserIpSet)
      → (context.enforcement.conn_limit_on && ltb 0 policy.conn_limit) ≡ true
      → Table.get user_id context.tables.conns_by_user ≡ some ref
      → acquire (get_or w.conns.sets ref []) context.peer_ip policy.conn_limit ≡ some ips
      → acquire_guard context w user_id (some policy) ≡ (
        record w { conns = record w.conns { sets = set w.conns.sets ref ips } },
        ok (some (some ref)),
      )
  unfolding acquire_guard ip_set
  taken ref ips on q r = rw (on, acquire_guard) (rw (q, r))

  acquire_guard-Holds :
      NoneIdle w.conns.sets context.peer_ip
      → Holds w context.peer_ip (acquire_guard context w user_id (some policy))
  unfolding Holds
  acquire_guard-Holds h =
      elim (Bool-cases (context.enforcement.conn_limit_on && ltb 0 policy.conn_limit)) [
        | inr off ↦ rw (unlimited off) (unfold release_guard in refl)
        | inl on ↦ elim (Option-cases (Table.get user_id context.tables.conns_by_user)) [
          | inl q ↦ rw (no_set on q) refl
          | inr (ref, q) ↦
              elim (Option-cases
                (acquire (get_or w.conns.sets ref []) context.peer_ip policy.conn_limit)) [
                  | inl r ↦ rw (refused ref on q r) refl
                  | inr (ips, r) ↦
                      let back =
                        release-acquire (get_or w.conns.sets ref []) ips context.peer_ip
                          policy.conn_limit (NoneIdle-at w.conns.sets context.peer_ip ref h) r in
                      rw (taken ref ips on q r) (
                        unfold release_guard ip_set in
                        ap (λ s. record w.conns { sets = s })
                          (set_restores w.conns.sets ref ips context.peer_ip back))
                ]
        ]
      ]

-- The scan changes the channel alone.
audit_initial-Admits :
    (context : StreamContext) (v w : World) (a : Admitted) (initial : List ℕ)
    → (release_guard v a.guarded context.peer_ip).conns ≡ w.conns
    → Admits w context.peer_ip (audit_initial context v a initial)
unfolding audit_initial
audit_initial-Admits context v w a initial h =
    let channel = report_connect v.channel a.user_id context.peer_ip context.peer in
    let seen =
      scan (Audit.new a.user_id context.peer_ip context.peer) context.rules channel initial in
    let v' : World = record v { channel = seen.1 } in
    let same = release_guard_same v' v a.guarded context.peer_ip refl ∙ h in
    elim (Bool-cases (seen.2 && context.enforcement.audit_block)) [
      | inl blocks ↦ rw (blocks, audit_initial) (unfold Admits in same)
      | inr goes ↦ rw (goes, audit_initial) (unfold Admits in same)
    ]

guard-Holds :
    (context : StreamContext) (w : World) (user_id : ℕ) (policy : Option UserPolicy)
    → NoneIdle w.conns.sets context.peer_ip
    → Holds w context.peer_ip (acquire_guard context w user_id policy)
guard-Holds context w user_id none h = unfold acquire_guard Holds release_guard in refl
guard-Holds context w user_id (some policy) h = acquire_guard-Holds context w user_id policy h

module _ (context : StreamContext) (w : World) (session : ServerSession) (initial : List ℕ)
    (n : ℕ) where
  abbrev who : ℕ
  who = unwrap_or (Session.user_id session) context.fallback_user_id

  abbrev policy_of : Option UserPolicy
  policy_of = Table.get who context.tables.policies

  abbrev charged : ℕ → World
  charged counter = record w { traffic = record_upload w.traffic counter n }

  uncounted :
      counter_of context.tables who context.fallback_user_id ≡ none
      → admit context w session initial n ≡ (w, err Error.no_counter)
  unfolding admit
  uncounted q = rw (q, admit)

  -- The branches that follow the guard.
  abbrev guarded_by : ℕ → World × Result (Option (Option ℕ)) → World × Result (Option Admitted)
  guarded_by counter (v, err e) = (v, err e)
  guarded_by counter (v, ok none) = (v, ok none)
  guarded_by counter (v, ok (some held)) =
      audit_initial context v
        (record { user_id = who; counter = counter; policy = policy_of; guarded = held }) initial

  counted :
      (counter : ℕ) (out : World × Result (Option (Option ℕ)))
      → counter_of context.tables who context.fallback_user_id ≡ some counter
      → acquire_guard context (charged counter) who policy_of ≡ out
      → admit context w session initial n ≡ guarded_by counter out
  unfolding admit
  counted counter (v, err e) q r = rw (q, admit) (rw r (ap (λ x. (x.0, err e)) r))
  counted counter (v, ok none) q r = rw (q, admit) (rw r (ap (λ x. (x.0, ok none)) r))
  counted counter (v, ok (some held)) q r =
      let a : Admitted = record {
        user_id = who;
        counter = counter;
        policy = policy_of;
        guarded = held;
      } in
      rw (q, admit) (rw r (ap (λ x. audit_initial context x.0 a initial) r))

  guarded_by-Admits :
      (counter : ℕ) (out : World × Result (Option (Option ℕ)))
      → Holds (charged counter) context.peer_ip out
      → Admits w context.peer_ip (guarded_by counter out)
  unfolding Holds Admits
  guarded_by-Admits counter (v, err e) h = h
  guarded_by-Admits counter (v, ok none) h = h
  guarded_by-Admits counter (v, ok (some held)) h =
      audit_initial-Admits context v w
        (record { user_id = who; counter = counter; policy = policy_of; guarded = held }) initial h

  pub admit-Admits :
      NoneIdle w.conns.sets context.peer_ip
      → Admits w context.peer_ip (admit context w session initial n)
  admit-Admits h = elim (Option-cases (counter_of context.tables who context.fallback_user_id)) [
    | inl q ↦ rw (uncounted q) (unfold Admits in refl)
    | inr (counter, q) ↦
        rw (counted counter (acquire_guard context (charged counter) who policy_of) q refl) (
          guarded_by-Admits counter (acquire_guard context (charged counter) who policy_of)
            (guard-Holds context (charged counter) who policy_of h))
  ]
