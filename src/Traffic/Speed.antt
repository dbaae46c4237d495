-- ===== src/Traffic/Speed.antt =====
-- src/traffic.rs: the token buckets of the users' speed caps.
use sspanel_ssr_rust_backend.Base.{
  ℕ, ◌-◌, ◌+◌, zero, suc, Option, none, some, List, [], ◌∷◌, ◌++◌, length, if◌then◌else◌, nat_eq,
}
use sspanel_ssr_rust_backend.Base.Table
use sspanel_ssr_rust_backend.Base.Table.{Table}
use sspanel_ssr_rust_backend.Float.{F64}
use sspanel_ssr_rust_backend.Traffic.{mem}

-- An `Instant` is a number of nanoseconds.
pub record Bucket (F : Type 0) : Type 0 where
  pub rate : F
  pub capacity : F
  pub tokens : F
  pub last : ℕ

-- What one round of `acquire` ends with: the tokens are taken, or a sleep is due.
pub data Turn : Type 0 where
  granted : Turn
  sleeps : (nanos : ℕ) → Turn

module _ {F : Type 0} ⦃f : F64 F⦄ where
  unfoldable pub refill : Bucket F → ℕ → Bucket F
  refill b now =
      let elapsed = f.secs (now - b.last) in
      if f.le b.rate (f.of_u64 0) then record b { last = now } else record b {
        last = now;
        tokens = f.fmin (f.add b.tokens (f.mul elapsed b.rate)) b.capacity;
      }

  unfoldable pub capacity_for : F → F
  capacity_for rate = f.fmax rate (f.mul (f.of_u64 256) (f.of_u64 1024))

  -- `RateLimiter::new`
  unfoldable pub new_limiter : ℕ → ℕ → Bucket F
  new_limiter rate_bps now =
      let rate = f.of_u64 rate_bps in
      record { rate = rate; capacity = capacity_for rate; tokens = capacity_for rate; last = now }

  -- From `refill` on, with the new rate.
  unfoldable pub reset_rate : Bucket F → F → Bucket F
  reset_rate b rate =
      let capacity = capacity_for rate in
      record b {
        rate = rate;
        capacity = capacity;
        tokens = if f.lt capacity b.tokens then capacity else b.tokens;
      }

  unfoldable pub set_rate : Bucket F → ℕ → ℕ → Bucket F
  set_rate b rate_bps now =
      let rate = f.of_u64 rate_bps in
      if f.lt (f.abs (f.sub rate b.rate)) f.epsilon then b else reset_rate (refill b now) rate

  -- From `need` on.
  unfoldable pub take_tokens : Bucket F → F → Bucket F × Turn
  take_tokens b amount =
      let need = f.fmin amount b.capacity in
      if f.le need b.tokens
      then (record b { tokens = f.sub b.tokens need }, granted)
      else (b, sleeps (f.nanos (f.div (f.sub need b.tokens) b.rate)))

  -- One round of the loop of `acquire`.
  unfoldable pub acquire_round : Bucket F → ℕ → ℕ → Bucket F × Turn
  acquire_round b amount now =
      if f.le b.rate (f.of_u64 0)
      then (b, granted)
      else take_tokens (refill b now) (f.of_u64 amount)

  -- The loop, over the times at which it has the lock; it gives how many of them it took.
  unfoldable pub acquire_loop : Bucket F → ℕ → List ℕ → Bucket F × Option ℕ
  acquire_loop b amount [] = (b, none)
  acquire_loop b amount (now ∷ later) =
      let (b', turn) = acquire_round b amount now in
      let (b'', rounds) = acquire_loop b' amount later in
      elim turn [
        | granted ↦ (b', some 1)
        | sleeps nanos ↦ (b'', elim rounds [ none ↦ none | some n ↦ some (n + 1) ])
      ]

-- `Arc<RateLimiter>` is an index into `limiters`, which outlives the ledger's entry.
pub record SpeedLedger (F : Type 0) : Type 0 where
  pub limiters : List (Bucket F)
  pub state : Table ℕ ℕ

module _ {F : Type 0} where
  -- What the limiter behind a reference becomes.
  unfoldable pub update : (Bucket F → Bucket F) → ℕ → List (Bucket F) → List (Bucket F)
  update change ref [] = []
  update change zero (b ∷ bs) = change b ∷ bs
  update change (suc ref) (b ∷ bs) = b ∷ update change ref bs

  unfoldable pub remove_stale_users : SpeedLedger F → List ℕ → SpeedLedger F
  remove_stale_users s live_user_ids = record s {
    state = Table.retain (λ user_id _. mem user_id live_user_ids) s.state;
  }

module _ {F : Type 0} ⦃f : F64 F⦄ where
  unfoldable pub ensure_user : SpeedLedger F → ℕ → ℕ → ℕ → SpeedLedger F × ℕ
  ensure_user s user_id rate_bps now = elim (Table.get user_id s.state) [
    | some ref ↦ (record s { limiters = update (λ b. set_rate b rate_bps now) ref s.limiters }, ref)
    | none ↦
        let ref = length s.limiters in
        (
          record {
            limiters = s.limiters ++ (new_limiter rate_bps now ∷ []);
            state = Table.insert user_id ref s.state;
          },
          ref,
        )
  ]
