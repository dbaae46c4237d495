-- ===== src/Float.antt =====
-- The `f64` of src/policy.rs and src/traffic.rs, as a parameter: what the code calls of it.
use sspanel_ssr_rust_backend.Base.{ℕ, Bool}

-- `of_u64` and `to_u64` are the casts `as f64` and `as u64`; `secs` is `as_secs_f64` of a number of
-- nanoseconds, and `nanos` is `from_secs_f64`.
pub record F64 (F : Type 0) : Type 0 where
  pub of_u64 : ℕ → F
  pub to_u64 : F → ℕ
  pub add : F → F → F
  pub sub : F → F → F
  pub mul : F → F → F
  pub div : F → F → F
  pub fmax : F → F → F
  pub fmin : F → F → F
  pub abs : F → F
  pub le : F → F → Bool
  pub lt : F → F → Bool
  pub epsilon : F
  pub secs : ℕ → F
  pub nanos : F → ℕ
