-- ===== src/Panel.antt =====
-- src/panel.rs: the rows of the panel, and the envelope of its answers.
use sspanel_ssr_rust_backend.Base.{
  ℕ, Bool, not, Option, none, some, List, [], ◌∷◌, if◌then◌else◌, Result, Error, ok, err, ◌>>=◌,
}
use sspanel_ssr_rust_backend.Base.Int.{ℤ, pos, ℤ_beq}

-- `f64`, which only the speed cap uses, is the parameter `F`.
pub record PanelUser (F : Type 0) : Type 0 where
  pub id : ℕ
  pub user_id_field : Option ℕ
  pub port : ℕ
  pub password : List ℕ
  pub method : Option (List ℕ)
  pub protocol : Option (List ℕ)
  pub protocol_param : Option (List ℕ)
  pub obfs : Option (List ℕ)
  pub obfs_param : Option (List ℕ)
  pub enable : Option ℤ
  pub is_multi_user : ℤ
  pub node_speedlimit : Option F
  pub node_connector : Option ℤ
  pub forbidden_ip : Option (List ℕ)
  pub forbidden_port : Option (List ℕ)

pub record DetectRule : Type 0 where
  pub rule_id : ℕ
  pub name : List ℕ
  pub regex : List ℕ

pub record AliveIpReport : Type 0 where
  pub user_id : ℕ
  pub ip : List ℕ

pub record DetectLogReport : Type 0 where
  pub detect_user_id : ℕ
  pub list_id : ℕ

unfoldable pub unwrap_or {ℓ} : {A : Type ℓ} → Option A → A → A
unwrap_or none a = a
unwrap_or (some x) a = x

module _ {F : Type 0} where
  unfoldable pub user_id : PanelUser F → ℕ
  unfolding unwrap_or
  user_id user = unwrap_or user.user_id_field user.id

  unfoldable pub is_enabled : PanelUser F → Bool
  unfolding unwrap_or
  is_enabled user = not (ℤ_beq (unwrap_or user.enable (pos 1)) (pos 0))

  unfoldable pub enabled_only : List (PanelUser F) → List (PanelUser F)
  unfolding is_enabled
  enabled_only [] = []
  enabled_only (user ∷ users) =
      if is_enabled user then user ∷ enabled_only users else enabled_only users

  -- From the decoded answer on.
  unfoldable pub users : Option (List (PanelUser F)) → List (PanelUser F)
  unfolding unwrap_or enabled_only
  users rows = enabled_only (unwrap_or rows [])

-- `ApiResponse<Value>`, with `Value` and its decoding as parameters; `null` decodes to `none`.
pub record ApiResponse (Value : Type 0) : Type 0 where
  pub ret : ℤ
  pub data_field : Option Value

unfoldable pub unwrap_ret :
    {Value T : Type 0} (parse_envelope : Value → Result (ApiResponse Value))
    (is_null : Value → Bool)
    → (from_value : Value → Result T) → Value
    → Result (Option T)
unwrap_ret parse_envelope is_null from_value value = do
  response ← parse_envelope value
  if not (ℤ_beq response.ret (pos 1)) then err Error.panel_ret else elim response.data_field [
    | none ↦ ok none
    | some inner ↦
        if is_null inner then ok none else (from_value inner >>= λ parsed. ok (some parsed))
  ]

-- A report with nothing in it is not sent; `post` is the request.
unfoldable pub report {ℓ} : {A : Type ℓ} → (List A → Result (Unit {0})) → List A → Result (Unit {0})
report post [] = ok tt
report post (item ∷ items) = post (item ∷ items)
