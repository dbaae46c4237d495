-- ===== src/Config/Validate.antt =====
-- src/config.rs: `validate` and the overrides from the environment.
use sspanel_ssr_rust_backend.Base.{
  ℕ, false, ◌||◌, Option, none, some, List, if◌then◌else◌, ◌==◌, Result, Error, ok, err, ◌>>=◌,
}
use sspanel_ssr_rust_backend.Base.{◌↔◌, ◌≡◌, ◌≤◌, refl, arith, inl}
use sspanel_ssr_rust_backend.Text.{trim, is_empty}
use sspanel_ssr_rust_backend.Config.{
  Config, timeout, default_panel, default_node, default_limits, auth_aes128_md5_name, plain_name,
}
use sspanel_ssr_rust_backend.Ssr.Profile
use sspanel_ssr_rust_backend.Ssr.Profile.{Profile}
use sspanel_ssr_rust_backend.Ssr.Cipher.{to_ascii_lowercase, rc4_md5_name, lower_byte}

unfoldable pub validate : Config → Result (Unit {0})
validate c =
    if is_empty (trim c.panel.base_url)
    then err Error.config_invalid
    else if is_empty (trim c.panel.key)
    then err Error.config_invalid
    else if c.node.workers == 0
    then err Error.config_invalid
    else if c.node.server_port == 0
    then err Error.config_invalid
    else if c.node.timeout_secs == 0
    then err Error.config_invalid
    else if c.limits.max_users == 0 || c.limits.max_sessions == 0
    then err Error.config_invalid
    else (Profile.new c.node.method c.node.protocol c.node.obfs (timeout c.node) >>= λ _. ok tt)

-- The three variables as `std::env::var` gives them, the last with what `parse` makes of it.
unfoldable pub apply_env_overrides :
    Config → Option (List ℕ) → Option (List ℕ) → Option (Option ℕ) → Config
apply_env_overrides c base_url key node_id = record c {
  panel = record c.panel {
    base_url = elim base_url [ none ↦ c.panel.base_url | some value ↦ value ];
    key = elim key [ none ↦ c.panel.key | some value ↦ value ];
    node_id = elim node_id [ some (some n) ↦ n | _ ↦ c.panel.node_id ];
  };
}

-- The conditions that `validate` tests before it builds the profile.
abbrev pub IsComplete : Config → Type 0
IsComplete c =
    (is_empty (trim c.panel.base_url) ≡ false)
    × (is_empty (trim c.panel.key) ≡ false)
    × (1 ≤ c.node.workers)
    × (1 ≤ c.node.server_port)
    × (1 ≤ c.node.timeout_secs)
    × (1 ≤ c.limits.max_users)
    × (1 ≤ c.limits.max_sessions)

abbrev pub node_profile : Config → Result Profile
node_profile c = Profile.new c.node.method c.node.protocol c.node.obfs c.node.timeout_secs

-- `validate` accepts exactly the settings with an address and a key of the panel that are not
-- blank, none of the five sizes 0, and a node profile that can be built.
pub validate_iff :
    (c : Config)
    → (validate c ≡ ok tt) ↔ (IsComplete c × ((profile : Profile) × (node_profile c ≡ ok profile)))
validate_iff c =
    (λ h. unfold validate timeout in ground (arith), λ h. unfold validate timeout in ground (arith))

-- With every default, and an address and a key of the panel that are not blank, the settings are
-- valid.
pub validate-default :
    (base_url key : List ℕ) (node_id : ℕ)
    → is_empty (trim base_url) ≡ false
    → is_empty (trim key) ≡ false
    → validate (record {
      panel = default_panel base_url key node_id;
      node = default_node;
      limits = default_limits;
    })
      ≡ ok tt
unfolding default_panel default_node default_limits
validate-default base_url key node_id h k = (validate_iff _).1 (
  (h, k, omega arith, omega arith, omega arith, omega arith, omega arith),
  (
    record {
      method = rc4_md5_name;
      protocol = auth_aes128_md5_name;
      obfs = plain_name;
      timeout_secs = 300;
    },
    (Profile.new_iff _ _ _ _ _).1 (
      inl refl,
      refl,
      refl,
      unfold to_ascii_lowercase lower_byte in refl,
      unfold to_ascii_lowercase lower_byte in refl,
      unfold to_ascii_lowercase lower_byte in refl,
      refl,
    ),
  ),
)
