-- ===== src/Core/Target/Precedence.antt =====
-- What the resolution of a target takes from which layer.
use sofarpc_cli.Prelude.Map.{lookup}
use sofarpc_cli.Core.Target.{
  Config, Input, Sources, build_layer_stack, default_config, is_zero, merge, mode_direct,
  normalize_resolved_target, profile_defined, resolve, resolve_active_profile, resolve_endpoint,
  resolve_number, resolve_text, or_empty, normalize_config, config_from_input,
}
use sofarpc_cli.Prelude.{
  All, Bool, Bool-cases, Bytes, List, [], false, if◌then◌else◌, inl, inr, is_empty, not, refl, true,
  ◌&&◌, ◌++◌, ◌∷◌, ◌≡◌,
}
use sofarpc_cli.Prelude.Int.{ℤ}
use sofarpc_cli.Prelude.TrimSpace.{trim_space}

abbrev pub IsBlank : (Config → Bytes) → Config → Type 0
IsBlank read c = is_empty (trim_space (read c)) ≡ true

-- A text field is that of the first layer in which it is not blank, whatever the layers below say.
pub resolve_text-first :
    (read : Config → Bytes) (above below : List Config) (c : Config)
    → All (IsBlank read) above
    → is_empty (trim_space (read c)) ≡ false
    → resolve_text read (above ++ (c ∷ below)) ≡ read c
unfolding resolve_text
resolve_text-first read [] below c h set = rw set
resolve_text-first read (a ∷ above) below c (ha, h) set =
    rw ha (resolve_text-first read above below c h set)

-- The endpoint is the URL of the first layer in which it is not blank, without the white space.
pub resolve_endpoint-first :
    (above below : List Config) (c : Config)
    → All (IsBlank (λ a. a.direct_url)) above
    → is_empty (trim_space c.direct_url) ≡ false
    → resolve_endpoint (above ++ (c ∷ below)) ≡ trim_space c.direct_url
unfolding resolve_endpoint
resolve_endpoint-first [] below c h set = rw set
resolve_endpoint-first (a ∷ above) below c (ha, h) set =
    rw ha (resolve_endpoint-first above below c h set)

text_is_set :
    (read : Config → Bytes) (above : List Config) (last : Config)
    → is_empty (trim_space (read last)) ≡ false
    → is_empty (trim_space (resolve_text read (above ++ (last ∷ [])))) ≡ false
unfolding resolve_text
text_is_set read [] last h = rw h h
text_is_set read (a ∷ above) last h = elim (Bool-cases (is_empty (trim_space (read a)))) [
  | inl blank ↦ rw blank (text_is_set read above last h)
  | inr set ↦ rw set set
]

number_is_set :
    (read : Config → ℤ) (above : List Config) (last : Config)
    → is_zero (read last) ≡ false
    → is_zero (resolve_number read (above ++ (last ∷ []))) ≡ false
unfolding resolve_number
number_is_set read [] last h = rw h h
number_is_set read (a ∷ above) last h = elim (Bool-cases (is_zero (read a))) [
  | inl zero_there ↦ rw zero_there (number_is_set read above last h)
  | inr set ↦ rw set set
]

abbrev base_layers : Sources → List Config
base_layers sources =
    normalize_config sources.project_local
    ∷ (normalize_config sources.project ∷ (normalize_config sources.env ∷ []))

-- The defaults are the last layer of every stack.
build_layer_stack-ends :
    (input : Input) (sources : Sources) (active : Bytes)
    → (above : List Config) × (build_layer_stack input sources active
        ≡ above ++ (default_config ∷ []))
unfolding build_layer_stack
build_layer_stack-ends input sources [] = (config_from_input input ∷ base_layers sources, refl)
build_layer_stack-ends input sources (x ∷ active) = (
  config_from_input input
      ∷ (normalize_config (or_empty (lookup (x ∷ active) sources.project_local_profiles))
          ∷ (normalize_config (or_empty (lookup (x ∷ active) sources.project_profiles))
              ∷ base_layers sources)),
  refl,
)

pub record IsComplete (t : Config) : Type 0 where
  pub protocol_set : is_empty t.protocol ≡ false
  pub serialization_set : is_empty t.serialization ≡ false
  pub timeout_set : is_zero t.timeout_ms ≡ false
  pub connect_timeout_set : is_zero t.connect_timeout_ms ≡ false
  pub mode_follows : t.mode ≡ (if is_empty t.direct_url then [] else mode_direct)

merge-IsComplete :
    (above : List Config)
    → IsComplete (normalize_resolved_target (merge (above ++ (default_config ∷ []))))
unfolding normalize_resolved_target merge
merge-IsComplete above = record {
  protocol_set =
      text_is_set (λ c. c.protocol) above default_config (unfold default_config trim_space in refl);
  serialization_set =
      text_is_set (λ c. c.serialization) above default_config
        (unfold default_config trim_space in refl);
  timeout_set =
      number_is_set (λ c. c.timeout_ms) above default_config (unfold default_config in refl);
  connect_timeout_set =
      number_is_set (λ c. c.connect_timeout_ms) above default_config
        (unfold default_config in refl);
  mode_follows = refl;
}

-- A resolution with no profile error gives a target whose protocol and serialization are not empty,
-- whose timeouts are not 0, and whose mode is direct where it has a URL and empty where it has none.
pub resolve-IsComplete :
    (input : Input) (sources : Sources)
    → (resolve input sources).profile_error ≡ false
    → IsComplete (resolve input sources).target
unfolding resolve
resolve-IsComplete input sources h = elim (Bool-cases rejected) [
  | inl r ↦ absurd (cc (rw r at h))
  | inr r ↦
      let active = resolve_active_profile input.profile sources in
      let (above, e) = build_layer_stack-ends input sources active in
      rw (r, e) (merge-IsComplete above)
]
  where
    rejected : Bool
    rejected =
        not (is_empty (resolve_active_profile input.profile sources))
        && not (profile_defined sources (resolve_active_profile input.profile sources))
