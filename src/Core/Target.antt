-- ===== src/Core/Target.antt =====
-- internal/core/target/target.go: the wire target, and how it is resolved from layers of
-- configuration. The trace, the list of layers and the explanation of a report are left out, and
-- an integer field is the number where readField prints it and parseTraceInt reads it back.
pub mod Precedence
pub mod Policy
pub mod Address
use sofarpc_cli.Core.InvocationProps.{Declarations}
use sofarpc_cli.Prelude.{
  Bool, Bytes, List, Option, [], codes, false, if◌then◌else◌, is_empty, none, not, some, true, ◌&&◌,
  ◌++◌, ◌==◌, ◌||◌, ◌∷◌,
}
use sofarpc_cli.Prelude.Int.{negsuc, pos, ℤ}
use sofarpc_cli.Prelude.Map.{Map, lookup}
use sofarpc_cli.Prelude.TrimSpace.{trim_space}

pub record Config : Type 0 where
  pub mode : Bytes
  pub direct_url : Bytes
  pub protocol : Bytes
  pub serialization : Bytes
  pub unique_id : Bytes
  pub timeout_ms : ℤ
  pub connect_timeout_ms : ℤ

pub record Input : Type 0 where
  pub service : Bytes
  pub direct_url : Bytes
  pub protocol : Bytes
  pub serialization : Bytes
  pub unique_id : Bytes
  pub timeout_ms : ℤ
  pub connect_timeout_ms : ℤ
  pub profile : Bytes

pub record PolicyConfig : Type 0 where
  pub allowed_services : List Bytes
  pub allowed_services_set : Bool

pub record ServiceAllowlist : Type 0 where
  pub configured : Bool
  pub services : List Bytes
  pub source : Bytes

pub record ConfigError : Type 0 where
  pub path : Bytes
  pub message : Bytes

pub record Sources : Type 0 where
  pub env : Config
  pub project : Config
  pub project_local : Config
  pub project_policy : PolicyConfig
  pub project_local_policy : PolicyConfig
  pub project_invocation_properties : Declarations
  pub project_local_invocation_properties : Declarations
  pub project_root : Bytes
  pub config_errors : List ConfigError
  pub project_profiles : Map Config
  pub project_local_profiles : Map Config
  pub default_profile : Bytes
  pub project_profile_invocation_properties : Map Declarations
  pub project_local_profile_invocation_properties : Map Declarations

pub record Report : Type 0 where
  pub target : Config
  pub service : Bytes
  pub active_profile : Bytes
  pub profile_error : Bool

abbrev pub empty_config : Config
empty_config = record {
  mode = [];
  direct_url = [];
  protocol = [];
  serialization = [];
  unique_id = [];
  timeout_ms = pos 0;
  connect_timeout_ms = pos 0;
}

abbrev pub empty_input : Input
empty_input = record {
  service = [];
  direct_url = [];
  protocol = [];
  serialization = [];
  unique_id = [];
  timeout_ms = pos 0;
  connect_timeout_ms = pos 0;
  profile = [];
}

abbrev pub mode_direct : Bytes
mode_direct = codes "direct"

unfoldable pub default_config : Config
default_config = record empty_config {
  protocol = codes "bolt";
  serialization = codes "hessian2";
  timeout_ms = pos 3000;
  connect_timeout_ms = pos 1000;
}

unfoldable pub normalize_config : Config → Config
normalize_config cfg = record cfg {
  mode = trim_space cfg.mode;
  direct_url = trim_space cfg.direct_url;
  protocol = trim_space cfg.protocol;
  serialization = trim_space cfg.serialization;
  unique_id = trim_space cfg.unique_id;
}

unfoldable pub normalize_resolved_target : Config → Config
unfolding normalize_config
normalize_resolved_target cfg =
    let c = normalize_config cfg in
    record c { mode = if is_empty c.direct_url then [] else mode_direct }

unfoldable pub config_from_input : Input → Config
config_from_input input = normalize_config (record {
  mode = [];
  direct_url = input.direct_url;
  protocol = input.protocol;
  serialization = input.serialization;
  unique_id = input.unique_id;
  timeout_ms = input.timeout_ms;
  connect_timeout_ms = input.connect_timeout_ms;
})

unfoldable pub resolve_active_profile : Bytes → Sources → Bytes
resolve_active_profile profile sources =
    if is_empty (trim_space profile) then trim_space sources.default_profile else trim_space profile

abbrev has_key : Bytes → Map Config → Bool
has_key k m = elim (lookup k m) [ none ↦ false | some c ↦ true ]

unfoldable pub profile_defined : Sources → Bytes → Bool
profile_defined sources name =
    has_key name sources.project_profiles || has_key name sources.project_local_profiles

abbrev pub or_empty : Option Config → Config
or_empty none = empty_config
or_empty (some c) = c

-- the configurations of the layers, the highest priority first
unfoldable pub build_layer_stack : Input → Sources → Bytes → List Config
build_layer_stack input sources active =
    config_from_input input
    ∷ ((if is_empty active
          then []
          else (normalize_config (or_empty (lookup active sources.project_local_profiles))
              ∷ (normalize_config (or_empty (lookup active sources.project_profiles)) ∷ [])))
        ++ (normalize_config sources.project_local
            ∷ (normalize_config sources.project
                ∷ (normalize_config sources.env ∷ (default_config ∷ [])))))

-- the URL of the first layer that has one
unfoldable pub resolve_endpoint : List Config → Bytes
unfolding normalize_config
resolve_endpoint [] = []
resolve_endpoint (c ∷ cs) =
    let url = (normalize_config c).direct_url in if is_empty url then resolve_endpoint cs else url

-- resolveField with the specification of a text field, and of a number
unfoldable pub resolve_text : (Config → Bytes) → List Config → Bytes
resolve_text read [] = []
resolve_text read (c ∷ cs) = if is_empty (trim_space (read c)) then resolve_text read cs else read c

abbrev pub is_zero : ℤ → Bool
is_zero (pos n) = n == 0
is_zero (negsuc n) = false

unfoldable pub resolve_number : (Config → ℤ) → List Config → ℤ
resolve_number read [] = pos 0
resolve_number read (c ∷ cs) = if is_zero (read c) then resolve_number read cs else read c

-- the target that the layers give
unfoldable pub merge : List Config → Config
merge layers = record {
  mode = if is_empty (resolve_endpoint layers) then [] else mode_direct;
  direct_url = resolve_endpoint layers;
  protocol = resolve_text (λ c. c.protocol) layers;
  serialization = resolve_text (λ c. c.serialization) layers;
  unique_id = resolve_text (λ c. c.unique_id) layers;
  timeout_ms = resolve_number (λ c. c.timeout_ms) layers;
  connect_timeout_ms = resolve_number (λ c. c.connect_timeout_ms) layers;
}

unfoldable pub resolve : Input → Sources → Report
resolve input sources =
    let active = resolve_active_profile input.profile sources in
    if not (is_empty active) && not (profile_defined sources active)
    then record {
      target = empty_config;
      service = trim_space input.service;
      active_profile = active;
      profile_error = true;
    }
    else record {
      target = normalize_resolved_target (merge (build_layer_stack input sources active));
      service = trim_space input.service;
      active_profile = active;
      profile_error = false;
    }
