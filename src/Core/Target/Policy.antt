-- ===== src/Core/Target/Policy.antt =====
-- internal/core/target/target.go: what the sources say of services and of invocation properties, and
-- the test for a target that can be called.
use sofarpc_cli.Core.InvocationProps.{Declarations, Source}
use sofarpc_cli.Core.Target.{
  Config, PolicyConfig, ServiceAllowlist, Sources, mode_direct, normalize_resolved_target,
  resolve_active_profile,
}
use sofarpc_cli.Prelude.{
  Bool, Bytes, List, Option, [], bytes_eq, codes, false, if◌then◌else◌, is_empty, length, ltb, none,
  not, some, true, ◌&&◌, ◌++◌, ◌||◌, ◌∷◌,
}
use sofarpc_cli.Prelude.Map.{lookup}

unfoldable pub supports_direct_bolt : Config → Bool
supports_direct_bolt cfg =
    let c = normalize_resolved_target cfg in
    (bytes_eq c.mode mode_direct && not (is_empty c.direct_url))
    && ((is_empty c.protocol || bytes_eq c.protocol (codes "bolt"))
        && (is_empty c.serialization || bytes_eq c.serialization (codes "hessian2")))

policy_has_allowed_services : PolicyConfig → Bool
policy_has_allowed_services policy =
    policy.allowed_services_set || ltb 0 (length policy.allowed_services)

project_allowlist : PolicyConfig → ServiceAllowlist
project_allowlist policy = record {
  configured = true;
  services = policy.allowed_services;
  source = codes "project allowedServices";
}

unfoldable pub service_allowlist_for_sources : Sources → ServiceAllowlist
unfolding policy_has_allowed_services project_allowlist
service_allowlist_for_sources sources =
    if policy_has_allowed_services sources.project_local_policy
    then project_allowlist sources.project_local_policy
    else if policy_has_allowed_services sources.project_policy
    then project_allowlist sources.project_policy
    else record { configured = false; services = []; source = [] }

unfoldable pub allowed_services : Sources → List Bytes
unfolding service_allowlist_for_sources
allowed_services sources =
    let allowlist = service_allowlist_for_sources sources in
    if allowlist.configured then allowlist.services else []

-- the name of a profile's layer
profile_layer_name : Bytes → Bytes → Bytes
profile_layer_name layer profile = layer ++ codes ":profiles[" ++ profile ++ codes "]"

or_none : Option Declarations → Declarations
or_none none = []
or_none (some d) = d

profile_sources : Bytes → Sources → List Source
profile_sources active sources =
    if is_empty active
    then []
    else (record {
      name = profile_layer_name (codes "project-local") active;
      declarations = or_none (lookup active sources.project_local_profile_invocation_properties);
    }
        ∷ record {
          name = profile_layer_name (codes "project") active;
          declarations = or_none (lookup active sources.project_profile_invocation_properties);
        }
        ∷ [])

unfoldable pub invocation_property_sources : Declarations → Bytes → Sources → List Source
unfolding profile_sources profile_layer_name or_none
invocation_property_sources input profile sources =
    record { name = codes "input"; declarations = input }
    ∷ (profile_sources (resolve_active_profile profile sources) sources
        ++ (record {
          name = codes "project-local";
          declarations = sources.project_local_invocation_properties;
        }
            ∷ record {
              name = codes "project";
              declarations = sources.project_invocation_properties;
            }
            ∷ []))
