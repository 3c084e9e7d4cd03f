-- ===== src/Core/Target/Address.antt =====
-- internal/core/target/address.go: a direct target as host:port. `Net` has what the code uses of
-- net, net/url and strings.EqualFold.
use sofarpc_cli.Prelude.Result.{Result, ok, err, guard, ◌>>=◌, ◌>>◌}
use sofarpc_cli.Prelude.{
  Bool, Bytes, Option, [], codes, false, if◌then◌else◌, is_empty, none, not, some, true, ◌&&◌, ◌++◌,
  ◌==◌, ◌||◌, ◌∷◌, ◌≡◌,
}
use sofarpc_cli.Prelude.TrimSpace.{trim_space}

pub record Net : Type 0 where
  -- the Host of url.Parse, none where it fails
  pub url_host : Bytes → Option Bytes
  -- the host and the port of net.SplitHostPort, none where it fails
  pub split_host_port : Bytes → Option (Bytes × Bytes)
  pub join_host_port : Bytes → Bytes → Bytes
  pub equal_fold : Bytes → Bytes → Bool
  -- a string equals itself under case folding
  pub equal_fold_refl : (s : Bytes) → equal_fold s s ≡ true

pub data AddressError : Type 0 where
  address_empty url_invalid url_without_host host_invalid : AddressError

unfoldable pub starts_with : Bytes → Bytes → Bool
starts_with [] s = true
starts_with (p ∷ ps) [] = false
starts_with (p ∷ ps) (c ∷ cs) = p == c && starts_with ps cs

-- strings.Contains
unfoldable pub has_text : Bytes → Bytes → Bool
has_text part [] = is_empty part
has_text part (c ∷ cs) = starts_with part (c ∷ cs) || has_text part cs

unfoldable pub default_bolt_port : Bytes
default_bolt_port = codes "12200"

module _ (net : Net) where
  has_port : Bytes → Bool
  has_port host =
      if starts_with (codes "[") host
      then has_text (codes "]:") host
      else elim (net.split_host_port host) [ none ↦ false | some p ↦ true ]

  unfoldable pub ensure_port : Bytes → Bytes
  unfolding has_port default_bolt_port
  ensure_port raw =
      let host = trim_space raw in
      if is_empty host || has_port host then host else host ++ codes ":" ++ default_bolt_port

  host_of_url : Bytes → Result AddressError Bytes
  host_of_url raw = elim (net.url_host raw) [
    | none ↦ err url_invalid
    | some host ↦ if is_empty host then err url_without_host else ok host
  ]

  unfoldable pub parse_direct_dial_address : Bytes → Result AddressError Bytes
  unfolding host_of_url
  parse_direct_dial_address url = do
    let raw = trim_space url
    guard (not (is_empty raw)) address_empty
    host ← if has_text (codes "://") raw then host_of_url raw else ok raw
    ok (ensure_port host)
