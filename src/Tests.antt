-- ===== src/Tests.antt =====
-- The theorems at concrete inputs.
mod BuiltRequest
mod Decoder
mod Policy
mod Holder
mod Services
mod Requests
mod RoundTrip
use sofarpc_cli.Prelude.UniqueKeys.{HasUniqueKeys}
use sofarpc_cli.Core.Target.{PolicyConfig}
use sofarpc_cli.Wire.Totality.{read_chunked_string-ne-stuck}
use sofarpc_cli.JavaType.{
  bool_like, classify, container, date_like, decimal_like, map_bases, mapping, normalize,
  number_like, placeholder, primitives, string_like,
}
use sofarpc_cli.JavaType.Agreement.{classify-placeholder}
use sofarpc_cli.Prelude.Sort.{contains}
use sofarpc_cli.Core.Target.Precedence.{
  IsComplete, resolve-IsComplete, resolve_endpoint-first, resolve_text-first,
}
use sofarpc_cli.Prelude.TrimSpace.{trim_space}
use sofarpc_cli.Wire.Reader.{read_byte, read_chunked_string, read_int32, read_int64}
use sofarpc_cli.Wire.Result.{WireResult}
use sofarpc_cli.Wire.RoundTrip.{
  read_chunked_string-write_string, read_int32-write_int, read_int64-write_long,
}
use sofarpc_cli.Wire.Utf8.{AreRunes, concat, is_rune, seq_len}
use sofarpc_cli.Wire.Writer.{write_int, write_long, write_string}
use sofarpc_cli.Wire.Result
use sofarpc_cli.BoltClient.Frame.{
  FrameResult, Request, Response, codec_or_default, duration_milliseconds, encode_request,
  limit_or_default, read_response_with_limit, ok,
}
use sofarpc_cli.BoltClient.RoundTrip.{
  FitsFrame, read_response-bounded, read_response-response_frame, response_frame, view_request,
  view_request-encode_request,
}
use sofarpc_cli.BoltClient.SimpleMap.{
  MapResult, decode_entries, decode_simple_map, encode_simple_map, stuck, ◌>>=◌,
}
use sofarpc_cli.BoltClient.SimpleMap.RoundTrip.{
  HasShortEntries, decode_simple_map-encode_simple_map, decode_simple_map-ne-stuck,
}
use sofarpc_cli.Core.Target.{
  Config, resolve_active_profile, Input, resolve, resolve_endpoint, resolve_text, Sources,
}
use sofarpc_cli.Mcp.InvokeLimiter.{
  InvokeLimiter, InvokeLimiterConfig, attempt, can_acquire_locked, enabled, new_invoke_limiter,
  release_func, take_slot,
}
use sofarpc_cli.Mcp.InvokeLimiter.Invariant.{IsConsistent, Reach-IsConsistent, Reach-drained}
use sofarpc_cli.Mcp.InvokeLimiter.Progress.{IsBlocked, Reach-IsBlocked, release_makes_room}
use sofarpc_cli.Mcp.InvokeLimiter.System.{Reach, System, acquire, here, next, park, release, start}
use sofarpc_cli.Mcp.Session.{Session, SessionStore, capture_plan, create, plan_by_id}
use sofarpc_cli.Mcp.Session.Capacity.{create-within_cap}
use sofarpc_cli.Mcp.Session.Capture.{
  AreBounded, IsBounded, capture_plan-AreBounded, last_plan_of, plan_by_id-capture_plan,
}
use sofarpc_cli.Prelude.{
  All, Bool-cases, Bytes, [], arith, bytes_eq, codes, false, inl, inr, length, none, refl, some,
  some-injective, subst, true, ℕ, ◌++◌, ◌+◌, ◌<◌, ◌∷◌, ◌≡◌, ◌≢◌, ◌≤◌, drop, List,
}
use sofarpc_cli.Prelude.Int.{pos, negsuc}
use sofarpc_cli.Prelude.Map.{Map, insert, lookup}

abbrev two_limits : InvokeLimiterConfig
two_limits = record { global_limit = pos 2; per_target_limit = pos 1; queue_timeout = pos 0 }

abbrev dev : Bytes
dev = codes "dev:12200"

abbrev first_slot : InvokeLimiter
first_slot = (attempt dev (new_invoke_limiter two_limits)).0

abbrev one_permit : System
one_permit = record {
  limiter = first_slot;
  permits = record { key = dev; done = false } ∷ [];
  waiters = [];
}

Reach-one_permit : Reach (start two_limits) one_permit
unfolding attempt enabled can_acquire_locked new_invoke_limiter lookup
Reach-one_permit = next here (acquire dev refl)

abbrev one_waiting : System
one_waiting = record {
  limiter = (attempt dev first_slot).0;
  permits = record { key = dev; done = false } ∷ [];
  waiters = record { key = dev; channel = 0 } ∷ [];
}

Reach-one_waiting : Reach (start two_limits) one_waiting
unfolding attempt enabled can_acquire_locked take_slot new_invoke_limiter lookup insert bytes_eq
Reach-one_waiting = next Reach-one_permit (park dev 0 refl)

abbrev given_back : System
given_back = record {
  limiter = release_func dev false first_slot;
  permits = record { key = dev; done = true } ∷ [];
  waiters = [];
}

Reach-given_back : Reach (start two_limits) given_back
Reach-given_back = next Reach-one_permit (release [] [] (record { key = dev; done = false }) refl)

Reach-IsConsistent_example : IsConsistent one_waiting
Reach-IsConsistent_example = Reach-IsConsistent two_limits Reach-one_waiting

Reach-drained_example :
    (given_back.limiter.global_in_use ≡ 0)
    × ((k : Bytes) → k ≢ [] → lookup k given_back.limiter.per_target ≡ none)
Reach-drained_example = Reach-drained two_limits Reach-given_back refl

Reach-IsBlocked_example : All (IsBlocked one_waiting.limiter) one_waiting.waiters
Reach-IsBlocked_example = Reach-IsBlocked two_limits Reach-one_waiting

release_makes_room_example :
    (can_acquire_locked dev (release_func dev false one_waiting.limiter) ≡ true)
    × All (λ w. w.channel < (release_func dev false one_waiting.limiter).notify) one_waiting.waiters
release_makes_room_example =
    release_makes_room two_limits [] [] (record { key = dev; done = false }) Reach-one_waiting refl
      refl

abbrev two_entries : Map Bytes
two_entries = (codes "type", codes "sync") ∷ (codes "service", []) ∷ []

two_entries-HasUniqueKeys : HasUniqueKeys two_entries
unfolding lookup bytes_eq
two_entries-HasUniqueKeys = (refl, (refl, tt))

two_entries-HasShortEntries : HasShortEntries two_entries
two_entries-HasShortEntries = omega arith

decode_simple_map-encode_simple_map_example :
    (d : Map Bytes) × (decode_simple_map (encode_simple_map two_entries) ≡ MapResult.ok d)
    × ((j : Bytes) → lookup j d ≡ lookup j two_entries)
decode_simple_map-encode_simple_map_example =
    decode_simple_map-encode_simple_map two_entries two_entries-HasUniqueKeys
      two_entries-HasShortEntries

decode_simple_map-ne-stuck_example : decode_simple_map (0 ∷ 0 ∷ 0 ∷ 9 ∷ 1 ∷ []) ≢ MapResult.stuck
decode_simple_map-ne-stuck_example = decode_simple_map-ne-stuck (0 ∷ 0 ∷ 0 ∷ 9 ∷ 1 ∷ [])

abbrev ping : Request
ping = record {
  request_id = 7;
  request_class = codes "Ping";
  header = [];
  content = 78 ∷ [];
  codec = 0;
  timeout = pos 3000000000;
  max_response_bytes = pos 0;
}

ping-FitsFrame : FitsFrame ping
unfolding encode_simple_map
ping-FitsFrame = record {
  id_set = omega arith;
  id_fits = omega arith;
  class_set = λ e. cc;
  class_fits = omega arith;
  header_fits = omega arith;
  content_fits = omega arith;
  codec_fits = omega arith;
}

view_request-encode_request_example :
    (frame : Bytes) × (encode_request ping ≡ FrameResult.ok frame)
    × ((rest : Bytes)
        → view_request (frame ++ rest) ≡ record {
          request_id = 7;
          codec = codec_or_default 0;
          timeout_ms = duration_milliseconds (pos 3000000000);
          request_class = codes "Ping";
          header_bytes = encode_simple_map [];
          content = 78 ∷ [];
          behind = rest;
        })
view_request-encode_request_example = view_request-encode_request ping ping-FitsFrame

empty_decodes : decode_simple_map [] ≡ MapResult.ok []
unfolding decode_simple_map decode_entries
empty_decodes = refl

abbrev answer : Bytes
answer = response_frame 7 0 (codes "Pong") [] (78 ∷ []) ++ (1 ∷ 2 ∷ [])

abbrev answer_read : Response
answer_read = record {
  protocol_code = 1;
  frame_type = 0;
  cmd_code = 2;
  cmd_version = 1;
  request_id = 7;
  codec = 1;
  response_status = 0;
  response_class = codes "Pong";
  header = [];
  content = 78 ∷ [];
  raw = response_frame 7 0 (codes "Pong") [] (78 ∷ []);
}

read_response-response_frame_example :
    read_response_with_limit answer (pos 64) ≡ FrameResult.ok answer_read
read_response-response_frame_example =
    read_response-response_frame 7 0 (codes "Pong") [] (78 ∷ []) (1 ∷ 2 ∷ []) (pos 64) []
      (omega arith) (omega arith) (omega arith) (omega arith) (omega arith) (omega arith)
      empty_decodes

read_response-bounded_example : length answer_read.raw ≤ 20 + limit_or_default (pos 64)
read_response-bounded_example =
    read_response-bounded answer (pos 64) {r = answer_read} read_response-response_frame_example

abbrev no_target : Config
no_target = record {
  mode = [];
  direct_url = [];
  protocol = [];
  serialization = [];
  unique_id = [];
  timeout_ms = pos 0;
  connect_timeout_ms = pos 0;
}

abbrev idle : ℕ → Session ℕ
idle used = record {
  id = [];
  project_root = [];
  target = no_target;
  profile = [];
  created_at = 0;
  last_plan = none;
  plans = [];
  last_used = used;
}

abbrev small_store : SessionStore ℕ
small_store = record {
  ttl = pos 100;
  cap = pos 2;
  max_plan_bytes = pos 50;
  sessions = (codes "a", idle 5) ∷ (codes "b", idle 3) ∷ [];
}

create-within_cap_example :
    (length (create 9 (codes "c") (idle 0) small_store).0.sessions ≤ 2)
    × (lookup (codes "c") (create 9 (codes "c") (idle 0) small_store).0.sessions
        ≡ some (create 9 (codes "c") (idle 0) small_store).1)
create-within_cap_example =
    create-within_cap 9 (codes "c") (idle 0) small_store (omega arith) ((λ e. cc), ((λ e. cc), tt))

one_session-AreBounded : AreBounded ((codes "a", idle 5) ∷ [])
unfolding lookup
one_session-AreBounded k s e = elim (Bool-cases (bytes_eq (codes "a") k)) [
  | inl same ↦
      subst IsBounded (some-injective (idle 5) s (rw same at e))
        (record { within_history = omega arith; mirrors = inl refl })
  | inr other ↦ absurd (cc (rw other at e))
]

abbrev one_session : SessionStore ℕ
one_session = record small_store { sessions = (codes "a", idle 5) ∷ [] }

capture_plan-AreBounded_example :
    AreBounded (capture_plan (λ n. some n) 9 (codes "p") (codes "a") 40 one_session).0.sessions
capture_plan-AreBounded_example =
    capture_plan-AreBounded (λ n. some n) 9 (codes "p") (codes "a") 40 one_session
      one_session-AreBounded

captured_forty :
    (capture_plan (λ n. some n) 9 (codes "p") (codes "a") 40 one_session).1.is_captured ≡ true
unfolding capture_plan lookup bytes_eq
captured_forty = refl

plan_by_id-capture_plan_example :
    (plan_by_id
        (codes "a")
        (codes "p")
        (capture_plan (λ n. some n) 9 (codes "p") (codes "a") 40 one_session).0
      ≡ some (record { id = codes "p"; captured_at = 9; plan = 40 }))
    × (last_plan_of (
          lookup
            (codes "a")
            (capture_plan (λ n. some n) 9 (codes "p") (codes "a") 40 one_session).0.sessions)
        ≡ some 40)
plan_by_id-capture_plan_example =
    plan_by_id-capture_plan (λ n. some n) 9 (codes "p") (codes "a") 40 one_session captured_forty

abbrev umlaut : List Bytes
umlaut = (b'a' ∷ []) ∷ (0xc3 ∷ 0xa4 ∷ []) ∷ []

umlaut-AreRunes : AreRunes umlaut
unfolding is_rune seq_len
umlaut-AreRunes = (refl, (refl, tt))

read_chunked_string-write_string_example :
    (written : Bytes) × (write_string (concat umlaut) [] ≡ WireResult.ok written)
    × ((rest : Bytes)
        → (Result.◌>>=◌ (read_byte (written ++ rest)) (λ p. read_chunked_string 16 p.0 p.1))
          ≡ WireResult.ok (concat umlaut, rest))
read_chunked_string-write_string_example =
    read_chunked_string-write_string 16 umlaut umlaut-AreRunes (omega arith) (omega arith)

read_int32-write_int_example :
    read_int32 (drop 1 (write_int (negsuc 4) []) ++ (9 ∷ [])) ≡ WireResult.ok (negsuc 4, 9 ∷ [])
read_int32-write_int_example = read_int32-write_int (negsuc 4) (9 ∷ []) (omega arith) (omega arith)

read_int64-write_long_example :
    read_int64 (drop 1 (write_long (negsuc 4) []) ++ (9 ∷ [])) ≡ WireResult.ok (negsuc 4, 9 ∷ [])
read_int64-write_long_example =
    read_int64-write_long (negsuc 4) (9 ∷ []) (omega arith) (omega arith)

abbrev with_url : Bytes → Config
with_url url = record no_target { direct_url = url }

resolve_endpoint-first_example :
    resolve_endpoint (no_target ∷ (with_url (codes " a:1 ") ∷ (with_url (codes "b:2") ∷ [])))
    ≡ trim_space (codes " a:1 ")
resolve_endpoint-first_example =
    resolve_endpoint-first (no_target ∷ []) (with_url (codes "b:2") ∷ []) (with_url (codes " a:1 "))
      ((unfold trim_space in refl), tt) (unfold trim_space in refl)

resolve_text-first_example :
    resolve_text
      (λ c. c.direct_url)
      (no_target ∷ (with_url (codes "a:1") ∷ (with_url (codes "b:2") ∷ [])))
    ≡ codes "a:1"
resolve_text-first_example =
    resolve_text-first (λ c. c.direct_url) (no_target ∷ []) (with_url (codes "b:2") ∷ [])
      (with_url (codes "a:1")) ((unfold trim_space in refl), tt) (unfold trim_space in refl)

abbrev no_input : Input
no_input = record {
  service = [];
  direct_url = codes "bolt://dev";
  protocol = [];
  serialization = [];
  unique_id = [];
  timeout_ms = pos 0;
  connect_timeout_ms = pos 0;
  profile = [];
}

abbrev no_policy : PolicyConfig
no_policy = record { allowed_services = []; allowed_services_set = false }

abbrev no_sources : Sources
no_sources = record {
  env = no_target;
  project = no_target;
  project_local = no_target;
  project_policy = no_policy;
  project_local_policy = no_policy;
  project_invocation_properties = [];
  project_local_invocation_properties = [];
  project_root = [];
  config_errors = [];
  project_profiles = [];
  project_local_profiles = [];
  default_profile = [];
  project_profile_invocation_properties = [];
  project_local_profile_invocation_properties = [];
}

no_profile_error : (resolve no_input no_sources).profile_error ≡ false
unfolding resolve resolve_active_profile trim_space
no_profile_error = refl

resolve-IsComplete_example : IsComplete (resolve no_input no_sources).target
resolve-IsComplete_example = resolve-IsComplete no_input no_sources no_profile_error

map_of_names : placeholder (codes "java.util.Map<K,V>[]") ≡ mapping
unfolding placeholder normalize primitives string_like bool_like decimal_like number_like date_like
    map_bases contains bytes_eq
map_of_names = refl

classify-placeholder_example : classify 0 (codes "java.util.Map<K,V>[]") none ≡ some container
classify-placeholder_example =
    classify-placeholder 0 (codes "java.util.Map<K,V>[]") none (inr map_of_names)

read_chunked_string-ne-stuck_example :
    read_chunked_string 16 b's' (0 ∷ 1 ∷ b'a' ∷ b'S' ∷ []) ≢ WireResult.stuck
read_chunked_string-ne-stuck_example =
    read_chunked_string-ne-stuck 16 b's' (0 ∷ 1 ∷ b'a' ∷ b'S' ∷ [])
