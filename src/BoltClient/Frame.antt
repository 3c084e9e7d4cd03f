-- ===== src/BoltClient/Frame.antt =====
-- internal/boltclient/client.go: EncodeRequest and ReadResponseWithLimit. A connection is the bytes
-- that it delivers up to its end; `Invoke` sends the one and reads the other.
use sofarpc_cli.BoltClient.SimpleMap.{MapResult, decode_simple_map, encode_simple_map}
use sofarpc_cli.Prelude.{
  Bytes, drop, if◌then◌else◌, is_empty, length, ltb, not, take, ℕ, ◌%◌, ◌++◌, ◌+◌, ◌/◌, ◌==◌, ◌^◌,
  ◌∷◌,
}
use sofarpc_cli.Prelude.BigEndian.{be16, be32, byte_at, u16_at, u32_at}
use sofarpc_cli.Prelude.Int.{ltb_ℤ, pos, pos_part, ℤ}
use sofarpc_cli.Prelude.Map.{Map}

pub record Request : Type 0 where
  pub request_id : ℕ
  pub request_class : Bytes
  pub header : Map Bytes
  pub content : Bytes
  pub codec : ℕ
  pub timeout : ℤ
  pub max_response_bytes : ℤ

pub record Response : Type 0 where
  pub protocol_code : ℕ
  pub frame_type : ℕ
  pub cmd_code : ℕ
  pub cmd_version : ℕ
  pub request_id : ℕ
  pub codec : ℕ
  pub response_status : ℕ
  pub response_class : Bytes
  pub header : Map Bytes
  pub content : Bytes
  pub raw : Bytes

pub data FrameError : Type 0 where
  request_id_required request_class_required short_header bad_protocol bad_type : FrameError
  bad_command bad_version bad_codec body_too_long short_body bad_header : FrameError
  request_id_mismatch : FrameError

pub data FrameResult {ℓ} (A : Type ℓ) : Type ℓ where
  ok : A → FrameResult A
  err : FrameError → FrameResult A

-- nanoseconds to milliseconds, as a uint32
unfoldable pub duration_milliseconds : ℤ → ℕ
duration_milliseconds timeout =
    if ltb_ℤ (pos 0) timeout then pos_part timeout / 1000000 % 2 ^ 32 else 0

abbrev pub codec_or_default : ℕ → ℕ
codec_or_default codec = if codec == 0 then 1 else codec

-- The fixed 22 bytes, and the three parts that they announce.
unfoldable pub encode_request : Request → FrameResult Bytes
encode_request req =
    let class_bytes = req.request_class in
    let header_bytes = encode_simple_map req.header in
    if req.request_id == 0
    then err request_id_required
    else if is_empty req.request_class
    then err request_class_required
    else ok (
        1
        ∷ 1
        ∷ (be16 1
            ++ (1
                ∷ (be32 req.request_id
                    ++ (codec_or_default req.codec
                        ∷ (be32 (duration_milliseconds req.timeout)
                            ++ (be16 (length class_bytes)
                                ++ (be16 (length header_bytes)
                                    ++ (be32 (length req.content)
                                        ++ (class_bytes ++ (header_bytes ++ req.content)))))))))))

-- `maxBodyBytes <= 0` takes the default of 16 MiB
abbrev pub limit_or_default : ℤ → ℕ
limit_or_default n = if ltb_ℤ (pos 0) n then pos_part n else 16777216

abbrev pub class_len : Bytes → ℕ
class_len fixed = u16_at 12 fixed

abbrev pub header_len : Bytes → ℕ
header_len fixed = u16_at 14 fixed

abbrev pub body_len : Bytes → ℕ
body_len fixed = class_len fixed + header_len fixed + u32_at 16 fixed

abbrev response_of : Bytes → Bytes → Map Bytes → Response
response_of fixed body header = record {
  protocol_code = byte_at 0 fixed;
  frame_type = byte_at 1 fixed;
  cmd_code = u16_at 2 fixed;
  cmd_version = byte_at 4 fixed;
  request_id = u32_at 5 fixed;
  codec = byte_at 9 fixed;
  response_status = u16_at 10 fixed;
  response_class = take (class_len fixed) body;
  header = header;
  content = drop (class_len fixed + header_len fixed) body;
  raw = fixed ++ body;
}

abbrev with_header : Bytes → Bytes → MapResult (Map Bytes) → FrameResult Response
with_header fixed body (MapResult.ok header) = ok (response_of fixed body header)
with_header fixed body _ = err bad_header

-- the part behind the checks of the fixed header
unfoldable pub read_body : Bytes → Bytes → ℕ → FrameResult Response
read_body fixed rest limit =
    let body = take (body_len fixed) rest in
    if ltb limit (body_len fixed)
    then err body_too_long
    else if ltb (length rest) (body_len fixed)
    then err short_body
    else with_header fixed body
        (decode_simple_map (take (header_len fixed) (drop (class_len fixed) body)))

unfoldable pub read_response_with_limit : Bytes → ℤ → FrameResult Response
read_response_with_limit conn max_body_bytes =
    let fixed = take 20 conn in
    if ltb (length conn) 20
    then err short_header
    else if not (byte_at 0 fixed == 1)
    then err bad_protocol
    else if not (byte_at 1 fixed == 0)
    then err bad_type
    else if not (u16_at 2 fixed == 2)
    then err bad_command
    else if not (byte_at 4 fixed == 1)
    then err bad_version
    else if not (byte_at 9 fixed == 1)
    then err bad_codec
    else read_body fixed (drop 20 conn) (limit_or_default max_body_bytes)

-- `Invoke`, on a connection that takes the whole frame: what it sends, and what it makes of the
-- answer.
unfoldable pub check_request_id : Request → FrameResult Response → FrameResult Response
check_request_id req (ok resp) =
    if resp.request_id == req.request_id then ok resp else err request_id_mismatch
check_request_id req (err e) = err e

unfoldable pub invoke : Request → Bytes → FrameResult (Bytes × FrameResult Response)
invoke req answer = elim (encode_request req) [
  | err e ↦ err e
  | ok frame ↦
      ok (frame, check_request_id req (read_response_with_limit answer req.max_response_bytes))
]
