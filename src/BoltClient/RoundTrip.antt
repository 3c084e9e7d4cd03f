-- ===== src/BoltClient/RoundTrip.antt =====
-- The frames against the layout of BOLT v1: what a server reads from a request, and what the client
-- reads from a response.
use sofarpc_cli.Prelude.Map.{Map}
use sofarpc_cli.BoltClient.Frame.{
  Request, codec_or_default, duration_milliseconds, encode_request, ok, read_response_with_limit,
  limit_or_default, class_len, read_body, header_len, body_len, Response,
}
use sofarpc_cli.BoltClient.SimpleMap.{encode_simple_map, MapResult, decode_simple_map}
use sofarpc_cli.Prelude.{
  Bytes, [], append_assoc, arith, drop, drop-append, length, take, take-append, ℕ, ◌++◌, ◌<◌, ◌^◌,
  ◌∷◌, ◌≡◌, ◌≢◌, length-append, ◌+◌, refl, ◌≤◌, ◌∙◌, ltb, false, length-take_le,
}
use sofarpc_cli.Prelude.BigEndian.{be16, be32, byte_at, u16_at, u32_at}
use sofarpc_cli.Prelude.Int.{ℤ}

-- A server's reading of a request frame by the lengths that the frame announces.
pub record RequestView : Type 0 where
  pub request_id : ℕ
  pub codec : ℕ
  pub timeout_ms : ℕ
  pub request_class : Bytes
  pub header_bytes : Bytes
  pub content : Bytes
  pub behind : Bytes

unfoldable pub view_request : Bytes → RequestView
view_request frame =
    let class_size = u16_at 14 frame in
    let header_size = u16_at 16 frame in
    let content_size = u32_at 18 frame in
    let body = drop 22 frame in
    record {
      request_id = u32_at 5 frame;
      codec = byte_at 9 frame;
      timeout_ms = u32_at 10 frame;
      request_class = take class_size body;
      header_bytes = take header_size (drop class_size body);
      content = take content_size (drop header_size (drop class_size body));
      behind = drop content_size (drop header_size (drop class_size body));
    }

-- The sizes that the length fields of the frame can hold.
pub record FitsFrame (req : Request) : Type 0 where
  pub id_set : req.request_id ≢ 0
  pub id_fits : req.request_id < 2 ^ 32
  pub class_set : req.request_class ≢ []
  pub class_fits : length req.request_class < 2 ^ 16
  pub header_fits : length (encode_simple_map req.header) < 2 ^ 16
  pub content_fits : length req.content < 2 ^ 32
  pub codec_fits : req.codec < 256

three_parts :
    (xs ys zs rest : Bytes)
    → (take (length xs) (xs ++ (ys ++ (zs ++ rest))) ≡ xs)
      × (take (length ys) (drop (length xs) (xs ++ (ys ++ (zs ++ rest)))) ≡ ys)
      × (drop (length ys) (drop (length xs) (xs ++ (ys ++ (zs ++ rest)))) ≡ zs ++ rest)
three_parts xs ys zs rest = (
  take-append xs (ys ++ (zs ++ rest)),
  rw (drop-append xs (ys ++ (zs ++ rest))) (take-append ys (zs ++ rest)),
  rw (drop-append xs (ys ++ (zs ++ rest))) (drop-append ys (zs ++ rest)),
)

duration_lt : (t : ℤ) → duration_milliseconds t < 2 ^ 32
unfolding duration_milliseconds
duration_lt t = ground arith

fixed_request : Request → Bytes → Bytes
fixed_request req body =
    1
    ∷ 1
    ∷ (be16 1
        ++ (1
            ∷ (be32 req.request_id
                ++ (codec_or_default req.codec
                    ∷ (be32 (duration_milliseconds req.timeout)
                        ++ (be16 (length req.request_class)
                            ++ (be16 (length (encode_simple_map req.header))
                                ++ (be32 (length req.content) ++ body))))))))

fixed_fields :
    (req : Request) (body : Bytes)
    → FitsFrame req
    → (u32_at 5 (fixed_request req body) ≡ req.request_id)
      × (u32_at 10 (fixed_request req body) ≡ duration_milliseconds req.timeout)
      × (u16_at 14 (fixed_request req body) ≡ length req.request_class)
      × (u16_at 16 (fixed_request req body) ≡ length (encode_simple_map req.header))
      × (u32_at 18 (fixed_request req body) ≡ length req.content)
unfolding fixed_request u32_at u16_at
fixed_fields req body f =
    (omega arith, omega (arith, duration_lt req.timeout), omega arith, omega arith, omega arith)

encode_request-fixed :
    (req : Request)
    → FitsFrame req
    → encode_request req
      ≡ ok (fixed_request req (req.request_class ++ (encode_simple_map req.header ++ req.content)))
unfolding encode_request fixed_request
encode_request-fixed req f = ground (arith, f.id_set, f.class_set)

append-tail : (xs ys zs rest : Bytes) → (xs ++ (ys ++ zs)) ++ rest ≡ xs ++ (ys ++ (zs ++ rest))
append-tail xs ys zs rest = simp append_assoc

view-fixed :
    (req : Request) (rest : Bytes)
    → FitsFrame req
    → view_request (
        fixed_request req
          (req.request_class ++ (encode_simple_map req.header ++ (req.content ++ rest))))
      ≡ record {
        request_id = req.request_id;
        codec = codec_or_default req.codec;
        timeout_ms = duration_milliseconds req.timeout;
        request_class = req.request_class;
        header_bytes = encode_simple_map req.header;
        content = req.content;
        behind = rest;
      }
unfolding view_request
view-fixed req rest f =
    let h = encode_simple_map req.header in
    let (id, time, cls, hdr, con) =
      fixed_fields req (req.request_class ++ (h ++ (req.content ++ rest))) f in
    let (one, two, three) = three_parts req.request_class h req.content rest in
    rw (id, time, cls, hdr, con)
      (unfold fixed_request byte_at in
        rw (one, two, three, take-append req.content rest, drop-append req.content rest))

-- A request whose id and class are set and whose parts fit their length fields is encoded, and a
-- server that reads the frame by its announced lengths, whatever follows it on the connection, gets
-- the id, the codec (1 for an unset one), the timeout in milliseconds modulo 2^32, the class, the encoded
-- header map and the content, and exactly the bytes behind the frame are left.
pub view_request-encode_request :
    (req : Request)
    → FitsFrame req
    → (frame : Bytes) × (encode_request req ≡ ok frame)
      × ((rest : Bytes)
          → view_request (frame ++ rest) ≡ record {
            request_id = req.request_id;
            codec = codec_or_default req.codec;
            timeout_ms = duration_milliseconds req.timeout;
            request_class = req.request_class;
            header_bytes = encode_simple_map req.header;
            content = req.content;
            behind = rest;
          })
view_request-encode_request req f =
    let body = req.request_class ++ (encode_simple_map req.header ++ req.content) in
    (
      fixed_request req body,
      encode_request-fixed req f,
      λ rest.
          rw
            (
              fixed-append req body rest,
              append-tail req.request_class (encode_simple_map req.header) req.content rest,
            )
            (view-fixed req rest f),
    )
  where
    fixed-append :
        (r : Request) (body rest : Bytes)
        → fixed_request r body ++ rest ≡ fixed_request r (body ++ rest)
    fixed-append r body rest = unfold fixed_request in refl

-- What a server writes in answer: a BOLT v1 response frame.
unfoldable pub response_frame : ℕ → ℕ → Bytes → Bytes → Bytes → Bytes
response_frame id status class_bytes header_bytes content =
    1
    ∷ 0
    ∷ (be16 2
        ++ (1
            ∷ (be32 id
                ++ (1
                    ∷ (be16 status
                        ++ (be16 (length class_bytes)
                            ++ (be16 (length header_bytes)
                                ++ (be32 (length content)
                                    ++ (class_bytes ++ (header_bytes ++ content))))))))))

body_take :
    (c h x rest : Bytes)
    → take (length c + length h + length x) (c ++ (h ++ (x ++ rest))) ≡ c ++ (h ++ x)
body_take c h x rest =
    let whole : c ++ (h ++ (x ++ rest)) ≡ (c ++ (h ++ x)) ++ rest = simp append_assoc in
    let size : length c + length h + length x ≡ length (c ++ (h ++ x)) =
      omega (arith, length-append c (h ++ x), length-append h x) in
    rw (whole, size) (take-append (c ++ (h ++ x)) rest)

drop_two : (c h x : Bytes) → drop (length c + length h) (c ++ (h ++ x)) ≡ x
drop_two c h x =
    let whole : c ++ (h ++ x) ≡ (c ++ h) ++ x = simp append_assoc in
    let size : length c + length h ≡ length (c ++ h) = omega (arith, length-append c h) in
    rw (whole, size) (drop-append (c ++ h) x)

fixed_response : ℕ → ℕ → ℕ → ℕ → ℕ → Bytes
fixed_response id status c h x =
    1 ∷ 0 ∷ (be16 2 ++ (1 ∷ (be32 id ++ (1 ∷ (be16 status ++ (be16 c ++ (be16 h ++ be32 x)))))))

read_body_lem :
    (fixed c h x rest : Bytes) (limit : ℕ) (m : Map Bytes)
    → class_len fixed ≡ length c
    → header_len fixed ≡ length h
    → u32_at 16 fixed ≡ length x
    → length c + length h + length x ≤ limit
    → decode_simple_map h ≡ MapResult.ok m
    → read_body fixed (c ++ (h ++ (x ++ rest))) limit
      ≡ ok (record {
        protocol_code = byte_at 0 fixed;
        frame_type = byte_at 1 fixed;
        cmd_code = u16_at 2 fixed;
        cmd_version = byte_at 4 fixed;
        request_id = u32_at 5 fixed;
        codec = byte_at 9 fixed;
        response_status = u16_at 10 fixed;
        response_class = c;
        header = m;
        content = x;
        raw = fixed ++ (c ++ (h ++ x));
      })
unfolding read_body
read_body_lem fixed c h x rest limit m ec eh ex le e =
    rw (ec, eh, ex, body_take c h x rest, drop-append c (h ++ x), take-append h x, e)
      (rw (fits, long, ec, eh, drop_two c h x, take-append c (h ++ x)))
  where
    fits : ltb limit (length c + length h + length x) ≡ false
    fits = ground arith

    long : ltb (length (c ++ (h ++ (x ++ rest)))) (length c + length h + length x) ≡ false
    long = ground (
      arith,
      length-append c (h ++ (x ++ rest)),
      length-append h (x ++ rest),
      length-append x rest,
    )

fixed_response_fields :
    (id status c h x : ℕ)
    → id < 2 ^ 32
    → status < 2 ^ 16
    → c < 2 ^ 16
    → h < 2 ^ 16
    → x < 2 ^ 32
    → (u32_at 5 (fixed_response id status c h x) ≡ id)
      × (u16_at 10 (fixed_response id status c h x) ≡ status)
      × (u16_at 12 (fixed_response id status c h x) ≡ c)
      × (u16_at 14 (fixed_response id status c h x) ≡ h)
      × (u32_at 16 (fixed_response id status c h x) ≡ x)
unfolding fixed_response u16_at u32_at
fixed_response_fields id status c h x hi hs hc hh hx =
    (omega arith, omega arith, omega arith, omega arith, omega arith)

-- A response frame that fits its length fields and the limit, and whose header bytes decode, is
-- read back whole, whatever follows it on the connection.
pub read_response-response_frame :
    (id status : ℕ) (c h x rest : Bytes) (limit : ℤ) (m : Map Bytes)
    → id < 2 ^ 32
    → status < 2 ^ 16
    → length c < 2 ^ 16
    → length h < 2 ^ 16
    → length x < 2 ^ 32
    → length c + length h + length x ≤ limit_or_default limit
    → decode_simple_map h ≡ MapResult.ok m
    → read_response_with_limit (response_frame id status c h x ++ rest) limit
      ≡ ok (record {
        protocol_code = 1;
        frame_type = 0;
        cmd_code = 2;
        cmd_version = 1;
        request_id = id;
        codec = 1;
        response_status = status;
        response_class = c;
        header = m;
        content = x;
        raw = response_frame id status c h x;
      })
unfolding response_frame read_response_with_limit byte_at u16_at fixed_response
read_response-response_frame id status c h x rest limit m hi hs hc hh hx hl e =
    let fixed = fixed_response id status (length c) (length h) (length x) in
    let (e5, e10, e12, e14, e16) =
      fixed_response_fields id status (length c) (length h) (length x) hi hs hc hh hx in
    rw (append-tail c h x rest, long)
      (read_body_lem fixed c h x rest (limit_or_default limit) m e12 e14 e16 hl e ∙ rw (e5, e10))
  where
    long :
        ltb
          (length (
            fixed_response id status (length c) (length h) (length x) ++ (c ++ (h ++ (x ++ rest)))))
          20
        ≡ false
    long = ground arith

-- Whatever the connection delivers, a response that is read took at most the 20 bytes of the fixed
-- header and the limit (16 MiB where none is set).
pub read_response-bounded :
    (conn : Bytes) (limit : ℤ) {r : Response}
    → read_response_with_limit conn limit ≡ ok r
    → length r.raw ≤ 20 + limit_or_default limit
unfolding read_response_with_limit read_body
read_response-bounded conn limit {r} e = ground (
  arith,
  length-append (take 20 conn) (take (body_len (take 20 conn)) (drop 20 conn)),
  length-take_le 20 conn,
  length-take_le (body_len (take 20 conn)) (drop 20 conn),
)
