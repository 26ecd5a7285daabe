-- ===== src/Broker/Handler/Middleware.antt =====
-- broker/handler/middleware.go: every request has an id.
use hackathon.Common.{ℕ, ◌≡◌, true, Option, none, some, List, ◌∷◌, length, arith}
use hackathon.Text.{Text, hex_encode, is_lower_hex, all_test}
use hackathon.Text.Laws.{hex_encode_lower, length-hex_encode}
use hackathon.Broker.Handler.{HeaderName, request_id_header, Response, bare}

-- io.ReadFull of 16 bytes, and the hexadecimal text.
abbrev encoded : {World : Type 0} → Option (List ℕ) × World → Option Text × World
encoded (none, w) = (none, w)
encoded (some b, w) = (some (hex_encode b), w)

unfoldable pub default_id_fn_with_reader :
    {World : Type 0} → (ℕ → World → Option (List ℕ) × World) → World → Option Text × World
default_id_fn_with_reader read_full w = encoded (read_full 16 w)

abbrev pub with_header : HeaderName → Text → Response → Response
with_header name value r = record r { headers = (name, value) ∷ r.headers }

abbrev pub tagged : Text → Option Response → Option Response
tagged id none = none
tagged id (some r) = some (with_header request_id_header id r)

abbrev pub after_id :
    {World : Type 0}
    → (Text → World → Option Response × World)
    → Option Text × World
    → Option Response × World
after_id handle (none, w) = (some (bare 500), w)
after_id handle (some id, w) = let (answer, w') = handle id w in (tagged id answer, w')

-- RequestIDMiddleware: without an id the request ends, else the handler runs with it.
unfoldable pub request_id_middleware :
    {World : Type 0}
    → (World → Option Text × World)
    → (Text → World → Option Response × World)
    → World
    → Option Response × World
request_id_middleware id_fn handle w = after_id handle (id_fn w)

-- What a reader of exact size gives is 32 lowercase hexadecimal digits.
pub default_id_format :
    {World : Type 0} (read_full : ℕ → World → Option (List ℕ) × World) (w w' : World)
    (bytes : List ℕ)
    → read_full 16 w ≡ (some bytes, w')
    → length bytes ≡ 16
    → (id : Text) × (default_id_fn_with_reader read_full w ≡ (some id, w'))
      × (length id ≡ 32)
      × (all_test is_lower_hex id ≡ true)
unfolding default_id_fn_with_reader
default_id_format read_full w w' bytes e n =
    (hex_encode bytes, rw e, omega (arith, length-hex_encode bytes), hex_encode_lower bytes)
