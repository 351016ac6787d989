-- ===== src/Hls/Http/Response.antt =====
-- crates/hls/src/http.rs: the answers as the bytes written, with the clock as the argument `now` in
-- seconds since 1970.
use ferricast.Base.{ℕ, ◌-◌, [], ◌∷◌, ◌++◌, Bool, true, false, if◌then◌else◌, length}
use ferricast.Text.{Bytes, codes, show}
use ferricast.Hls.Http.Calendar.{http_date}

abbrev pub crlf : Bytes
crlf = 13 ∷ 10 ∷ []

unfoldable pub write_cors : Bytes
write_cors =
    codes "Access-Control-Allow-Origin: *"
    ++ crlf
    ++ codes "Access-Control-Allow-Methods: GET, HEAD, OPTIONS"
    ++ crlf
    ++ codes "Access-Control-Allow-Headers: Range, Origin, Accept"
    ++ crlf
    ++ codes "Access-Control-Expose-Headers: Content-Length, Content-Range, Accept-Ranges"
    ++ crlf

cache_control : Bool → Bytes
cache_control true = codes "Cache-Control: public, max-age=31536000, immutable"
cache_control false = codes "Cache-Control: no-cache, no-store, must-revalidate"

accept_ranges : Bool → Bytes
accept_ranges true = codes "Accept-Ranges: bytes"
accept_ranges false = codes "Accept-Ranges: none"

connection : Bool → Bytes
connection true = codes "Connection: keep-alive" ++ crlf ++ codes "Keep-Alive: timeout=30"
connection false = codes "Connection: close"

unfoldable pub write_common : ℕ → Bytes → ℕ → Bool → Bool → Bool → Bytes
unfolding cache_control accept_ranges connection
write_common now content_type content_length cacheable range_supported keep_alive =
    codes "Date: "
    ++ http_date now
    ++ crlf
    ++ codes "Content-Type: "
    ++ content_type
    ++ crlf
    ++ codes "Content-Length: "
    ++ show content_length
    ++ crlf
    ++ cache_control cacheable
    ++ crlf
    ++ accept_ranges range_supported
    ++ crlf
    ++ connection keep_alive
    ++ crlf
    ++ write_cors

unfoldable pub ok_head : ℕ → Bytes → ℕ → Bool → Bool → Bool → Bytes
ok_head now content_type len cacheable range_supported keep_alive =
    codes "HTTP/1.1 200 OK"
    ++ crlf
    ++ write_common now content_type len cacheable range_supported keep_alive
    ++ crlf

abbrev pub when_sent : Bool → Bytes → Bytes
when_sent send_body body = if send_body then body else []

unfoldable pub write_ok : ℕ → Bytes → Bytes → Bool → Bool → Bool → Bool → Bytes
write_ok now content_type body send_body cacheable range_supported keep_alive =
    ok_head now content_type (length body) cacheable range_supported keep_alive
    ++ when_sent send_body body

unfoldable pub partial_head : ℕ → Bytes → ℕ → ℕ → ℕ → ℕ → Bool → Bytes
partial_head now content_type len start end' total keep_alive =
    codes "HTTP/1.1 206 Partial Content"
    ++ crlf
    ++ write_common now content_type len true true keep_alive
    ++ codes "Content-Range: bytes "
    ++ show start
    ++ codes "-"
    ++ show (end' - 1)
    ++ codes "/"
    ++ show total
    ++ crlf
    ++ crlf

unfoldable pub write_partial_content : ℕ → Bytes → Bytes → Bool → ℕ → ℕ → ℕ → Bool → Bytes
write_partial_content now content_type body send_body start end' total keep_alive =
    partial_head now content_type (length body) start end' total keep_alive
    ++ when_sent send_body body

unfoldable pub write_status : ℕ → ℕ → Bytes → Bytes → Bool → Bytes
write_status now code reason body keep_alive =
    codes "HTTP/1.1 "
    ++ show code
    ++ codes " "
    ++ reason
    ++ crlf
    ++ write_common now (codes "text/plain") (length body) false false keep_alive
    ++ crlf
    ++ body

unfoldable pub write_options : ℕ → Bool → Bytes
write_options now keep_alive =
    codes "HTTP/1.1 204 No Content"
    ++ crlf
    ++ write_common now (codes "text/plain") 0 false false keep_alive
    ++ crlf
