-- ===== src/Io/Http/Client.antt =====
-- modules/io/src/netapp.cpp: the requests of a client (_generate and requests::request, of which the
-- coroutine version repeats the same operations). The resolution of a host and the exchange on the
-- connection are parameters; std::string members that are not set are empty.
use rmvl.Prelude.{
  Bool, Bool-cases, List, Option, [], append-nil, arith, if◌then◌else◌, inl, inr, length,
  length-append, ltb, none, not, refl, some, ℕ, ◌%◌, ◌&&◌, ◌++◌, ◌+◌, ◌/◌, ◌<◌, ◌==◌, ◌=?◌, ◌∷◌,
  ◌≡◌, ◌>>=◌,
}
use rmvl.Bytes.{Bytes, codes, bytes_eq, decimal, decimal_from}
use rmvl.Dict.{Dict, put}
use rmvl.Core.Str.{join}
use rmvl.Io.Http.{HttpMethod, Request, no_request, Response, no_response, get_str_from}
use rmvl.Io.Http.Requests.{
  crlf, head_line, head_lines, has_content_length, request_url, content_length_line,
  generate_request,
}
use rmvl.Io.Http.Responses.{parse_response}
use rmvl.Io.Http.Urls.{UrlParseInfo, parse_url}

unfoldable pub client_head : Bytes → Bytes → Request → Request
client_head key value req =
    if key =? codes "Host"
    then record req { host = value }
    else if key =? codes "Content-Type"
    then record req { content_type = value }
    else if key =? codes "Accept"
    then record req { accept = value }
    else if key =? codes "Accept-Language"
    then record req { accept_language = value }
    else if key =? codes "Connection"
    then record req { connection = value }
    else record req { heads = put key value req.heads }

unfoldable pub client_heads : Dict Bytes Bytes → Request → Request
client_heads [] req = req
client_heads ((key, value) ∷ heads) req = client_heads heads (client_head key value req)

-- The port is added to the host, which is then set again.
unfoldable pub add_port : ℕ → Request → Request
add_port port req =
    if not (port == 80) && not (port == 443)
    then record req { host = req.host ++ (codes ":" ++ decimal port) }
    else req

unfoldable pub generate_client : HttpMethod → Bytes → ℕ → Bytes → Dict Bytes Bytes → Bytes → Bytes
generate_client method full_path port hostname heads body =
    let begun = add_port port (record no_request { method = method; uri = full_path }) in
    let filled = record begun {
      host = hostname;
      connection = codes "close";
      content_type = codes "application/json";
    } in
    generate_request (record (client_heads heads filled) { body = body })

-- What each of the two texts of a failed exchange is.
abbrev pub failed_exchange : Bytes → Response
failed_exchange text = record no_response { message = text }

unfoldable pub full_path_of : UrlParseInfo → List Bytes → Bytes
full_path_of info querys =
    let all_querys = info.query ++ querys in
    elim all_querys [
      | [] ↦ info.path
      | q ∷ qs ↦ (info.path ++ codes "?") ++ join (q ∷ qs) (codes "&")
    ]

-- `exchange` writes to an address, its version of IP and a port, and reads what comes back; `none`
-- where the write fails.
module _ (parse_dns : Bytes → Bytes × Bool)
    (exchange : Bytes → Bool → ℕ → Bytes → Option Bytes) where
  unfoldable pub request :
      HttpMethod → Bytes → List Bytes → Dict Bytes Bytes → Bytes → Option Response
  request method url querys heads body = do
    info ← parse_url url
    let (ip, isv6) = parse_dns info.hostname
    let text = generate_client method (full_path_of info querys) info.port info.hostname heads body
    elim (exchange ip isv6 info.port text) [
      | none ↦ some (failed_exchange (codes "Connection Error"))
      | some response_str ↦
          if response_str =? []
          then some (failed_exchange (codes "No Response"))
          else parse_response response_str
    ]

-- The text that a request without heads of its own should be, for a host with a name.
abbrev pub plain_text : HttpMethod → Bytes → Bytes → Bytes → Bytes
plain_text method full_path hostname body =
    (get_str_from method ++ (codes " " ++ (full_path ++ (codes " HTTP/1.1" ++ crlf))))
    ++ ((codes "Host: " ++ (hostname ++ crlf))
        ++ ((codes "Content-Type: application/json" ++ crlf)
            ++ ((codes "Accept: */*" ++ crlf)
                ++ ((codes "Connection: close" ++ crlf)
                    ++ ((codes "Content-Length: " ++ (decimal (length body) ++ crlf))
                        ++ (crlf ++ body))))))

-- The port changes the host only.
add_port-host :
    (port : ℕ) (req : Request) → add_port port req ≡ record req { host = (add_port port req).host }
unfolding add_port
add_port-host port req = elim (Bool-cases (not (port == 80) && not (port == 443))) [
  | inl other ↦ rw other refl
  | inr usual ↦ rw usual refl
]

decimal-nonempty : (n : ℕ) → 0 < length (decimal n)
unfolding decimal decimal_from
decimal-nonempty n = elim (Bool-cases (ltb n 10)) [
  | inl small ↦ rw small (omega arith)
  | inr large ↦
      rw large (omega (arith, length-append (decimal_from 19 (n / 10)) ((48 + n % 10) ∷ [])))
]

head_line-filled :
    (name value : Bytes)
    → 0 < length value
    → head_line name value ≡ (name ++ codes ": ") ++ (value ++ crlf)
unfolding head_line
head_line-filled name [] h = absurd (omega arith)
head_line-filled name (c ∷ value) h = refl

-- A request without heads of its own, to a host with a name and with a body, is a line for the method
-- and the path, the heads Host, Content-Type, Accept, Connection and Content-Length, and the body. The
-- port is in none of them, whatever it is.
pub generate_client_lem :
    (method : HttpMethod) (full_path hostname body : Bytes) (port : ℕ)
    → 0 < length hostname
    → 0 < length body
    → generate_client method full_path port hostname [] body
      ≡ plain_text method full_path hostname body
unfolding generate_client client_heads generate_request request_url content_length_line
    has_content_length head_line head_lines
generate_client_lem method full_path [] body port named filled = absurd (omega arith)
generate_client_lem method full_path (c ∷ hostname) [] port named filled = absurd (omega arith)
generate_client_lem method full_path (c ∷ hostname) (d ∷ body) port named filled =
    rw
      (
        generate_client,
        add_port-host port (record no_request { method = method; uri = full_path }),
        append-nil full_path,
        head_line-filled (codes "Content-Length") (decimal (length (d ∷ body)))
            (decimal-nonempty (length (d ∷ body))),
      )
      refl
