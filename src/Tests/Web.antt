-- ===== src/Tests/Web.antt =====
-- modules/io on concrete connections: frames, requests, routes and answers.
use rmvl.Prelude.{
  Ends, List, Option, [], ap, arith, false, length, none, refl, some, true, ℕ, ◌++◌, ◌∷◌, ◌≡◌,
}
use rmvl.Bytes.{Bytes, codes, bytes_eq, slice}
use rmvl.Core.Str.{starts_with, search, find_text}
use rmvl.Io.Http.{get_method_from, ascii_icontains, Request, no_request, no_response, post_method}
use rmvl.Io.Http.Client.{generate_client, plain_text, generate_client_lem}
use rmvl.Io.Http.Requests.{parse_request, request_line, request_query, request_heads}
use rmvl.Io.Http.Boundary.{
  get_http_request_boundary, scan_lines, with_content, read_http_request, read_until,
}
use rmvl.Io.Http.Boundary.Stable.{boundary-append}
use rmvl.Io.Http.Boundary.Reading.{read_http_request_lem, read_until-Ends}
use rmvl.Io.Routes.{RouteEntry}
use rmvl.Io.Http.Responses.{send}
use rmvl.Io.Routes.{match_route, assign}
use rmvl.Io.Webapp.{Webapp, handle_client, bad_request, run_middleware, is_ws_upgrade, is_get}
use rmvl.Io.Webapp.Answers.{Gives, closing, or_page, handle_client-first, handle_client-unmatched}
use rmvl.Io.Websocket.Frames.{send_frame, recv}
use rmvl.Io.Websocket.Frames.RoundTrip.{frame, IsReceived, recv-frame, recv-send_frame}
use rmvl.Io.Websocket.Frames.Closed.{recv_closed}

abbrev key : Bytes
key = 1 ∷ 2 ∷ 3 ∷ 4 ∷ []

abbrev hello : Bytes
hello = codes "hello"

abbrev masked : Bytes
masked = frame (some key) hello

recv-frame_example : IsReceived hello (recv 1 (masked ∷ []))
recv-frame_example =
    recv-frame 1 (some key) hello [] masked [] (omega arith) refl (omega arith) (omega arith) refl
      tt

recv-send_frame_example :
    (send_frame hello ≡ frame none hello)
    × IsReceived hello (recv 2 ((129 ∷ 5 ∷ []) ∷ (hello ++ codes "x") ∷ []))
unfolding send_frame
recv-send_frame_example =
    recv-send_frame 2 hello (codes "x") (129 ∷ 5 ∷ []) ((hello ++ codes "x") ∷ []) (omega arith)
      (omega arith) (omega arith) refl (omega arith, tt)

recv_closed_example : recv 1000 ((129 ∷ 254 ∷ 0 ∷ []) ∷ (200 ∷ 1 ∷ []) ∷ (2 ∷ []) ∷ []) ≡ none
recv_closed_example =
    recv_closed 1000 129 254 (0 ∷ []) ((200 ∷ 1 ∷ []) ∷ (2 ∷ []) ∷ []) (omega arith)

abbrev crlf_text : Bytes
crlf_text = 13 ∷ 10 ∷ []

abbrev request_text : Bytes
request_text = codes "GET / HTTP/1.1" ++ (crlf_text ++ crlf_text)

request_complete :
    get_http_request_boundary request_text
    ≡ some (record { size = some (length request_text); invalid = false })
unfolding get_http_request_boundary search starts_with scan_lines with_content find_text
request_complete = refl

read_http_request_lem_example :
    read_http_request
      (codes "GET / H" ∷ (codes "TTP/1.1" ++ (crlf_text ++ (crlf_text ++ codes "x"))) ∷ [])
    ≡ some request_text
read_http_request_lem_example =
    read_http_request_lem request_text (codes "x") _ request_complete refl
      (omega arith, (omega arith, tt))

read_until-Ends_example :
    Ends (read_until 10 [] (codes "GET / H" ∷ []))
    × (read_until 10 [] (codes "GET / H" ∷ []) ≡ read_http_request (codes "GET / H" ∷ []))
read_until-Ends_example = read_until-Ends 10 (codes "GET / H" ∷ []) (omega arith)

boundary-append_example :
    get_http_request_boundary (request_text ++ codes "more")
    ≡ some (record { size = some (length request_text); invalid = false })
boundary-append_example =
    boundary-append request_text (codes "more") _ request_complete
      (λ e. absurd (ground (arith, ap (λ b. b.size) e)))

abbrev parts : List (Bytes × Bytes)
parts = (codes "/a/", codes "x") ∷ []

generate_client_lem_example :
    generate_client post_method (codes "/p") 8080 (codes "h") [] hello
    ≡ plain_text post_method (codes "/p") (codes "h") hello
generate_client_lem_example =
    generate_client_lem post_method (codes "/p") (codes "h") hello 8080 (omega arith) (omega arith)

abbrev any_match : Bytes → Bytes → Option (List Bytes)
any_match regex path = some []

abbrev no_match : Bytes → Bytes → Option (List Bytes)
no_match regex path = none

abbrev entry : RouteEntry
entry = record {
  pattern = record { pattern = codes "/"; param_names = []; matcher = codes "^\\/$" };
  handler = λ req res. send (codes "hi") res;
}

abbrev app : Webapp ℕ
app = record {
  router = record {
    gets = entry ∷ [];
    posts = [];
    heads = [];
    deletes = [];
    options = entry ∷ [];
    wss = [];
  };
  mwfs = [];
}

abbrev parsed : Request
parsed = record no_request { uri = codes "/" }

request_parsed : parse_request request_text ≡ some parsed
unfolding parse_request search starts_with request_line find_text get_method_from slice
    request_query request_heads
request_parsed = refl

gives :
    (regex_match : Bytes → Bytes → Option (List Bytes))
    → Gives ℕ regex_match
        (codes "1")
        (codes "now")
        (λ _. true)
        app
        parsed
        request_text
        []
        (request_text ∷ [])
unfolding is_ws_upgrade is_get ascii_icontains
gives regex_match = record {
  complete = request_complete;
  given = refl;
  nonempty = (omega arith, tt);
  parsed = request_parsed;
  not_empty = refl;
  plain = refl;
}

handle_client-first_example :
    handle_client ℕ any_match (codes "1") (codes "now") (λ _. true) (request_text ∷ []) app
    ≡ some (
        some (
          closing ℕ any_match
            (codes "1")
            (codes "now")
            (λ _. true)
            app
            parsed
            (or_page ℕ any_match
              (codes "1")
              (codes "now")
              (λ _. true)
              app
              parsed
              parsed
              (send (codes "hi") no_response))))
unfolding match_route assign run_middleware
handle_client-first_example =
    handle_client-first ℕ any_match (codes "1") (codes "now") (λ _. true) app parsed request_text []
      (request_text ∷ []) [] [] entry [] (gives any_match) refl refl tt refl

handle_client-unmatched_example :
    handle_client ℕ no_match (codes "1") (codes "now") (λ _. true) (request_text ∷ []) app
    ≡ some (
        some (
          closing ℕ no_match
            (codes "1")
            (codes "now")
            (λ _. true)
            app
            parsed
            (record no_response { body = (bad_request parsed no_response).body })))
unfolding match_route
handle_client-unmatched_example =
    handle_client-unmatched ℕ no_match (codes "1") (codes "now") (λ _. true) app parsed request_text
      [] (request_text ∷ []) (gives no_match) (refl, tt) refl
