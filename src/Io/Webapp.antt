-- ===== src/Io/Webapp.antt =====
-- modules/io/src/netapp.cpp: Webapp, which answers the requests of a connection. What the sockets
-- take, the library's version and the date are parameters; a middleware that is given is a function,
-- and an empty std::function is `none`.
pub mod Answers
use rmvl.Prelude.{
  Bool, List, Option, [], false, if◌then◌else◌, none, some, true, ◌&&◌, ◌++◌, ◌==◌, ◌=?◌, ◌>>=◌,
  ◌∷◌,
}
use rmvl.Bytes.{Bytes, codes, bytes_eq}
use rmvl.Dict.{Dict, put}
use rmvl.Io.Http.{
  HttpMethod, get_method, post_method, delete_method, head_method, Request, Response, no_response,
  find_header, ascii_iequal, ascii_icontains, get_str_from,
}
use rmvl.Io.Http.Requests.{parse_request}
use rmvl.Io.Http.Responses.{set_head, status, send, generate_response}
use rmvl.Io.Http.Boundary.{read_http_request}
use rmvl.Io.Websocket.{generate_accept_key}
use rmvl.Io.Routes.{
  RouteHandler, RouteEntry, route_entry, WsRouteEntry, Router, match_route, handle,
}

-- A C string ends at its first zero.
unfoldable pub c_string : Bytes → Bytes
c_string [] = []
c_string (c ∷ s) = if c == 0 then [] else c ∷ c_string s

unfoldable pub bad_request : Request → Response → Response
bad_request req res = record res {
  body =
      codes
        "<!DOCTYPE html><html lang=\"en\"><head><meta charset=\"utf-8\"><title>Error</title></head><body><pre>Cannot "
      ++ (get_str_from req.method
          ++ (codes " " ++ (c_string req.uri ++ codes "</pre></body></html>")));
}

unfoldable pub run_middleware : List RouteHandler → Request → Response → Response
run_middleware [] req res = res
run_middleware (mwf ∷ mwfs) req res = run_middleware mwfs req (mwf req res)

module _ (WebSocketHandler : Type 0) where
  pub record Webapp : Type 0 where
    pub router : Router WebSocketHandler
    pub mwfs : List RouteHandler

  unfoldable pub add_entries : Bytes → List RouteEntry → List RouteEntry → Option (List RouteEntry)
  add_entries url [] entries = some entries
  add_entries url (e ∷ es) entries = route_entry (url ++ e.pattern.pattern) e.handler >>= λ entry.
      add_entries url es (entries ++ (entry ∷ []))

  -- Webapp::use of a router.
  unfoldable pub use_router : Bytes → Router WebSocketHandler → Webapp → Option Webapp
  use_router url router app = do
    gets ← add_entries url router.gets app.router.gets
    posts ← add_entries url router.posts app.router.posts
    deletes ← add_entries url router.deletes app.router.deletes
    heads ← add_entries url router.heads app.router.heads
    some (record app {
      router = record app.router { gets = gets; posts = posts; deletes = deletes; heads = heads };
    })

  -- Webapp::use of a middleware: an empty one is an exception.
  unfoldable pub use_middleware : Option RouteHandler → Webapp → Option Webapp
  use_middleware none app = none
  use_middleware (some mwf) app = some (record app { mwfs = app.mwfs ++ (mwf ∷ []) })

  pub record ClientOutcome : Type 0 where
    pub written : Bytes
    pub upgraded : Option (WebSocketHandler × Request)
    pub closed : Bool

  module _ (regex_match : Bytes → Bytes → Option (List Bytes)) (version date : Bytes)
      (write : Bytes → Bool) where
    unfoldable pub route : Router WebSocketHandler → Request → Response → Request × Response
    route router req res = elim req.method [
      | get_method ↦ handle regex_match router.gets req res
      | post_method ↦ handle regex_match router.posts req res
      | delete_method ↦ handle regex_match router.deletes req res
      | head_method ↦ handle regex_match router.heads req res
      | _ ↦ (req, res)
    ]

    -- Routes, middleware, and the page for a request that none of them answers.
    unfoldable pub answer : Webapp → Request → Response
    answer app req =
        let (req', routed) = route app.router req no_response in
        let res = run_middleware app.mwfs req' routed in
        set_head (codes "Connection") (codes "close")
          (if res.state == 0 then bad_request req' res else res)

    unfoldable pub is_get : HttpMethod → Bool
    is_get method = elim method [ get_method ↦ true | _ ↦ false ]

    unfoldable pub is_ws_upgrade : Request → Bool
    is_ws_upgrade req =
        (is_get req.method && ascii_icontains req.connection (codes "upgrade"))
        && (elim (find_header req.heads (codes "Upgrade")) [
          | none ↦ false
          | some upgrade ↦ ascii_iequal upgrade (codes "websocket")
        ])

    -- The handler of the first route that matches, and the request with its parameters.
    unfoldable pub find_ws :
        List (WsRouteEntry WebSocketHandler) → Request → Option (WebSocketHandler × Request)
    find_ws [] req = none
    find_ws (entry ∷ entries) req =
        elim (match_route regex_match entry.pattern req.uri req.params) [
          | none ↦ find_ws entries req
          | some params ↦ some (entry.handler, record req { params = params })
        ]

    unfoldable pub handshake : Bytes → Response
    handshake key = set_head (codes "Sec-WebSocket-Accept") (generate_accept_key key) (
        set_head (codes "Connection") (codes "Upgrade")
          (set_head (codes "Upgrade") (codes "websocket") (status 101 no_response)))

    unfoldable pub refuse_upgrade : ClientOutcome
    refuse_upgrade = record {
      written =
          generate_response version date
            (send (codes "Bad Request: Invalid WebSocket Handshake") (status 400 no_response));
      upgraded = none;
      closed = false;
    }

    unfoldable pub upgrade : Webapp → Request → ClientOutcome
    upgrade app req = elim (find_ws app.router.wss req) [
      | none ↦ refuse_upgrade
      | some (handler, req') ↦ elim (find_header req.heads (codes "Sec-WebSocket-Key")) [
        | none ↦ refuse_upgrade
        | some key ↦
            let written = generate_response version date (handshake key) in
            record {
              written = written;
              upgraded = if write written then some (handler, req') else none;
              closed = false;
            }
      ]
    ]

    -- Inner `none`: nothing is answered. Outer `none`: the request's loops have not ended.
    unfoldable pub handle_client : List Bytes → Webapp → Option (Option ClientOutcome)
    handle_client chunks app = read_http_request chunks >>= λ request_str.
        if request_str =? []
        then some none
        else parse_request request_str >>= λ req. some (
            some (
              if is_ws_upgrade req then upgrade app req else record {
                written = generate_response version date (answer app req);
                upgraded = none;
                closed = true;
              }))
