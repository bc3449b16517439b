-- ===== src/Io/Webapp/Answers.antt =====
-- modules/io/src/netapp.cpp: what the clients of a Webapp are answered.
use rmvl.Prelude.{
  All, Bool, List, Option, [], ap, false, if◌then◌else◌, length, none, refl, some, true, ◌++◌, ◌==◌,
  ◌=?◌, ◌∙◌, ◌∷◌, ◌≡◌,
}
use rmvl.Bytes.{Bytes, codes, bytes_eq}
use rmvl.Bytes.Chunks.{contents, IsNonempty}
use rmvl.Dict.{Dict}
use rmvl.Io.Http.{
  HttpMethod, get_method, post_method, put_method, delete_method, patch_method, head_method,
  options_method, trace_method, connect_method, unknown_method, Request, Response, no_response,
}
use rmvl.Io.Http.Requests.{parse_request}
use rmvl.Io.Http.Responses.{set_head, generate_response}
use rmvl.Io.Http.Boundary.{get_http_request_boundary}
use rmvl.Io.Http.Boundary.Reading.{read_http_request_lem}
use rmvl.Io.Routes.{RouteEntry, Router, match_route, handle}
use rmvl.Io.Routes.Params.{handle-first, handle-none}
use rmvl.Io.Webapp.{
  bad_request, run_middleware, Webapp, ClientOutcome, route, answer, is_ws_upgrade, handle_client,
}

-- The parameters that a client's request meets.
module _ (WebSocketHandler : Type 0) (regex_match : Bytes → Bytes → Option (List Bytes))
    (version date : Bytes) (write : Bytes → Bool) (app : Webapp WebSocketHandler)
    (req : Request) where
  abbrev Matches : Option (Dict Bytes Bytes) → RouteEntry → Type 0
  Matches params e = match_route regex_match e.pattern req.uri req.params ≡ params

  -- The connection gives a complete request, in chunks that are not empty, and the request is not
  -- one for a WebSocket.
  pub record Gives (request extra : Bytes) (chunks : List Bytes) : Type 0 where
    pub complete :
        get_http_request_boundary request
        ≡ some (record { size = some (length request); invalid = false })
    pub given : contents chunks ≡ request ++ extra
    pub nonempty : All IsNonempty chunks
    pub parsed : parse_request request ≡ some req
    pub not_empty : (request =? []) ≡ false
    pub plain : is_ws_upgrade WebSocketHandler regex_match version date write req ≡ false

  abbrev pub closing : Response → ClientOutcome WebSocketHandler
  closing res = record {
    written = generate_response version date (set_head (codes "Connection") (codes "close") res);
    upgraded = none;
    closed = true;
  }

  -- The page for a response that nothing has filled.
  abbrev pub or_page : Request → Response → Response
  or_page req' res = if res.state == 0 then bad_request req' res else res

  answered :
      (request extra : Bytes) (chunks : List Bytes) (req' : Request) (routed : Response)
      → Gives request extra chunks
      → route WebSocketHandler regex_match version date write app.router req no_response
        ≡ (req', routed)
      → handle_client WebSocketHandler regex_match version date write chunks app
        ≡ some (some (closing (or_page req' (run_middleware app.mwfs req' routed))))
  unfolding handle_client answer
  answered request extra chunks req' routed g h =
      rw
        (
          handle_client,
          read_http_request_lem request extra chunks g.complete g.given g.nonempty,
          g.not_empty,
          g.parsed,
          g.plain,
          h,
        )
        refl

  -- What route does for a method.
  abbrev route_by : Response → HttpMethod → Request × Response
  route_by res get_method = handle regex_match app.router.gets req res
  route_by res post_method = handle regex_match app.router.posts req res
  route_by res delete_method = handle regex_match app.router.deletes req res
  route_by res head_method = handle regex_match app.router.heads req res
  route_by res method = (req, res)

  route-by :
      (res : Response)
      → route WebSocketHandler regex_match version date write app.router req res
        ≡ route_by res req.method
  unfolding route
  route-by res = refl

  route-get :
      (res : Response)
      → req.method ≡ get_method
      → route WebSocketHandler regex_match version date write app.router req res
        ≡ handle regex_match app.router.gets req res
  route-get res get = route-by res ∙ ap (route_by res) get

  -- A complete GET request that is no WebSocket upgrade, on a connection whose chunks are not empty, is
  -- answered by the first route that matches its target, with the middleware run on its response,
  -- however the connection cuts the request.
  pub handle_client-first :
      (request extra : Bytes) (chunks : List Bytes) (before after : List RouteEntry)
      (entry : RouteEntry) (params : Dict Bytes Bytes)
      → Gives request extra chunks
      → req.method ≡ get_method
      → app.router.gets ≡ before ++ (entry ∷ after)
      → All (Matches none) before
      → Matches (some params) entry
      → handle_client WebSocketHandler regex_match version date write chunks app ≡ (
          let req' = record req { params = params } in
          some (
            some (
              closing
                (or_page req' (run_middleware app.mwfs req' (entry.handler req' no_response))))))
  handle_client-first request extra chunks before after entry params g get routes misses hit =
      let routed = handle-first regex_match before after entry req no_response params misses hit in
      let q = record req { params = params } in
      answered request extra chunks q (entry.handler q no_response) g (
        route-get no_response get
        ∙ (ap (λ es. handle regex_match es req no_response) routes ∙ routed))

  -- The routes that route reads for a method.
  abbrev pub routes_of : HttpMethod → Router WebSocketHandler → List RouteEntry
  routes_of get_method r = r.gets
  routes_of post_method r = r.posts
  routes_of delete_method r = r.deletes
  routes_of head_method r = r.heads
  routes_of method r = []

  route-none :
      (res : Response)
      → All (Matches none) (routes_of req.method app.router)
      → route WebSocketHandler regex_match version date write app.router req res ≡ (req, res)
  route-none res misses = route-by res ∙ none_of req.method misses
    where
      none_of :
          (m : HttpMethod)
          → All (Matches none) (routes_of m app.router)
          → route_by res m ≡ (req, res)
      none_of get_method h = handle-none regex_match app.router.gets req res h
      none_of post_method h = handle-none regex_match app.router.posts req res h
      none_of delete_method h = handle-none regex_match app.router.deletes req res h
      none_of head_method h = handle-none regex_match app.router.heads req res h
      none_of put_method h = refl
      none_of patch_method h = refl
      none_of options_method h = refl
      none_of trace_method h = refl
      none_of connect_method h = refl
      none_of unknown_method h = refl

  -- Without middleware, a complete request that is no WebSocket upgrade and that no route of its method
  -- matches, as any request with OPTIONS is, whatever routes there are for it, on a connection whose
  -- chunks are not empty, is answered with the page of bad_request in a response whose status is 0 and
  -- has no message.
  pub handle_client-unmatched :
      (request extra : Bytes) (chunks : List Bytes)
      → Gives request extra chunks
      → All (Matches none) (routes_of req.method app.router)
      → app.mwfs ≡ []
      → handle_client WebSocketHandler regex_match version date write chunks app
        ≡ some (some (closing (record no_response { body = (bad_request req no_response).body })))
  unfolding bad_request run_middleware
  handle_client-unmatched request extra chunks g misses plain_app =
      answered request extra chunks req no_response g (route-none no_response misses)
      ∙ rw plain_app refl
