-- ===== src/Io/Routes.antt =====
-- modules/io/src/netapp.cpp and modules/io/include/rmvl/io/netapp.hpp: the patterns of routes and the
-- router. std::regex is a parameter: what the groups of an expression hold, where a path matches it.
pub mod Params
pub mod Escapes
use rmvl.Prelude.{
  Bool, List, Option, [], drop, if◌then◌else◌, leb, length, none, not, some, suc, zero, ℕ, ◌&&◌,
  ◌++◌, ◌+◌, ◌==◌, ◌>>=◌, ◌||◌, ◌∷◌,
}
use rmvl.Bytes.{Bytes, codes, bytes_eq, slice}
use rmvl.Dict.{Dict, put}
use rmvl.Core.Str.{search, contains}
use rmvl.Io.Http.{Request, Response}

abbrev pub special : Bytes
special = codes "/.*+?{}[]\\|()^$"

-- _updateRegexPattern.
unfoldable pub escape : Bytes → Bytes
escape [] = []
escape (c ∷ literal) = if contains special c then 92 ∷ c ∷ escape literal else c ∷ escape literal

abbrev is_alnum : ℕ → Bool
is_alnum c = (leb 48 c && leb c 57) || ((leb 65 c && leb c 90) || (leb 97 c && leb c 122))

-- The size of the name at the front: '/' is no letter.
unfoldable pub param_size : Bytes → ℕ
param_size [] = 0
param_size (c ∷ s) = if not (c == 47) && is_alnum c then suc (param_size s) else 0

-- The expression, without its ends, and the names. `none`: the loop has not ended.
unfoldable pub compile : ℕ → Bytes → Option (Bytes × List Bytes)
compile zero pattern = none
compile (suc rounds) [] = some ([], [])
compile (suc rounds) (c ∷ pattern) = elim (search (codes ":") (c ∷ pattern) 0) [
  | none ↦ some (escape (c ∷ pattern), [])
  | some param_start ↦
      let after = drop (param_start + 1) (c ∷ pattern) in
      compile rounds (drop (param_size after) after) >>= λ (regex, names). some (
        escape (slice (c ∷ pattern) 0 param_start) ++ (codes "([^/]+)" ++ regex),
        slice after 0 (param_size after) ∷ names,
      )
]

pub record RoutePattern : Type 0 where
  pub pattern : Bytes
  pub param_names : List Bytes
  pub matcher : Bytes

unfoldable pub route_pattern : Bytes → Option RoutePattern
route_pattern pattern = compile (length pattern + 1) pattern >>= λ (regex, names).
    some (record {
      pattern = pattern;
      param_names = names;
      matcher = codes "^" ++ (regex ++ codes "$");
    })

-- As many as there are names and groups.
unfoldable pub assign : List Bytes → List Bytes → Dict Bytes Bytes → Dict Bytes Bytes
assign (name ∷ names) (value ∷ values) params = assign names values (put name value params)
assign _ _ params = params

abbrev pub RouteHandler : Type 0
RouteHandler = Request → Response → Response

pub record RouteEntry : Type 0 where
  pub pattern : RoutePattern
  pub handler : RouteHandler

unfoldable pub route_entry : Bytes → RouteHandler → Option RouteEntry
route_entry pattern handler =
    route_pattern pattern >>= λ p. some (record { pattern = p; handler = handler })

-- The handlers of a WebSocket are coroutines, of which only the names are known here.
module _ (WebSocketHandler : Type 0) where
  pub record WsRouteEntry : Type 0 where
    pub pattern : RoutePattern
    pub handler : WebSocketHandler

  pub record Router : Type 0 where
    pub gets : List RouteEntry
    pub posts : List RouteEntry
    pub heads : List RouteEntry
    pub deletes : List RouteEntry
    pub options : List RouteEntry
    pub wss : List WsRouteEntry

  abbrev append_entry : Bytes → RouteHandler → List RouteEntry → Option (List RouteEntry)
  append_entry uri handler entries =
      route_entry uri handler >>= λ entry. some (entries ++ (entry ∷ []))

  unfoldable pub get : Bytes → RouteHandler → Router → Option Router
  get uri handler r = append_entry uri handler r.gets >>= λ es. some (record r { gets = es })

  unfoldable pub post : Bytes → RouteHandler → Router → Option Router
  post uri handler r = append_entry uri handler r.posts >>= λ es. some (record r { posts = es })

  unfoldable pub head : Bytes → RouteHandler → Router → Option Router
  head uri handler r = append_entry uri handler r.heads >>= λ es. some (record r { heads = es })

  unfoldable pub del : Bytes → RouteHandler → Router → Option Router
  del uri handler r = append_entry uri handler r.deletes >>= λ es. some (record r { deletes = es })

  unfoldable pub options : Bytes → RouteHandler → Router → Option Router
  options uri handler r =
      append_entry uri handler r.options >>= λ es. some (record r { options = es })

  unfoldable pub ws : Bytes → WebSocketHandler → Router → Option Router
  ws uri handler r = route_pattern uri >>= λ p.
      some (record r { wss = r.wss ++ (record { pattern = p; handler = handler } ∷ []) })

module _ (regex_match : Bytes → Bytes → Option (List Bytes)) where
  unfoldable pub match_route : RoutePattern → Bytes → Dict Bytes Bytes → Option (Dict Bytes Bytes)
  match_route p path params =
      regex_match p.matcher path >>= λ groups. some (assign p.param_names groups params)

  -- _handle: the first entry that matches.
  unfoldable pub handle : List RouteEntry → Request → Response → Request × Response
  handle [] req res = (req, res)
  handle (entry ∷ entries) req res = elim (match_route entry.pattern req.uri req.params) [
    | none ↦ handle entries req res
    | some params ↦ let req' = record req { params = params } in (req', entry.handler req' res)
  ]
