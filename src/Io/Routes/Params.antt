-- ===== src/Io/Routes/Params.antt =====
-- modules/io/src/netapp.cpp: the expression that a route's pattern becomes, and the route that runs.
use rmvl.Prelude.{All, List, Option, [], false, none, refl, some, true, ◌++◌, ◌==◌, ◌∷◌, ◌≡◌}
use rmvl.Bytes.{Bytes, codes, bytes_eq}
use rmvl.Dict.{Dict}
use rmvl.Core.Str.Parts.{IsFree}
use rmvl.Io.Http.{Request, Response}
use rmvl.Io.Routes.Escapes.{Item, group, chars}
use rmvl.Io.Routes.{escape, is_alnum, param_size, RouteEntry, match_route, handle}

-- A pattern is parts, which are a literal and a name each, and a literal at its end.
abbrev pub pattern_of : List (Bytes × Bytes) → Bytes → Bytes
pattern_of [] end = end
pattern_of ((literal, name) ∷ parts) end = literal ++ (58 ∷ (name ++ pattern_of parts end))

-- A literal has no colon in it, and a name is letters and digits, and ends where they end.
abbrev pub IsPattern : List (Bytes × Bytes) → Bytes → Type 0
IsPattern [] end = IsFree 58 end
IsPattern ((literal, name) ∷ parts) end =
    IsFree 58 literal
    × (All (λ c. (c == 47) ≡ false × (is_alnum c ≡ true)) name
        × ((param_size (pattern_of parts end) ≡ 0) × IsPattern parts end))

-- Literals with their special characters escaped, and a group for each name.
abbrev pub regex_of : List (Bytes × Bytes) → Bytes → Bytes
regex_of [] end = escape end
regex_of ((literal, name) ∷ parts) end = escape literal ++ (codes "([^/]+)" ++ regex_of parts end)

abbrev pub names_of : List (Bytes × Bytes) → List Bytes
names_of [] = []
names_of ((literal, name) ∷ parts) = name ∷ names_of parts

-- What the expression of a pattern has to say: the characters of its literals as they are, and a
-- group for each name.
abbrev pub items_of : List (Bytes × Bytes) → Bytes → List Item
items_of [] end = chars end []
items_of ((literal, name) ∷ parts) end = chars literal (group ∷ items_of parts end)

-- Of the routes in their order, the first one that matches the target answers the request, with the
-- parameters of the match, and no other one is run.
pub handle-first :
    (regex_match : Bytes → Bytes → Option (List Bytes)) (before after : List RouteEntry)
    (entry : RouteEntry) (req : Request) (res : Response) (params : Dict Bytes Bytes)
    → All (λ e. match_route regex_match e.pattern req.uri req.params ≡ none) before
    → match_route regex_match entry.pattern req.uri req.params ≡ some params
    → handle regex_match (before ++ (entry ∷ after)) req res
      ≡ (record req { params = params }, entry.handler (record req { params = params }) res)
unfolding handle
handle-first regex_match [] after entry req res params h k = rw (handle, k) refl
handle-first regex_match (e ∷ before) after entry req res params h k =
    rw (handle, h.0) (handle-first regex_match before after entry req res params h.1 k)

pub handle-none :
    (regex_match : Bytes → Bytes → Option (List Bytes)) (entries : List RouteEntry) (req : Request)
    (res : Response)
    → All (λ e. match_route regex_match e.pattern req.uri req.params ≡ none) entries
    → handle regex_match entries req res ≡ (req, res)
unfolding handle
handle-none regex_match [] req res h = refl
handle-none regex_match (e ∷ entries) req res h =
    rw (handle, h.0) (handle-none regex_match entries req res h.1)
