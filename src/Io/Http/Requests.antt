-- ===== src/Io/Http/Requests.antt =====
-- modules/io/src/netapp.cpp: Request::parse and Request::generate. Outer `none`: a loop has not ended
-- after the rounds given, which are more than the characters.
pub mod Line
use rmvl.Prelude.{
  Bool, List, Option, [], drop, false, if◌then◌else◌, length, none, not, some, suc, zero, ℕ, ◌&&◌,
  ◌++◌, ◌+◌, ◌-◌, ◌==◌, ◌=?◌, ◌>>=◌, ◌||◌, ◌∷◌,
}
use rmvl.Bytes.{Bytes, codes, bytes_eq, slice, decimal}
use rmvl.Dict.{Dict, put}
use rmvl.Core.Str.{search, find_text, split, join}
use rmvl.Io.Http.{Request, no_request, ascii_iequal, get_method_from, get_str_from}

abbrev pub crlf : Bytes
crlf = 13 ∷ 10 ∷ []

-- `s.substr(off, count)`, where no count is npos.
unfoldable pub substr : Bytes → ℕ → Option ℕ → Bytes
substr s off none = drop off s
substr s off (some n) = slice s off n

-- The method and the target of the first line. A space that is missing is npos, and one more is 0.
unfoldable pub request_line : Bytes → Request → Request
request_line line req = elim (search (codes " ") line 0) [
  | none ↦ record req { method = get_method_from line; uri = line }
  | some method_end ↦ record req {
    method = get_method_from (slice line 0 method_end);
    uri = elim (find_text line (codes " ") (method_end + 1)) [
      | none ↦ drop (method_end + 1) line
      | some uri_end ↦ slice line (method_end + 1) (uri_end - method_end - 1)
    ];
  }
]

-- One `key=value` part of the query.
unfoldable pub query_item : Dict Bytes Bytes → Bytes → Option (Dict Bytes Bytes)
query_item query q = split q (codes "=") >>= λ key_value. elim key_value [
  | [] ↦ some query
  | key ∷ values ↦ some (put key (elim values [ value ∷ [] ↦ value | _ ↦ [] ]) query)
]

unfoldable pub query_items : Dict Bytes Bytes → List Bytes → Option (Dict Bytes Bytes)
query_items query [] = some query
query_items query (q ∷ items) = query_item query q >>= λ query'. query_items query' items

unfoldable pub request_query : Request → Option Request
request_query req = elim (search (codes "?") req.uri 0) [
  | none ↦ some req
  | some query_start ↦ do
    items ← split (drop (query_start + 1) req.uri) (codes "&")
    query ← query_items req.query items
    some (record req { uri = slice req.uri 0 query_start; query = query })
]

unfoldable pub ltrim : Bytes → Bytes
ltrim [] = []
ltrim (c ∷ s) = if (c == 32) || (c == 9) then ltrim s else c ∷ s

unfoldable pub set_request_head : Bytes → Bytes → Request → Request
set_request_head key value req =
    if ascii_iequal key (codes "Host")
    then record req { host = value }
    else if ascii_iequal key (codes "Content-Type")
    then record req { content_type = value }
    else if ascii_iequal key (codes "Accept")
    then record req { accept = value }
    else if ascii_iequal key (codes "Accept-Language")
    then record req { accept_language = value }
    else if ascii_iequal key (codes "Connection")
    then record req { connection = value }
    else record req { heads = put key value req.heads }

-- A line with fewer than two parts around its colons is skipped.
unfoldable pub request_head : Bytes → Request → Option Request
request_head line req = split line (codes ":") >>= λ parts. elim parts [
  | key ∷ _ ∷ _ ↦ some (set_request_head key (ltrim (drop (length key + 1) line)) req)
  | _ ↦ some req
]

unfoldable pub request_heads : ℕ → Bytes → Request → Option Request
request_heads zero str req = none
request_heads (suc rounds) str req = elim (search crlf str 0) [
  | none ↦ some (record req { body = str })
  | some pos ↦
      let line = slice str 0 pos in
      let after = drop (pos + 2) str in
      if line =? []
      then some (record req { body = after })
      else request_head line req >>= λ req'. request_heads rounds after req'
]

unfoldable pub parse_request : Bytes → Option Request
parse_request str = elim (search crlf str 0) [
  | none ↦ some no_request
  | some pos ↦ do
    req ← request_query (request_line (slice str 0 pos) no_request)
    request_heads (length str + 1) (drop (pos + 2) str) req
]

unfoldable pub query_parts : Dict Bytes Bytes → List Bytes
query_parts [] = []
query_parts ((key, value) ∷ query) =
    (if value =? [] then key else (key ++ codes "=") ++ value) ∷ query_parts query

-- A head line, if there is a value.
unfoldable pub head_line : Bytes → Bytes → Bytes
head_line name [] = []
head_line name (c ∷ value) = (name ++ codes ": ") ++ ((c ∷ value) ++ crlf)

unfoldable pub head_lines : Dict Bytes Bytes → Bytes
head_lines [] = []
head_lines ((key, value) ∷ heads) = ((key ++ codes ": ") ++ (value ++ crlf)) ++ head_lines heads

unfoldable pub has_content_length : Dict Bytes Bytes → Bool
has_content_length [] = false
has_content_length ((key, value) ∷ heads) =
    ascii_iequal key (codes "Content-Length") || has_content_length heads

unfoldable pub request_url : Request → Bytes
request_url req =
    req.uri
    ++ (elim req.query [ [] ↦ [] | q ∷ qs ↦ codes "?" ++ join (query_parts (q ∷ qs)) (codes "&") ])

unfoldable pub content_length_line : Request → Bytes
content_length_line req =
    if not (req.body =? []) && not (has_content_length req.heads)
    then head_line (codes "Content-Length") (decimal (length req.body))
    else []

unfoldable pub generate_request : Request → Bytes
generate_request req =
    (get_str_from req.method ++ (codes " " ++ (request_url req ++ (codes " HTTP/1.1" ++ crlf))))
    ++ (head_line (codes "Host") req.host
        ++ (head_line (codes "Content-Type") req.content_type
            ++ (head_line (codes "Accept") req.accept
                ++ (head_line (codes "Accept-Language") req.accept_language
                    ++ (head_line (codes "Connection") req.connection
                        ++ (head_lines req.heads
                            ++ (content_length_line req ++ (crlf ++ req.body))))))))
