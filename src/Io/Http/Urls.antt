-- ===== src/Io/Http/Urls.antt =====
-- modules/io/src/netapp.cpp: parseURL. `none` is an exception of std::stoi, or a loop that has not
-- ended.
use rmvl.Prelude.{
  Bool, List, Option, [], drop, false, if◌then◌else◌, ltb, none, some, ℕ, ◌+◌, ◌-◌, ◌==◌, ◌=?◌,
  ◌>>=◌, ◌∷◌,
}
use rmvl.Bytes.{Bytes, codes, bytes_eq, slice}
use rmvl.Core.Str.{search, split}
use rmvl.Io.Http.Responses.{stoi_u16}

pub record UrlParseInfo : Type 0 where
  pub scheme : Bytes
  pub hostname : Bytes
  pub port : ℕ
  pub path : Bytes
  pub query : List Bytes

-- What comes before the path: the scheme, its port, and the rest of the URL.
unfoldable pub url_scheme : Bytes → Bytes × ℕ × Bytes
url_scheme url = elim (search (codes "://") url 0) [
  | some scheme_end ↦
      let scheme = slice url 0 scheme_end in
      (scheme, (if scheme =? codes "https" then 443 else 80), drop (scheme_end + 3) url)
  | none ↦ (codes "http", 80, url)
]

-- A slash behind the question mark is no path.
unfoldable pub path_position : Bytes → Option ℕ
path_position url = elim (search (codes "/") url 0) [
  | none ↦ none
  | some path_start ↦ elim (search (codes "?") url 0) [
    | none ↦ some path_start
    | some query_start ↦ if ltb query_start path_start then none else some path_start
  ]
]

unfoldable pub last_position : ℕ → Bytes → ℕ → Option ℕ → Option ℕ
last_position c [] i last = last
last_position c (d ∷ s) i last = last_position c s (i + 1) (if c == d then some i else last)

starts_with_bracket : Bytes → Bool
starts_with_bracket [] = false
starts_with_bracket (c ∷ s) = c == 91

-- The host and its port, `[`...`]` around an IPv6 address.
unfoldable pub host_port : Bytes → ℕ → Option (Bytes × ℕ)
unfolding starts_with_bracket
host_port host_part port =
    if starts_with_bracket host_part
    then elim (search (codes "]") host_part 0) [
      | none ↦ some (host_part, port)
      | some ipv6_end ↦
          let hostname = slice host_part 1 (ipv6_end - 1) in
          elim (drop (ipv6_end + 1) host_part) [
            | [] ↦ some (hostname, port)
            | c ∷ port_str ↦
                if c == 58
                then (stoi_u16 port_str >>= λ port'. some (hostname, port'))
                else some (hostname, port)
          ]
    ]
    else elim (last_position 58 host_part 0 none) [
      | none ↦ some (host_part, port)
      | some port_start ↦ stoi_u16 (drop (port_start + 1) host_part) >>= λ port'.
          some (slice host_part 0 port_start, port')
    ]

unfoldable pub url_path : Bytes → Bytes
url_path url = elim (path_position url) [
  | none ↦ codes "/"
  | some path_start ↦ elim (search (codes "?") url 0) [
    | none ↦ drop path_start url
    | some query_start ↦ slice url path_start (query_start - path_start)
  ]
]

unfoldable pub url_host : Bytes → Bytes
url_host url = elim (path_position url) [
  | some path_start ↦ slice url 0 path_start
  | none ↦ elim (search (codes "?") url 0) [
    | none ↦ url
    | some query_start ↦ slice url 0 query_start
  ]
]

unfoldable pub url_query : Bytes → Option (List Bytes)
url_query url = elim (search (codes "?") url 0) [
  | none ↦ some []
  | some query_start ↦ split (drop (query_start + 1) url) (codes "&")
]

unfoldable pub parse_url : Bytes → Option UrlParseInfo
parse_url text = do
  let (scheme, port, url) = url_scheme text
  (hostname, port') ← host_port (url_host url) port
  query ← url_query url
  some (record {
    scheme = scheme;
    hostname = hostname;
    port = port';
    path = url_path url;
    query = query;
  })
