-- ===== src/Io/Http/Boundary.antt =====
-- modules/io/src/netapp.cpp: where a request ends in what a connection has given
-- (get_http_request_boundary), and the loop that reads one (read_http_request). A connection is the
-- list of the chunks that its reads give until it is closed; after them, each read gives an empty
-- string. The loop has as many rounds as it is given.
pub mod Scanning
pub mod Stable
pub mod Reading
use rmvl.Prelude.{
  Bool, List, Option, [], drop, false, if◌then◌else◌, leb, length, ltb, none, not, some, suc, take,
  true, zero, ℕ, ◌&&◌, ◌*◌, ◌++◌, ◌+◌, ◌-◌, ◌==◌, ◌=?◌, ◌>>=◌, ◌^◌, ◌||◌, ◌∷◌,
}
use rmvl.Bytes.{Bytes, codes, bytes_eq, slice}
use rmvl.Bytes.Chunks.{next_chunk}
use rmvl.Core.Str.{search, find_text}
use rmvl.Io.Http.{ascii_iequal}
use rmvl.Io.Http.Requests.{crlf, ltrim}

pub record HttpRequestBoundary : Type 0 where
  pub size : Option ℕ
  pub invalid : Bool

abbrev pub waiting : HttpRequestBoundary
waiting = record { size = none; invalid = false }

abbrev pub refused : HttpRequestBoundary
refused = record { size = none; invalid = true }

abbrev pub separator : Bytes
separator = 13 ∷ 10 ∷ 13 ∷ 10 ∷ []

unfoldable pub rtrim : Bytes → Bytes
rtrim [] = []
rtrim (c ∷ s) =
    let rest = rtrim s in if (rest =? []) && ((c == 32) || (c == 9)) then [] else c ∷ rest

-- std::from_chars of a size_t, which has to take all of the text.
unfoldable pub size_from : ℕ → Bytes → Option ℕ
size_from n [] = if ltb n (2 ^ 64) then some n else none
size_from n (c ∷ s) = if leb 48 c && leb c 57 then size_from (n * 10 + (c - 48)) s else none

-- A length given again has to be the same.
unfoldable pub agrees : ℕ → Option ℕ → Option (Option ℕ)
agrees parsed none = some (some parsed)
agrees parsed (some n) = if parsed == n then some (some parsed) else none

unfoldable pub scan_value : Bytes → Option ℕ → Option (Option ℕ)
scan_value value length_found =
    if value =? [] then none else size_from 0 value >>= λ parsed. agrees parsed length_found

-- The content length after one more line, unless the line is wrong: `none`.
unfoldable pub scan_line : Bytes → Option ℕ → Option (Option ℕ)
scan_line line length_found = elim (search (codes ":") line 0) [
  | none ↦ some length_found
  | some colon ↦
      if ascii_iequal (slice line 0 colon) (codes "Content-Length")
      then scan_value (rtrim (ltrim (drop (colon + 1) line))) length_found
      else some length_found
]

-- The loop over the lines. Outer `none`: it has not ended after these rounds; inner `none`: a line is
-- wrong.
unfoldable pub scan_lines : ℕ → Bytes → ℕ → ℕ → Option ℕ → Option (Option (Option ℕ))
scan_lines zero text head_end line_start length_found = none
scan_lines (suc rounds) text head_end line_start length_found =
    if not (ltb line_start head_end)
    then some (some length_found)
    else elim (find_text text crlf line_start) [
      | none ↦ some none
      | some line_end ↦
          if ltb head_end line_end
          then some none
          else elim (scan_line (slice text line_start (line_end - line_start)) length_found) [
            | none ↦ some none
            | some found ↦ scan_lines rounds text head_end (line_end + 2) found
          ]
    ]

abbrev pub content_length_of : Option ℕ → ℕ
content_length_of none = 0
content_length_of (some n) = n

unfoldable pub with_content : ℕ → Option (Option ℕ) → HttpRequestBoundary
with_content head_end none = refused
with_content head_end (some length_found) =
    let content_length = content_length_of length_found in
    if ltb (2 ^ 64 - 1 - head_end - 4) content_length
    then refused
    else record { size = some (head_end + 4 + content_length); invalid = false }

unfoldable pub get_http_request_boundary : Bytes → Option HttpRequestBoundary
get_http_request_boundary text = elim (search separator text 0) [
  | none ↦ some waiting
  | some head_end ↦ elim (search crlf text 0) [
    | none ↦ some refused
    | some line_start ↦
        if ltb head_end line_start
        then some refused
        else scan_lines (length text + 1) text head_end (line_start + 2) none >>= λ scanned.
            some (with_content head_end scanned)
  ]
]

-- The request, or an empty text where it is wrong or the connection is closed before its end. `none`:
-- the loop has not ended after these rounds.
unfoldable pub read_until : ℕ → Bytes → List Bytes → Option Bytes
read_until zero request chunks = none
read_until (suc rounds) request chunks =
    let (chunk, rest) = next_chunk chunks in
    let request' = request ++ chunk in
    let more = read_until rounds request' rest in
    if chunk =? []
    then some []
    else get_http_request_boundary request' >>= λ boundary.
        if boundary.invalid then some [] else elim boundary.size [
          | none ↦ more
          | some size ↦ if leb size (length request') then some (take size request') else more
        ]

unfoldable pub read_http_request : List Bytes → Option Bytes
read_http_request chunks = read_until (length chunks + 1) [] chunks
