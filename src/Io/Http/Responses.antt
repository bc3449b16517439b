-- ===== src/Io/Http/Responses.antt =====
-- modules/io/src/netapp.cpp: Response::parse, Response::generate and the operations that fill a
-- response. `none` is an exception, of std::stoi or of strip, or a loop that has not ended.
pub mod Length
use rmvl.Prelude.{
  Bool, Option, [], drop, false, if◌then◌else◌, leb, length, ltb, none, some, suc, true, zero, ℕ,
  ◌%◌, ◌&&◌, ◌*◌, ◌++◌, ◌+◌, ◌-◌, ◌==◌, ◌=?◌, ◌>>=◌, ◌^◌, ◌||◌, ◌∷◌,
}
use rmvl.Bytes.{Bytes, codes, bytes_eq, slice, decimal}
use rmvl.Dict.{Dict, find, put}
use rmvl.Core.Str.{search, find_text, strip}
use rmvl.Io.Http.{Response, no_response}
use rmvl.Io.Http.Requests.{crlf, head_lines}

-- std::stoi into a uint16_t: spaces, a sign, digits, and an exception outside of an int's range.
is_space : ℕ → Bool
is_space c = c == 32 || (leb 9 c && leb c 13)

unfoldable skip_space : Bytes → Bytes
unfolding is_space
skip_space [] = []
skip_space (c ∷ s) = if is_space c then skip_space s else c ∷ s

unfoldable digits_of : Bytes → Bytes
digits_of [] = []
digits_of (c ∷ s) = if leb 48 c && leb c 57 then c ∷ digits_of s else []

unfoldable digits_value : ℕ → Bytes → ℕ
digits_value acc [] = acc
digits_value acc (c ∷ s) = digits_value (acc * 10 + (c - 48)) s

signed_value : Bool → Bytes → Option ℕ
signed_value negative s = elim (digits_of s) [
  | [] ↦ none
  | c ∷ cs ↦
      let n = digits_value 0 (c ∷ cs) in
      if negative
      then if leb n (2 ^ 31) then some ((2 ^ 32 - n) % 2 ^ 16) else none
      else if ltb n (2 ^ 31)
      then some (n % 2 ^ 16)
      else none
]

unfoldable pub stoi_u16 : Bytes → Option ℕ
unfolding signed_value digits_value digits_of skip_space
stoi_u16 s = elim (skip_space s) [
  | [] ↦ none
  | c ∷ cs ↦
      if c == 45
      then signed_value true cs
      else if c == 43
      then signed_value false cs
      else signed_value false (c ∷ cs)
]

unfoldable pub response_heads : ℕ → Bytes → Response → Option Response
response_heads zero str res = none
response_heads (suc rounds) str res = elim (search crlf str 0) [
  | none ↦ some (record res { body = str })
  | some pos ↦
      let line = slice str 0 pos in
      let after = drop (pos + 2) str in
      if line =? [] then some (record res { body = after }) else elim (search (codes ":") line 0) [
        | none ↦ response_heads rounds after res
        | some colon_pos ↦ strip (drop (colon_pos + 1) line) >>= λ value.
            response_heads rounds after
              (record res { heads = put (slice line 0 colon_pos) value res.heads })
      ]
]

-- The first line and what follows it.
unfoldable pub response_line : Bytes → Bytes → Option Response
response_line line after = elim (search (codes " ") line 0) [
  | none ↦ some no_response
  | some version_end ↦
      let code_start = version_end + 1 in
      elim (find_text line (codes " ") code_start) [
        | none ↦ some no_response
        | some code_end ↦ stoi_u16 (slice line code_start (code_end - code_start)) >>= λ state.
            response_heads (length after + 1) after
              (record no_response { state = state; message = drop (code_end + 1) line })
      ]
]

unfoldable pub parse_response : Bytes → Option Response
parse_response str = elim (search crlf str 0) [
  | none ↦ some no_response
  | some pos ↦ response_line (slice str 0 pos) (drop (pos + 2) str)
]

-- The library's version and the date are the build's and the clock's.
unfoldable pub generate_response : Bytes → Bytes → Response → Bytes
generate_response version date res =
    (codes "HTTP/1.1 " ++ (decimal res.state ++ (codes " " ++ (res.message ++ crlf))))
    ++ ((codes "Server: RMVL/" ++ (version ++ crlf))
        ++ ((codes "Date: " ++ (date ++ crlf)) ++ (head_lines res.heads ++ (crlf ++ res.body))))

unfoldable pub set_head : Bytes → Bytes → Response → Response
set_head key value res = record res { heads = put key value res.heads }

unfoldable pub status : ℕ → Response → Response
status code res = record res { state = code }

unfoldable pub get_head : Bytes → Response → Response
get_head head res = record res {
  body = elim (find head res.heads) [ some value ↦ value | none ↦ [] ];
}

unfoldable pub attachment : Bytes → Response → Response
attachment filename res =
    set_head (codes "Content-Disposition")
      ((codes "attachment; filename=\"" ++ (if filename =? [] then codes "download" else filename))
        ++ codes "\"")
      res

unfoldable pub redirect_message : ℕ → Bytes
redirect_message code =
    if code == 301
    then codes "Moved Permanently"
    else if code == 302
    then codes "Found"
    else if code == 303
    then codes "See Other"
    else if code == 307
    then codes "Temporary Redirect"
    else if code == 308
    then codes "Permanent Redirect"
    else codes "Redirect"

-- For a code from 300 to 399, which a debug build asserts.
unfoldable pub redirect : ℕ → Bytes → Response → Response
redirect code url res =
    record (set_head (codes "Connection") (codes "close") (
      set_head (codes "Content-Type") (codes "text/html; charset=utf-8")
        (set_head (codes "Content-Length") (codes "0") (set_head (codes "Location") url res)))) {
          state = code;
          message = redirect_message code;
          body = [];
        }

ok_if_unset : Response → Response
ok_if_unset res = if res.state == 0 then record res { state = 200; message = codes "OK" } else res

unfoldable pub send : Bytes → Response → Response
unfolding ok_if_unset
send str res = ok_if_unset (
    set_head (codes "Content-Type") (codes "text/html; charset=utf-8")
      (set_head (codes "Content-Length") (decimal (length str)) (record res { body = str })))

unfoldable pub not_found : Response → Response
not_found res = set_head (codes "Content-Type") (codes "text/html; charset=utf-8") (
    set_head (codes "Content-Length") (codes "0")
      (record res { state = 404; message = codes "Not Found"; body = [] }))

-- What follows the last dot, or all of it if there is none.
unfoldable pub extension_from : Bytes → Bytes → Bytes
extension_from ext [] = ext
extension_from ext (c ∷ s) = extension_from (if c == 46 then s else ext) s

unfoldable pub file_type : Bytes → Bytes
file_type ext =
    if ext =? codes "js"
    then codes "application/javascript; charset=utf-8"
    else if ext =? codes "css"
    then codes "text/css; charset=utf-8"
    else if (ext =? codes "html") || (ext =? codes "htm")
    then codes "text/html; charset=utf-8"
    else if ext =? codes "json"
    then codes "application/json; charset=utf-8"
    else if ext =? codes "png"
    then codes "image/png"
    else if (ext =? codes "jpg") || (ext =? codes "jpeg")
    then codes "image/jpeg"
    else codes "application/octet-stream"

-- The file system: what a path holds, if it is a regular file that can be opened.
unfoldable pub send_file : (Bytes → Option Bytes) → Bytes → Response → Response
unfolding ok_if_unset
send_file files file res = elim (files file) [
  | none ↦ not_found res
  | some content ↦ ok_if_unset (
      set_head (codes "Content-Type") (file_type (extension_from file file)) (
        set_head (codes "Content-Length") (decimal (length content))
          (record res { body = content })))
]
