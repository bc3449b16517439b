-- ===== src/Tests/Io.antt =====
-- modules/io and modules/core on concrete texts.
use rmvl.Prelude.{
  Bool, Bool-cases, Option, [], arith, false, if◌then◌else◌, inl, inr, none, not, refl, some, sym,
  ◌&&◌, ◌++◌, ◌==◌, ◌=?◌, ◌∷◌, ◌≡◌,
}
use rmvl.Bytes.{Bytes, codes, bytes_eq}
use rmvl.Core.Str.Parts.{split-join, split_loop-endless}
use rmvl.Core.Str.{split, split_loop, find_first_not_of, contains, join, strip}
use rmvl.Core.Str.Join.{separated, join-separated}
use rmvl.Core.Str.Strip.{strip_between}
use rmvl.Io.Http.{delete_method, get_str_from, no_request, no_response, Request}
use rmvl.Io.Http.Responses.{send, send_file, redirect}
use rmvl.Io.Http.Responses.Length.{IsMeasured, filled-IsMeasured}
use rmvl.Io.Http.Requests.{request_line}
use rmvl.Io.Http.Requests.Line.{request_line_lem}
use rmvl.Io.Http.Middleware.{with_slash, back, statics}
use rmvl.Io.Http.Middleware.Confined.{Agree, statics-confined}

join-separated_example :
    join (codes "a" ∷ codes "b" ∷ []) (codes ", ")
    ≡ separated (codes ", ") (codes "a" ∷ codes "b" ∷ []) ++ codes ","
join-separated_example = join-separated (codes "b" ∷ []) (codes "a") (codes ",") 32

strip_between_example : strip (codes " a b ") ≡ some (codes "a b")
unfolding contains
strip_between_example =
    strip_between (codes " ") (codes "a b") (codes " ") (codes "a ") (codes " b") 97 98 (refl, tt)
      (refl, tt) refl refl refl refl

abbrev disk : Bytes → Option Bytes
disk path = if path =? codes "www/a.js" then some (codes "1;") else none

filled-IsMeasured_example :
    IsMeasured (send (codes "hi") no_response)
    × IsMeasured (send_file disk (codes "www/a.js") no_response)
    × IsMeasured (redirect 301 (codes "/b") no_response)
filled-IsMeasured_example =
    filled-IsMeasured disk (codes "hi") (codes "www/a.js") (codes "/b") 301 no_response

-- A file system that holds a secret beside the root, and one that does not.
abbrev disk_with_secret : Bytes → Option Bytes
disk_with_secret path = if path =? codes "key" then some (codes "secret") else disk path

abbrev no_directory : Bytes → Bool
no_directory path = false

index_same :
    (rest : Bytes)
    → disk_with_secret (with_slash (codes "www/" ++ rest) ++ codes "index.html")
      ≡ disk (with_slash (codes "www/" ++ rest) ++ codes "index.html")
unfolding with_slash
index_same rest =
    elim (Bool-cases
      (not (back 0 (codes "www/" ++ rest) == 47) && not (back 0 (codes "www/" ++ rest) == 92))) [
        | inl open_end ↦ rw (with_slash, open_end) refl
        | inr closed ↦ rw (with_slash, closed) refl
      ]

agree : Agree (codes "www") disk disk_with_secret no_directory no_directory
unfolding with_slash back
agree path b = rw b.below (refl, refl, sym (index_same b.rest))

abbrev request : Request
request = record no_request { uri = codes "/static/a.js" }

statics-confined_example :
    statics disk no_directory (codes "/static") (codes "www") request no_response
    ≡ statics disk_with_secret no_directory (codes "/static") (codes "www") request no_response
statics-confined_example =
    statics-confined (codes "www") disk disk_with_secret no_directory no_directory (codes "/static")
      request no_response agree

split-join_example :
    split (join (codes "ab" ∷ codes "c" ∷ []) (codes ",")) (codes ",")
    ≡ some (codes "ab" ∷ codes "c" ∷ [])
split-join_example =
    split-join 44 (codes "ab") (codes "c" ∷ []) (omega arith, (refl, (refl, tt)))
      ((omega arith, (refl, tt)), tt)

split_loop-endless_example :
    split_loop 1000 (codes "ab") [] (find_first_not_of (codes "ab") [] 0) ≡ none
split_loop-endless_example = split_loop-endless 1000 97 (codes "b")

request_line_lem_example :
    request_line
      (get_str_from delete_method ++ (codes " " ++ (codes "/a" ++ (codes " " ++ codes "HTTP/1.1"))))
      no_request
    ≡ record no_request { method = delete_method; uri = codes "/a" }
request_line_lem_example =
    request_line_lem delete_method (codes "/a") (codes "HTTP/1.1") (refl, (refl, tt))
