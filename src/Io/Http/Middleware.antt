-- ===== src/Io/Http/Middleware.antt =====
-- modules/io/src/netapp.cpp: statics and cors. The file system is what a path holds and whether it
-- is a directory.
pub mod Confined
use rmvl.Prelude.{
  Bool, Option, [], drop, false, if◌then◌else◌, length, none, not, some, true, ℕ, ◌&&◌, ◌++◌, ◌==◌,
  ◌=?◌, ◌||◌, ◌∷◌,
}
use rmvl.Bytes.{Bytes, codes, bytes_eq}
use rmvl.Core.Str.{starts_with, search}
use rmvl.Io.Http.{HttpMethod, Request, Response, options_method}
use rmvl.Io.Http.Responses.{set_head, redirect, send_file}

unfoldable pub skip_slashes : Bytes → Bytes
skip_slashes [] = []
skip_slashes (c ∷ s) = if c == 47 then skip_slashes s else c ∷ s

-- The last character, or the one given if there is none.
unfoldable pub back : ℕ → Bytes → ℕ
back c [] = c
back c (d ∷ s) = back d s

-- A path that a name is added to. Nothing is put after an empty one.
unfoldable pub with_slash : Bytes → Bytes
with_slash path =
    if not (path =? []) && (not (back 0 path == 47) && not (back 0 path == 92))
    then path ++ (47 ∷ [])
    else path

unfoldable pub relative_path : Bytes → Bytes → Bytes
relative_path url_path uri =
    let rest = skip_slashes (drop (length url_path) uri) in
    if rest =? [] then codes "index.html" else rest

module _ (files : Bytes → Option Bytes) (is_directory : Bytes → Bool) where
  unfoldable pub serve : Bytes → Bytes → Request → Response → Response
  serve root path req res =
      let file_path = with_slash root ++ path in
      if is_directory file_path
      then if (req.uri =? []) || not (back 0 req.uri == 47)
        then redirect 301 (req.uri ++ codes "/") res
        else send_file files (with_slash file_path ++ codes "index.html") res
      else send_file files file_path res

  unfoldable pub statics : Bytes → Bytes → Request → Response → Response
  statics url_path root req res =
      if not (res.state == 0)
      then res
      else if not (starts_with url_path req.uri)
      then res
      else elim (search (codes "..") (relative_path url_path req.uri) 0) [
        | some _ ↦ record res { state = 403; message = codes "Forbidden" }
        | none ↦ serve root (relative_path url_path req.uri) req res
      ]

is_options : HttpMethod → Bool
is_options options_method = true
is_options _ = false

unfoldable pub cors : Request → Response → Response
unfolding is_options
cors req res =
    let allowed = set_head (codes "Access-Control-Max-Age") (codes "86400") (
      set_head (codes "Access-Control-Allow-Headers") (codes "Content-Type, Authorization") (
        set_head (codes "Access-Control-Allow-Methods") (codes "GET, POST, PUT, DELETE, OPTIONS")
          (set_head (codes "Access-Control-Allow-Origin") (codes "*") res))) in
    if is_options req.method
    then set_head (codes "Content-Length") (codes "0")
        (record allowed { state = 204; message = codes "No Content" })
    else allowed
