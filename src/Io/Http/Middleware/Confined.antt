-- ===== src/Io/Http/Middleware/Confined.antt =====
-- modules/io/src/netapp.cpp: statics reads nothing outside of its root.
use rmvl.Prelude.{
  Bool, Bool-cases, Option, Option-cases, [], inl, inr, none, not, refl, ◌++◌, ◌==◌, ◌=?◌, ◌||◌,
  ◌≡◌,
}
use rmvl.Bytes.{bytes_eq, Bytes, codes}
use rmvl.Core.Str.{search}
use rmvl.Io.Http.{Request, Response}
use rmvl.Io.Http.Responses.{send_file}
use rmvl.Io.Http.Middleware.{with_slash, relative_path, serve, statics, back}

-- A path below the root that never goes up.
pub record IsBelow (root path : Bytes) : Type 0 where
  pub rest : Bytes
  pub never_up : search (codes "..") rest 0 ≡ none
  pub below : path ≡ with_slash root ++ rest

module _ (root : Bytes) (files files' : Bytes → Option Bytes)
    (is_directory is_directory' : Bytes → Bool) where
  -- The two file systems hold the same at such paths, and at the index files of the directories there.
  abbrev pub Agree : Type 0
  Agree =
      (path : Bytes)
      → IsBelow root path
      → (files path ≡ files' path)
        × (is_directory path ≡ is_directory' path)
        × (files (with_slash path ++ codes "index.html")
            ≡ files' (with_slash path ++ codes "index.html"))

  send_file-same :
      (path : Bytes) (res : Response)
      → files path ≡ files' path
      → send_file files path res ≡ send_file files' path res
  unfolding send_file
  send_file-same path res e = rw (send_file, e) refl

  serve-same :
      (path : Bytes) (req : Request) (res : Response)
      → search (codes "..") path 0 ≡ none
      → Agree
      → serve files is_directory root path req res ≡ serve files' is_directory' root path req res
  unfolding serve
  serve-same path req res clean agree =
      let file_path = with_slash root ++ path in
      let (file, kind, index) =
        agree file_path (record { rest = path; never_up = clean; below = refl }) in
      elim (Bool-cases (is_directory' file_path)) [
        | inl folder ↦ elim (Bool-cases ((req.uri =? []) || not (back 0 req.uri == 47))) [
          | inl bare ↦ rw (serve, kind, folder, bare) refl
          | inr whole ↦ rw (serve, kind, folder, whole) (send_file-same _ res index)
        ]
        | inr plain ↦ rw (serve, kind, plain) (send_file-same file_path res file)
      ]

  -- What the middleware answers depends only on the files and directories below its root whose path
  -- from there has no two dots in a row: any two file systems that agree on these, and on the index
  -- files of such directories, give the same response to every request.
  pub statics-confined :
      (url_path : Bytes) (req : Request) (res : Response)
      → Agree
      → statics files is_directory url_path root req res
        ≡ statics files' is_directory' url_path root req res
  unfolding statics
  statics-confined url_path req res agree =
      let path = relative_path url_path req.uri in
      elim (Option-cases (search (codes "..") path 0)) [
        | inl clean ↦ rw (statics, clean, serve-same path req res clean agree) refl
        | inr (i, up) ↦ rw (statics, up) refl
      ]
