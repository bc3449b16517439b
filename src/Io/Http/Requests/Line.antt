-- ===== src/Io/Http/Requests/Line.antt =====
-- modules/io/src/netapp.cpp: the first line of a request, written and read.
use rmvl.Prelude.{
  [], ap, append_assoc, arith, drop, leb, length, length-append, refl, some, sym, true, ◌++◌, ◌+◌,
  ◌-◌, ◌∙◌, ◌∷◌, ◌≡◌,
}
use rmvl.Bytes.{Bytes, codes, slice}
use rmvl.Bytes.Laws.{slice-append, drop-append_exact}
use rmvl.Core.Str.{search, find_text}
use rmvl.Core.Str.Parts.{IsFree, search-found}
use rmvl.Io.Http.{
  HttpMethod, get_method, post_method, put_method, delete_method, patch_method, head_method,
  options_method, trace_method, connect_method, unknown_method, no_request, get_str_from,
}
use rmvl.Io.Http.Names.{get_method_from-get_str_from}
use rmvl.Io.Http.Requests.{request_line}

-- No method's name has a space in it.
get_str_from-IsFree : (m : HttpMethod) → IsFree 32 (get_str_from m)
unfolding get_str_from
get_str_from-IsFree get_method = (refl, (refl, (refl, tt)))
get_str_from-IsFree post_method = (refl, (refl, (refl, (refl, tt))))
get_str_from-IsFree put_method = (refl, (refl, (refl, tt)))
get_str_from-IsFree delete_method = (refl, (refl, (refl, (refl, (refl, (refl, tt))))))
get_str_from-IsFree patch_method = (refl, (refl, (refl, (refl, (refl, tt)))))
get_str_from-IsFree head_method = (refl, (refl, (refl, (refl, tt))))
get_str_from-IsFree options_method = (refl, (refl, (refl, (refl, (refl, (refl, (refl, tt)))))))
get_str_from-IsFree trace_method = (refl, (refl, (refl, (refl, (refl, tt)))))
get_str_from-IsFree connect_method = (refl, (refl, (refl, (refl, (refl, (refl, (refl, tt)))))))
get_str_from-IsFree unknown_method = (refl, (refl, (refl, (refl, (refl, (refl, (refl, tt)))))))

space_before : (name s : Bytes) → name ++ (32 ∷ s) ≡ (name ++ (32 ∷ [])) ++ s
space_before name s = sym (append_assoc name (32 ∷ []) s)

-- The first space of the line, and the next one.
find_text-second :
    (name uri version : Bytes)
    → IsFree 32 uri
    → find_text (name ++ (32 ∷ (uri ++ (32 ∷ version)))) (codes " ") (length name + 1)
      ≡ some (length name + 1 + length uri)
unfolding find_text
find_text-second name uri version free =
    let line = name ++ (32 ∷ (uri ++ (32 ∷ version))) in
    let after : drop (length name + 1) line ≡ uri ++ (32 ∷ version) =
      ap (drop (length name + 1)) (space_before name (uri ++ (32 ∷ version)))
      ∙ drop-append_exact (length name + 1) (name ++ (32 ∷ [])) _ (length-append name (32 ∷ [])) in
    let inside : leb (length name + 1) (length line) ≡ true =
      ground (arith, length-append name (32 ∷ (uri ++ (32 ∷ version)))) in
    rw (inside, after) (search-found 32 uri version (length name + 1) free)

-- The first line of a request of any method, for a target without a space, reads back as that method
-- and that target.
pub request_line_lem :
    (m : HttpMethod) (uri version : Bytes)
    → IsFree 32 uri
    → request_line (get_str_from m ++ (codes " " ++ (uri ++ (codes " " ++ version)))) no_request
      ≡ record no_request { method = m; uri = uri }
unfolding request_line
request_line_lem m uri version free =
    let name = get_str_from m in
    let line = name ++ (32 ∷ (uri ++ (32 ∷ version))) in
    let first : search (32 ∷ []) line 0 ≡ some (length name) =
      search-found 32 name (uri ++ (32 ∷ version)) 0 (get_str_from-IsFree m)
      ∙ ap some (omega arith) in
    let second = find_text-second name uri version free in
    let method : slice line 0 (length name) ≡ name =
      slice-append [] name (32 ∷ (uri ++ (32 ∷ version))) 0 (length name) refl refl in
    let target : slice line (length name + 1) (length name + 1 + length uri - length name - 1)
        ≡ uri =
      ap (λ s. slice s (length name + 1) (length name + 1 + length uri - length name - 1))
        (space_before name (uri ++ (32 ∷ version)))
      ∙ slice-append (name ++ (32 ∷ [])) uri (32 ∷ version) _ _ (length-append name (32 ∷ []))
          (omega arith) in
    rw (request_line, first, second, method, target, get_method_from-get_str_from m) refl
