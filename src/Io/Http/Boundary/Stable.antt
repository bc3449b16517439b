-- ===== src/Io/Http/Boundary/Stable.antt =====
-- modules/io/src/netapp.cpp: what get_http_request_boundary says of the front of a connection's text
-- stays, whatever comes after it.
use mathlib.Core.Option.{some-injective}
use rmvl.Prelude.{
  Bool-cases, Option, Option-cases, [], ap, arith, drop, false, inl, inr, leb, length,
  length-append, length-drop, ltb, none, refl, some, suc, sym, true, zero, ℕ, ◌++◌, ◌+◌, ◌-◌, ◌∙◌,
  ◌∷◌, ◌≡◌, ◌≢◌, ◌≤◌,
}
use rmvl.Bytes.{Bytes, bytes_eq, slice}
use rmvl.Bytes.Laws.{slice-append_le, drop-drop}
use rmvl.Core.Str.{starts_with, search, find_text}
use rmvl.Io.Http.Requests.{crlf}
use rmvl.Io.Http.Boundary.{
  HttpRequestBoundary, waiting, separator, scan_line, scan_lines, get_http_request_boundary,
}
use rmvl.Io.Http.Boundary.Scanning.{search-append, search_sound, search-first, find_text-append}

-- The end of a line is found at the end of the head or before it.
line_end_found :
    (text : Bytes) (head_end start : ℕ)
    → starts_with crlf (drop head_end text) ≡ true
    → head_end ≤ length text
    → start ≤ head_end
    → (j : ℕ) × ((find_text text crlf start ≡ some j) × (j ≤ head_end))
unfolding find_text
line_end_found text head_end start h inside early =
    let within : leb start (length text) ≡ true = ground arith in
    let further : start + (head_end - start) ≡ head_end = omega arith in
    let there : starts_with crlf (drop (head_end - start) (drop start text)) ≡ true =
      ap (starts_with crlf) (drop-drop start (head_end - start) text ∙ rw further refl) ∙ h in
    let (j, (found, low)) =
      search-first crlf (drop start text) start (head_end - start) there
        (omega (arith, length-drop start text)) in
    (j, (rw within found, omega arith))

module _ (text more : Bytes) (head_end : ℕ) (head : starts_with crlf (drop head_end text) ≡ true)
    (inside : head_end ≤ length text) where
  scan_lines-append :
      (rounds rounds' start : ℕ) (length_found : Option ℕ) (x : Option (Option ℕ))
      → rounds ≤ rounds'
      → scan_lines rounds text head_end start length_found ≡ some x
      → scan_lines rounds' (text ++ more) head_end start length_found ≡ some x
  unfolding scan_lines
  scan_lines-append zero rounds' start length_found x few h = absurd (ground arith)
  scan_lines-append (suc rounds) zero start length_found x few h = absurd (omega arith)
  scan_lines-append (suc rounds) (suc rounds') start length_found x few h =
      elim (Bool-cases (ltb start head_end)) [
        | inr done ↦ rw (scan_lines, done) (rw (scan_lines, done) at h)
        | inl early ↦
            let (e, (found, low)) = line_end_found text head_end start head inside (ground arith) in
            let found' = find_text-append crlf text more start e found in
            let near : ltb head_end e ≡ false = ground arith in
            let line = slice-append_le start (e - start) text more (ground arith) in
            elim (Option-cases (scan_line (slice text start (e - start)) length_found)) [
              | inl wrong ↦
                  rw (scan_lines, early, found', near, line, wrong)
                    (rw (scan_lines, early, found, near, wrong) at h)
              | inr (next, right) ↦
                  rw (scan_lines, early, found', near, line, right)
                    (scan_lines-append rounds rounds' (e + 2) next x (omega arith)
                      (rw (scan_lines, early, found, near, right) at h))
            ]
      ]

separator-crlf : (s : Bytes) → starts_with separator s ≡ true → starts_with crlf s ≡ true
unfolding starts_with
separator-crlf [] h = absurd (ground arith)
separator-crlf (a ∷ []) h = absurd (ground arith)
separator-crlf (a ∷ b ∷ s) h = ground arith

head_of :
    (text : Bytes) (head_end : ℕ)
    → search separator text 0 ≡ some head_end
    → (starts_with crlf (drop head_end text) ≡ true) × (head_end + 4 ≤ length text)
head_of text head_end h =
    let (low, (there, fits)) = search_sound separator text 0 head_end h in
    let same : head_end - 0 ≡ head_end = omega arith in
    (separator-crlf (drop head_end text) (rw same at there), omega (arith, fits))

-- A boundary that is decided, as a size or as a wrong head, is the same for every longer text.
pub boundary-append :
    (text more : Bytes) (boundary : HttpRequestBoundary)
    → get_http_request_boundary text ≡ some boundary
    → boundary ≢ waiting
    → get_http_request_boundary (text ++ more) ≡ some boundary
unfolding get_http_request_boundary
boundary-append text more boundary h decided = elim (Option-cases (search separator text 0)) [
  | inl unended ↦ absurd (
      decided
        (some-injective boundary waiting (sym h ∙ rw (get_http_request_boundary, unended) refl)))
  | inr (head_end, found) ↦
      let (head, fits) = head_of text head_end found in
      let found' = search-append separator text more 0 head_end found in
      let (first, (at_line, low)) = search-first crlf text 0 head_end head (omega arith) in
      let line' = search-append crlf text more 0 first at_line in
      let near : ltb head_end first ≡ false = ground arith in
      elim (Option-cases (scan_lines (length text + 1) text head_end (first + 2) none)) [
        | inl endless ↦ absurd (ground arith)
        | inr (x, scanned) ↦
            let scanned' =
              scan_lines-append text more head_end head (omega arith) (length text + 1)
                (length (text ++ more) + 1) (first + 2) none x
                (omega (arith, length-append text more)) scanned in
            rw (get_http_request_boundary, found', line', near, scanned')
              (rw (get_http_request_boundary, found, at_line, near, scanned) at h)
      ]
]
