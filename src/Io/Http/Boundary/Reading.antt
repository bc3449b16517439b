-- ===== src/Io/Http/Boundary/Reading.antt =====
-- modules/io/src/netapp.cpp: read_http_request gives the request, however the connection cuts it.
use mathlib.Core.Option.{some-injective}
use rmvl.Prelude.{
  All, Bool, Bool-cases, Ends, Ends-bind, Ends-if, Ends-option, Ends-some, List, Option,
  Option-cases, [], ap, append_assoc, arith, drop, false, if◌then◌else◌, inl, inr, leb, length,
  length-append, ltb, none, not, refl, some, suc, sym, take, take-append-drop, true, zero, ℕ, ◌++◌,
  ◌+◌, ◌-◌, ◌<◌, ◌=?◌, ◌>>=◌, ◌∙◌, ◌∷◌, ◌≡◌, ◌≢◌, ◌≤◌, ◌⊎◌,
}
use rmvl.Bytes.{Bytes, bytes_eq, slice}
use rmvl.Bytes.Chunks.{contents, IsNonempty}
use rmvl.Bytes.Laws.{take-append_le, take-append_exact}
use rmvl.Core.Str.{starts_with, search, find_text}
use rmvl.Io.Http.Requests.{crlf}
use rmvl.Io.Http.Boundary.{
  HttpRequestBoundary, waiting, separator, scan_line, scan_lines, get_http_request_boundary,
  read_until, read_http_request,
}
use rmvl.Io.Http.Boundary.Scanning.{search_sound}
use rmvl.Io.Http.Boundary.Stable.{boundary-append}

find_text-from : (s p : Bytes) (i j : ℕ) → find_text s p i ≡ some j → i ≤ j
unfolding find_text
find_text-from s p i j h = elim (Bool-cases (leb i (length s))) [
  | inl inside ↦ (search_sound p (drop i s) i j (rw inside at h)).0
  | inr outside ↦ absurd (ground arith)
]

scan_lines-Ends :
    (rounds : ℕ) (text : Bytes) (head_end start : ℕ) (length_found : Option ℕ)
    → head_end < rounds + start
    → 0 < rounds
    → Ends (scan_lines rounds text head_end start length_found)
unfolding scan_lines
scan_lines-Ends zero text head_end start length_found far some_round = absurd (omega arith)
scan_lines-Ends (suc rounds) text head_end start length_found far some_round =
    Ends-if (not (ltb start head_end)) (λ done. Ends-some)
      (λ early. elim (Option-cases (find_text text crlf start)) [
        | inl lost ↦ rw lost Ends-some
        | inr (e, found) ↦ rw found (
            Ends-if (ltb head_end e) (λ past. Ends-some)
              (λ near. elim (Option-cases (scan_line (slice text start (e - start)) length_found)) [
                | inl wrong ↦ rw wrong Ends-some
                | inr (next, right) ↦ rw right (
                    scan_lines-Ends rounds text head_end (e + 2) next
                      (omega (arith, find_text-from text crlf start e found)) (ground arith))
              ]))
      ])

-- The search for the boundary ends for every text.
pub boundary-Ends : (text : Bytes) → Ends (get_http_request_boundary text)
unfolding get_http_request_boundary
boundary-Ends text = elim (Option-cases (search separator text 0)) [
  | inl unended ↦ rw (get_http_request_boundary, unended) Ends-some
  | inr (head_end, found) ↦ elim (Option-cases (search crlf text 0)) [
    | inl lost ↦ rw (get_http_request_boundary, found, lost) Ends-some
    | inr (first, line) ↦
        let (low, (there, fits)) = search_sound separator text 0 head_end found in
        rw (get_http_request_boundary, found, line)
          (Ends-if (ltb head_end first) (λ past. Ends-some)
            (λ near.
              Ends-bind
                (scan_lines-Ends (length text + 1) text head_end (first + 2) none
                  (omega (arith, fits)) (omega arith))
                (λ scanned. Ends-some)))
  ]
]

-- The boundary of a text: none yet, or one that stays.
boundary-cases : (b : HttpRequestBoundary) → (b ≡ waiting) ⊎ (b ≢ waiting)
boundary-cases b = of_fields b.size b.invalid
  where
    of_fields :
        (size : Option ℕ) (invalid : Bool)
        → (Path HttpRequestBoundary (record { size = size; invalid = invalid }) waiting)
          ⊎ (record { size = size; invalid = invalid } ≢ waiting)
    of_fields none false = inl refl
    of_fields none true = inr (λ e. absurd (ground (arith, ap (λ b. b.invalid) e)))
    of_fields (some n) invalid = inr (λ e. absurd (ground (arith, ap (λ b. b.size) e)))

module _ (request extra : Bytes)
    (complete : get_http_request_boundary request
      ≡ some (record { size = some (length request); invalid = false })) where
  abbrev whole_size : HttpRequestBoundary
  whole_size = record { size = some (length request); invalid = false }

  whole_decided : whole_size ≢ waiting
  whole_decided e = absurd (ground (arith, ap (λ b. b.size) e))

  -- What a front of the text that has the request says.
  enough :
      (buffer more : Bytes)
      → buffer ++ more ≡ request ++ extra
      → length request ≤ length buffer
      → (get_http_request_boundary buffer ≡ some whole_size)
        × (take (length request) buffer ≡ request)
  enough buffer more e long =
      let n = length request in
      let front : take n buffer ≡ request =
        sym (take-append_le n buffer more long)
        ∙ (ap (take n) e ∙ take-append_exact n request extra refl) in
      let parts : request ++ drop n buffer ≡ buffer =
        ap (λ t. t ++ drop n buffer) (sym front) ∙ take-append-drop n buffer in
      (
        ap get_http_request_boundary (sym parts)
            ∙ boundary-append request (drop n buffer) whole_size complete whole_decided,
        front,
      )

  -- What a front that is not enough says.
  short :
      (buffer more : Bytes) (b : HttpRequestBoundary)
      → buffer ++ more ≡ request ++ extra
      → get_http_request_boundary buffer ≡ some b
      → (b ≡ waiting) ⊎ (b ≡ whole_size)
  short buffer more b e h = elim (boundary-cases b) [
    | inl undecided ↦ inl undecided
    | inr decided ↦ inr (
        some-injective b whole_size (
          sym (boundary-append buffer more b h decided)
          ∙ (ap get_http_request_boundary e
              ∙ boundary-append request extra whole_size complete whole_decided)))
  ]

  read_until-request :
      (rounds : ℕ) (buffer : Bytes) (chunks : List Bytes)
      → length chunks < rounds
      → length buffer < length request
      → buffer ++ contents chunks ≡ request ++ extra
      → All IsNonempty chunks
      → read_until rounds buffer chunks ≡ some request
  unfolding read_until
  read_until-request zero buffer chunks left few e full = absurd (omega (arith, left))
  read_until-request (suc rounds) buffer [] left few e full =
      absurd (omega (arith, ap length e, length-append buffer [], length-append request extra))
  read_until-request (suc rounds) buffer ([] ∷ chunks) left few e full =
      absurd (omega (arith, full.0))
  read_until-request (suc rounds) buffer ((c ∷ chunk) ∷ chunks) left few e full =
      let text = buffer ++ (c ∷ chunk) in
      let e' : text ++ contents chunks ≡ request ++ extra =
        append_assoc buffer (c ∷ chunk) (contents chunks) ∙ e in
      elim (Bool-cases (leb (length request) (length text))) [
        | inl long ↦
            let (found, front) = enough text (contents chunks) e' (ground arith) in
            rw (read_until, found, long, front) refl
        | inr longer ↦
            let rest =
              read_until-request rounds text chunks (omega (arith, left)) (ground arith) e'
                full.1 in
            let (b, found) = boundary-Ends text in
            elim (short text (contents chunks) b e' found) [
              | inl undecided ↦ rw (read_until, found, undecided) rest
              | inr decided ↦ rw (read_until, found, decided, longer) rest
            ]
      ]

-- A text whose boundary is its own end is a request that is read as it is, however the connection
-- cuts it and what comes after it into chunks, if none of them is empty.
pub read_http_request_lem :
    (request extra : Bytes) (chunks : List Bytes)
    → get_http_request_boundary request
      ≡ some (record { size = some (length request); invalid = false })
    → contents chunks ≡ request ++ extra
    → All IsNonempty chunks
    → read_http_request chunks ≡ some request
unfolding read_http_request get_http_request_boundary search starts_with
read_http_request_lem [] extra chunks complete e full = absurd (ground (arith, complete))
read_http_request_lem (c ∷ request) extra chunks complete e full =
    read_until-request (c ∷ request) extra complete (length chunks + 1) [] chunks (omega arith)
      (omega arith) e full

more_rounds :
    (k rounds : ℕ) (buffer : Bytes) (chunks : List Bytes)
    → length chunks < k
    → length chunks < rounds
    → Ends (read_until k buffer chunks)
      × (read_until rounds buffer chunks ≡ read_until k buffer chunks)
unfolding read_until
more_rounds zero rounds buffer chunks h m = absurd (omega (arith, h))
more_rounds (suc k) zero buffer chunks h m = absurd (omega (arith, m))
more_rounds (suc k) (suc rounds) buffer [] h m = (Ends-some, refl)
more_rounds (suc k) (suc rounds) buffer (c ∷ cs) h m =
    let (ends, same) =
      more_rounds k rounds (buffer ++ c) cs (omega (arith, h)) (omega (arith, m)) in
    (
      Ends-if (c =? []) (λ closed. Ends-some)
          (λ given. Ends-bind (boundary-Ends (buffer ++ c)) λ b.
            Ends-if b.invalid (λ wrong. Ends-some)
              (λ right. Ends-option b.size ends (λ size.
                Ends-if (leb size (length (buffer ++ c))) (λ all. Ends-some) (λ part. ends)))),
      ap
          (λ more.
            if c =? []
            then some []
            else get_http_request_boundary (buffer ++ c) >>= λ boundary.
                if boundary.invalid then some [] else elim boundary.size [
                  | none ↦ more
                  | some size ↦
                      if leb size (length (buffer ++ c))
                      then some (take size (buffer ++ c))
                      else more
                ])
          same,
    )

-- On a connection that gives any chunks and is then closed, the loop that reads a request ends within
-- one round more than there are chunks, and no number of rounds above that changes the result.
pub read_until-Ends :
    (rounds : ℕ) (chunks : List Bytes)
    → length chunks < rounds
    → Ends (read_until rounds [] chunks) × (read_until rounds [] chunks ≡ read_http_request chunks)
unfolding read_http_request
read_until-Ends rounds chunks h = (
  (more_rounds rounds rounds [] chunks h h).0,
  (more_rounds (length chunks + 1) rounds [] chunks (omega arith) h).1,
)
