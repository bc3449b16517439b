-- ===== src/Core/Str.antt =====
-- modules/core/src/core.cpp: rm::str. A position is a number, and std::string::npos is `none`.
pub mod Strip
pub mod Join
pub mod Parts
pub mod Cases
use rmvl.Prelude.{
  Bool, List, Option, [], drop, false, if◌then◌else◌, leb, length, none, some, suc, true, zero, ℕ,
  ◌&&◌, ◌++◌, ◌+◌, ◌-◌, ◌==◌, ◌>>=◌, ◌||◌, ◌∷◌,
}
use rmvl.Bytes.{Bytes, codes, slice}

-- std::string_view::find, find_first_not_of and find_last_not_of.
unfoldable pub starts_with : Bytes → Bytes → Bool
starts_with [] s = true
starts_with (p ∷ pattern) [] = false
starts_with (p ∷ pattern) (c ∷ s) = p == c && starts_with pattern s

unfoldable pub search : Bytes → Bytes → ℕ → Option ℕ
search pattern [] i = if starts_with pattern [] then some i else none
search pattern (c ∷ s) i =
    let rest = search pattern s (i + 1) in if starts_with pattern (c ∷ s) then some i else rest

unfoldable pub find_text : Bytes → Bytes → ℕ → Option ℕ
find_text s pattern start =
    if leb start (length s) then search pattern (drop start s) start else none

unfoldable pub contains : Bytes → ℕ → Bool
contains [] c = false
contains (x ∷ chars) c = x == c || contains chars c

unfoldable pub not_of_from : Bytes → Bytes → ℕ → Option ℕ
not_of_from chars [] i = none
not_of_from chars (c ∷ s) i =
    let rest = not_of_from chars s (i + 1) in if contains chars c then rest else some i

unfoldable pub find_first_not_of : Bytes → Bytes → ℕ → Option ℕ
find_first_not_of s chars start = not_of_from chars (drop start s) start

-- The last such position at or after the first one seen.
unfoldable pub last_not_of_from : Bytes → Bytes → ℕ → Option ℕ → Option ℕ
last_not_of_from chars [] i last = last
last_not_of_from chars (c ∷ s) i last =
    last_not_of_from chars s (i + 1) (if contains chars c then last else some i)

unfoldable pub find_last_not_of : Bytes → Bytes → Option ℕ
find_last_not_of s chars = last_not_of_from chars s 0 none

abbrev get_position : Option ℕ → ℕ
get_position none = 0
get_position (some i) = i

-- The loop of split from `start`, which is the front of the next part. `none`: the loop has not
-- ended after these rounds.
unfoldable pub split_loop : ℕ → Bytes → Bytes → Option ℕ → Option (List Bytes)
split_loop zero str delim start = none
split_loop (suc rounds) str delim start =
    let index = start >>= find_text str delim in
    let begin = get_position start in
    let end = get_position index in
    let rest = split_loop rounds str delim (find_first_not_of str delim end) in
    elim index [
      | none ↦ some (elim start [ none ↦ [] | some _ ↦ drop begin str ∷ [] ])
      | some _ ↦ rest >>= λ parts. some (slice str begin (end - begin) ∷ parts)
    ]

-- Each round but the last one moves on by a character of a delimiter that is not empty.
unfoldable pub split : Bytes → Bytes → Option (List Bytes)
split [] delim = some []
split (c ∷ s) delim =
    split_loop (length (c ∷ s) + 1) (c ∷ s) delim (find_first_not_of (c ∷ s) delim 0)

unfoldable pub pop_back : Bytes → Bytes
pop_back [] = []
pop_back (c ∷ []) = []
pop_back (c ∷ d ∷ s) = c ∷ pop_back (d ∷ s)

unfoldable pub append_all : Bytes → List Bytes → Bytes → Bytes
append_all res [] delim = res
append_all res (str ∷ strs) delim = append_all (res ++ (str ++ delim)) strs delim

-- For a delimiter without a zero byte, which `data()` is read up to. The last character is dropped;
-- of an empty string, which is undefined behaviour, nothing is.
unfoldable pub join : List Bytes → Bytes → Bytes
join [] delim = []
join (s ∷ strs) delim = pop_back (append_all [] (s ∷ strs) delim)

abbrev pub blanks : Bytes
blanks = 32 ∷ 9 ∷ 10 ∷ 13 ∷ []

-- `none` is the exception that substr throws for a position behind the end.
unfoldable pub strip : Bytes → Option Bytes
strip str =
    let end : ℕ = elim (find_last_not_of str blanks) [ none ↦ 0 | some i ↦ i + 1 ] in
    find_first_not_of str blanks 0 >>= λ begin. some (slice str begin (end - begin))

-- std::tolower and std::toupper of the C locale.
unfoldable pub to_lower : ℕ → ℕ
to_lower c = if leb 65 c && leb c 90 then c + 32 else c

unfoldable pub to_upper : ℕ → ℕ
to_upper c = if leb 97 c && leb c 122 then c - 32 else c

unfoldable pub lower : Bytes → Bytes
lower [] = []
lower (c ∷ s) = to_lower c ∷ lower s

unfoldable pub upper : Bytes → Bytes
upper [] = []
upper (c ∷ s) = to_upper c ∷ upper s
