-- ===== src/Io/Routes/Escapes.antt =====
-- modules/io/src/netapp.cpp: what the expressions of routes say, by the syntax of ECMAScript's regular
-- expressions, which std::regex reads.
use rmvl.Prelude.{
  Bool-cases, List, Option, [], arith, false, if◌then◌else◌, inl, inr, none, refl, some, suc, zero,
  ℕ, ◌++◌, ◌==◌, ◌>>=◌, ◌∷◌, ◌≡◌,
}
use rmvl.Bytes.{Bytes, codes}
use rmvl.Core.Str.{contains, starts_with}
use rmvl.Io.Routes.{special, escape}

-- A character that stands for itself, or a group of characters other than '/'.
pub data Item : Type 0 where
  char : ℕ → Item
  group : Item

-- The SyntaxCharacters of ECMAScript.
abbrev pub syntax_characters : Bytes
syntax_characters = codes "^$\\.*+?()[]{}|"

-- The items of an expression after `skip` characters; `none` where a character with a meaning of its
-- own is neither escaped nor the start of a group.
abbrev pub read_regex : ℕ → Bytes → Option (List Item)
read_regex skip [] = if skip == 0 then some [] else none
read_regex (suc skip) (c ∷ s) = read_regex skip s
read_regex zero (c ∷ s) =
    if c == 92
    then (elim s [ [] ↦ none | d ∷ _ ↦ read_regex 1 s >>= λ items. some (char d ∷ items) ])
    else if starts_with (codes "([^/]+)") (c ∷ s)
    then (read_regex 6 s >>= λ items. some (group ∷ items))
    else if contains syntax_characters c
    then none
    else read_regex 0 s >>= λ items. some (char c ∷ items)

-- The items of a literal, before others.
abbrev pub chars : Bytes → List Item → List Item
chars [] items = items
chars (c ∷ s) items = char c ∷ chars s items

ordinary :
    (c : ℕ)
    → contains special c ≡ false
    → ((c == 92) ≡ false) × ((40 == c) ≡ false) × (contains syntax_characters c ≡ false)
unfolding contains
ordinary c h = (ground arith, ground arith, ground arith)

unescaped :
    (c : ℕ) (s : Bytes) (items : List Item)
    → (c == 92) ≡ false
    → (40 == c) ≡ false
    → contains syntax_characters c ≡ false
    → read_regex 0 s ≡ some items
    → read_regex 0 (c ∷ s) ≡ some (char c ∷ items)
unfolding starts_with
unescaped c s items a b d e = rw (a, b, d, e) refl

-- An escaped text stands for its own characters.
pub read_regex-escape :
    (literal rest : Bytes) (items : List Item)
    → read_regex 0 rest ≡ some items
    → read_regex 0 (escape literal ++ rest) ≡ some (chars literal items)
unfolding escape
read_regex-escape [] rest items h = h
read_regex-escape (c ∷ literal) rest items h =
    let ih = read_regex-escape literal rest items h in
    elim (Bool-cases (contains special c)) [
      | inl marked ↦ rw (escape, marked, ih) refl
      | inr plain ↦
          let (no_slash, no_group, no_syntax) = ordinary c plain in
          rw (escape, plain)
            (unescaped c (escape literal ++ rest) (chars literal items) no_slash no_group no_syntax
              ih)
    ]

-- The text of a group stands for a group.
pub read_regex-group :
    (rest : Bytes) (items : List Item)
    → read_regex 0 rest ≡ some items
    → read_regex 0 (codes "([^/]+)" ++ rest) ≡ some (group ∷ items)
unfolding starts_with
read_regex-group rest items h = rw h refl
