-- ===== src/Core/Str/Join.antt =====
-- modules/core/src/core.cpp: what join puts between and after the strings.
use rmvl.Prelude.{List, [], ap, append_assoc, refl, sym, ℕ, ◌++◌, ◌∙◌, ◌∷◌, ◌≡◌}
use rmvl.Bytes.{Bytes}
use rmvl.Core.Str.{pop_back, append_all, join}

-- The strings with the delimiter between them.
unfoldable pub separated : Bytes → List Bytes → Bytes
separated delim [] = []
separated delim (s ∷ []) = s
separated delim (s ∷ t ∷ strs) = s ++ (delim ++ separated delim (t ∷ strs))

append_all-separated :
    (res delim : Bytes) (s : Bytes) (strs : List Bytes)
    → append_all res (s ∷ strs) delim ≡ (res ++ separated delim (s ∷ strs)) ++ delim
unfolding append_all separated
append_all-separated res delim s [] = sym (append_assoc res s delim)
append_all-separated res delim s (t ∷ strs) =
    let after = (res ++ (s ++ delim)) in
    append_all-separated after delim t strs
    ∙ ap (λ x. x ++ delim)
        (append_assoc res (s ++ delim) (separated delim (t ∷ strs))
          ∙ ap (λ x. res ++ x) (append_assoc s delim (separated delim (t ∷ strs))))

pop_back-snoc : (s : Bytes) (c : ℕ) → pop_back (s ++ (c ∷ [])) ≡ s
unfolding pop_back
pop_back-snoc [] c = refl
pop_back-snoc (a ∷ []) c = refl
pop_back-snoc (a ∷ b ∷ s) c = ap (λ x. a ∷ x) (pop_back-snoc (b ∷ s) c)

-- For a delimiter whose last character is `c`, after `front`, joining one string or more puts the
-- delimiter between them and leaves `front` after the last one: nothing, exactly if the delimiter is
-- a single character.
pub join-separated :
    (strs : List Bytes) (s front : Bytes) (c : ℕ)
    → join (s ∷ strs) (front ++ (c ∷ [])) ≡ separated (front ++ (c ∷ [])) (s ∷ strs) ++ front
unfolding join
join-separated strs s front c =
    ap pop_back (
      append_all-separated [] (front ++ (c ∷ [])) s strs
      ∙ sym (append_assoc (separated (front ++ (c ∷ [])) (s ∷ strs)) front (c ∷ [])))
    ∙ pop_back-snoc _ c
