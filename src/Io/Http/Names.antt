-- ===== src/Io/Http/Names.antt =====
-- modules/io/src/netapp.cpp: method names, and header names in any case.
use rmvl.Prelude.{[], arith, refl, true, ◌↔◌, ◌∷◌, ◌≡◌}
use rmvl.Bytes.{Bytes, bytes_eq}
use rmvl.Io.Http.{
  ascii_lower, same_lower, ascii_iequal, HttpMethod, get_method, post_method, put_method,
  delete_method, patch_method, head_method, options_method, trace_method, connect_method,
  unknown_method, get_method_from, get_str_from,
}

-- The method that a method's name stands for is the method.
pub get_method_from-get_str_from : (m : HttpMethod) → get_method_from (get_str_from m) ≡ m
unfolding get_method_from get_str_from
get_method_from-get_str_from get_method = refl
get_method_from-get_str_from post_method = refl
get_method_from-get_str_from put_method = refl
get_method_from-get_str_from delete_method = refl
get_method_from-get_str_from patch_method = refl
get_method_from-get_str_from head_method = refl
get_method_from-get_str_from options_method = refl
get_method_from-get_str_from trace_method = refl
get_method_from-get_str_from connect_method = refl
get_method_from-get_str_from unknown_method = refl

-- A name with its capital letters as small ones.
unfoldable pub lowered : Bytes → Bytes
lowered [] = []
lowered (c ∷ s) = ascii_lower c ∷ lowered s

-- Two names are equal without regard to case exactly if they are equal in small letters.
pub ascii_iequal-lowered :
    (lhs rhs : Bytes) → (ascii_iequal lhs rhs ≡ true) ↔ (lowered lhs ≡ lowered rhs)
unfolding ascii_iequal lowered same_lower
ascii_iequal-lowered [] [] = ground arith
ascii_iequal-lowered [] (b ∷ rhs) = ground arith
ascii_iequal-lowered (a ∷ lhs) [] = ground arith
ascii_iequal-lowered (a ∷ lhs) (b ∷ rhs) = ground (arith, ascii_iequal-lowered lhs rhs)
