-- ===== src/Io/Http.antt =====
-- modules/io/src/netapp.cpp and modules/io/include/rmvl/io/netapp.hpp: HTTP messages. The methods
-- that return the response that they change are functions from the response to the response.
pub mod Requests
pub mod Responses
pub mod Middleware
pub mod Urls
pub mod Names
pub mod Boundary
pub mod Client
use rmvl.Prelude.{
  Bool, Option, [], drop, false, if◌then◌else◌, leb, length, ltb, none, not, some, suc, true, zero,
  ℕ, ◌&&◌, ◌+◌, ◌-◌, ◌==◌, ◌=?◌, ◌∷◌,
}
use rmvl.Bytes.{Bytes, codes, bytes_eq, slice}
use rmvl.Dict.{Dict, find}
use rmvl.Core.Str.{starts_with, search}

-- What a char holds, below 128: `ch + ('a' - 'A')` for the capital letters.
unfoldable pub ascii_lower : ℕ → ℕ
ascii_lower c = if leb 65 c && leb c 90 then c + 32 else c

unfoldable pub same_lower : Bytes → Bytes → Bool
same_lower (a ∷ lhs) (b ∷ rhs) =
    if not (ascii_lower a == ascii_lower b) then false else same_lower lhs rhs
same_lower _ _ = true

unfoldable pub ascii_iequal : Bytes → Bytes → Bool
ascii_iequal lhs rhs = if not (length lhs == length rhs) then false else same_lower lhs rhs

-- The loop over the places where the token may stand: `n + 1` of them.
unfoldable pub icontains_from : ℕ → Bytes → Bytes → Bool
icontains_from zero value token = ascii_iequal (slice value 0 (length token)) token
icontains_from (suc n) value token =
    let rest = icontains_from n (drop 1 value) token in
    if ascii_iequal (slice value 0 (length token)) token then true else rest

unfoldable pub ascii_icontains : Bytes → Bytes → Bool
ascii_icontains value [] = true
ascii_icontains value (c ∷ token) =
    if ltb (length value) (length (c ∷ token))
    then false
    else icontains_from (length value - length (c ∷ token)) value (c ∷ token)

pub data HttpMethod : Type 0 where
  get_method post_method put_method delete_method patch_method head_method options_method :
      HttpMethod
  trace_method connect_method unknown_method : HttpMethod

pub record Request : Type 0 where
  pub method : HttpMethod
  pub uri : Bytes
  pub params : Dict Bytes Bytes
  pub query : Dict Bytes Bytes
  pub host : Bytes
  pub content_type : Bytes
  pub accept : Bytes
  pub accept_language : Bytes
  pub connection : Bytes
  pub heads : Dict Bytes Bytes
  pub body : Bytes

abbrev pub no_request : Request
no_request = record {
  method = get_method;
  uri = [];
  params = [];
  query = [];
  host = [];
  content_type = [];
  accept = codes "*/*";
  accept_language = [];
  connection = [];
  heads = [];
  body = [];
}

pub record Response : Type 0 where
  pub state : ℕ
  pub message : Bytes
  pub heads : Dict Bytes Bytes
  pub body : Bytes

abbrev pub no_response : Response
no_response = record { state = 0; message = []; heads = []; body = [] }

unfoldable pub find_header : Dict Bytes Bytes → Bytes → Option Bytes
find_header [] name = none
find_header ((key, value) ∷ heads) name =
    if ascii_iequal key name then some value else find_header heads name

unfoldable pub get_method_from : Bytes → HttpMethod
get_method_from str =
    if str =? codes "GET"
    then get_method
    else if str =? codes "POST"
    then post_method
    else if str =? codes "PUT"
    then put_method
    else if str =? codes "DELETE"
    then delete_method
    else if str =? codes "PATCH"
    then patch_method
    else if str =? codes "HEAD"
    then head_method
    else if str =? codes "OPTIONS"
    then options_method
    else if str =? codes "TRACE"
    then trace_method
    else if str =? codes "CONNECT"
    then connect_method
    else unknown_method

unfoldable pub get_str_from : HttpMethod → Bytes
get_str_from get_method = codes "GET"
get_str_from post_method = codes "POST"
get_str_from put_method = codes "PUT"
get_str_from delete_method = codes "DELETE"
get_str_from patch_method = codes "PATCH"
get_str_from head_method = codes "HEAD"
get_str_from options_method = codes "OPTIONS"
get_str_from trace_method = codes "TRACE"
get_str_from connect_method = codes "CONNECT"
get_str_from unknown_method = codes "UNKNOWN"
