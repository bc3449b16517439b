-- ===== src/Io/Http/Responses/Length.antt =====
-- modules/io/src/netapp.cpp: the Content-Length of the responses that the library fills.
use rmvl.Prelude.{Bool-cases, Option, Option-cases, inl, inr, length, refl, some, ℕ, ◌==◌, ◌∙◌, ◌≡◌}
use rmvl.Bytes.{Bytes, codes, bytes_eq, decimal, decimal_from}
use rmvl.Dict.{Dict, find, put}
use rmvl.Dict.Laws.{find-put_self, find-put_ne}
use rmvl.Io.Http.{Response}
use rmvl.Io.Http.Responses.{set_head, send, not_found, send_file, redirect}

abbrev pub content_length : Bytes
content_length = codes "Content-Length"

-- The response states the length of its body.
abbrev pub IsMeasured : Response → Type 0
IsMeasured res = find content_length res.heads ≡ some (decimal (length res.body))

find-put_type :
    (value kind : Bytes) (heads : Dict Bytes Bytes)
    → find content_length (put (codes "Content-Type") kind (put content_length value heads))
      ≡ some value
find-put_type value kind heads =
    find-put_ne (codes "Content-Type") content_length kind _ refl
    ∙ find-put_self content_length value heads

send-IsMeasured : (text : Bytes) (res : Response) → IsMeasured (send text res)
unfolding send set_head
send-IsMeasured text res = elim (Bool-cases (res.state == 0)) [
  | inl unset ↦ rw (send, unset) (find-put_type _ _ res.heads)
  | inr given ↦ rw (send, given) (find-put_type _ _ res.heads)
]

send_file-IsMeasured :
    (files : Bytes → Option Bytes) (file : Bytes) (res : Response)
    → IsMeasured (send_file files file res)
unfolding send_file not_found set_head decimal decimal_from
send_file-IsMeasured files file res = elim (Option-cases (files file)) [
  | inl missing ↦ rw (send_file, missing) (find-put_type _ _ res.heads)
  | inr (content, found) ↦ elim (Bool-cases (res.state == 0)) [
    | inl unset ↦ rw (send_file, found, unset) (find-put_type _ _ res.heads)
    | inr given ↦ rw (send_file, found, given) (find-put_type _ _ res.heads)
  ]
]

-- Whatever a response held before, after a text or a file is sent, a missing one included, or after
-- a redirection, its Content-Length is the length of its body.
pub filled-IsMeasured :
    (files : Bytes → Option Bytes) (text file url : Bytes) (code : ℕ) (res : Response)
    → IsMeasured (send text res)
      × IsMeasured (send_file files file res)
      × IsMeasured (redirect code url res)
unfolding redirect set_head decimal decimal_from
filled-IsMeasured files text file url code res = (
  send-IsMeasured text res,
  send_file-IsMeasured files file res,
  find-put_ne (codes "Connection") content_length _ _ refl ∙ find-put_type _ _ _,
)
