-- ===== src/Tests/Websocket.antt =====
-- modules/io/src/ws_aux.hpp on the example of RFC 6455.
use rmvl.Prelude.{Bool, arith, refl, true, ◌++◌, ◌=?◌, ◌≡◌}
use rmvl.Bytes.{net_u32, host_of_net, Bytes, codes, bytes_eq}
use rmvl.Io.Websocket.{
  base64_from, emit, padding, feed, process_block, mix_all, mix, round_function, in_order,
  extend_words, load_words, rol, reset, update, final, base64_encode, magic_guid,
  generate_accept_key,
}
use rmvl.Io.Websocket.Updates.{generate_accept_key_lem}
use rmvl.Io.Websocket.Padding.{sha1, final-update_twice}

abbrev client_key : Bytes
client_key = codes "dGhlIHNhbXBsZSBub25jZQ=="

abbrev accept_key : Bytes
accept_key = generate_accept_key client_key

abbrev expected_key : Bytes
expected_key = codes "s3pPLMBiTxaQ9kYGzzhZRbK+xOo="

-- The server's answer to this key in the RFC.
abbrev is_expected : Bool
is_expected = accept_key =? expected_key

rfc_accept_key : is_expected ≡ true
unfolding generate_accept_key base64_encode base64_from emit padding final update feed process_block
    mix_all mix round_function in_order extend_words load_words rol net_u32 host_of_net
rfc_accept_key = refl

final-update_twice_example :
    final (update (codes "c") (update (codes "ab") reset)) ≡ sha1 (codes "ab" ++ codes "c")
final-update_twice_example = final-update_twice (codes "ab") (codes "c") (omega arith)

generate_accept_key_lem_example :
    generate_accept_key client_key ≡ base64_encode (final (update (client_key ++ magic_guid) reset))
generate_accept_key_lem_example = generate_accept_key_lem client_key
