-- ===== src/Alpn/Tests.antt =====
-- The choice of the protocol on the list of a browser.
use h2_server.Prelude.{◌≡◌, some, List, [], ◌∷◌, arith, length, Bytes, bytes}
use h2_server.Alpn.{alpn_select_proto_cb}
use h2_server.Alpn.Choice.{encode, offset_of, reply, alpn_select_proto_cb-offset_of}

abbrev offered : List Bytes
offered = bytes "http/1.1" ∷ bytes "h2" ∷ []

alpn_select_proto_cb-offset_of_example :
    alpn_select_proto_cb (encode offered) (length (encode offered))
    ≡ some (reply (offset_of (bytes "h2") offered 0))
alpn_select_proto_cb-offset_of_example = alpn_select_proto_cb-offset_of offered (omega arith)
