-- ===== src/Protocol/Tests.antt =====
-- Runs of the codec on the inputs of daemon/tests/test_protocol.py, and the theorems at such inputs.
use flipper_agent_indicator.Prelude.{◌≡◌, refl, ◌↔◌, [], ◌∷◌, ◌++◌, ok, err}
use flipper_agent_indicator.Text.{codes}
use flipper_agent_indicator.Utf8
use flipper_agent_indicator.Utf8.{Bytes, utf8, utf8_char}
use flipper_agent_indicator.Protocol.{
  claude, generic, needs_input, Notification, notify, ack, encode, decode, empty_frame, unknown_tag,
  notify_header_truncated, notify_text_truncated, ack_header_truncated, not_an_agent,
  unicode_encode_error,
}
use flipper_agent_indicator.Protocol.RoundTrip.{received, decode-encode}
use flipper_agent_indicator.Protocol.Accepts.{Holds, decode_iff}

abbrev pub hello : Notification
hello = record { agent = claude; state = needs_input; text = codes "hé" }

encode-hello : encode (notify hello) ≡ ok (1 ∷ 0 ∷ 2 ∷ 3 ∷ 0x68 ∷ 0xC3 ∷ 0xA9 ∷ [])
unfolding encode Utf8.encode utf8 utf8_char
encode-hello = refl

surrogate : encode (notify (record hello { text = 0xDC80 ∷ [] })) ≡ err unicode_encode_error
unfolding encode Utf8.encode utf8 utf8_char
surrogate = refl

decode_errors :
    (decode [] ≡ err empty_frame)
    × (decode (0x55 ∷ []) ≡ err (unknown_tag 0x55))
    × (decode (1 ∷ 0 ∷ 0 ∷ []) ≡ err notify_header_truncated)
    × (decode (1 ∷ 0 ∷ 0 ∷ 10 ∷ 0x61 ∷ []) ≡ err notify_text_truncated)
    × (decode (0x81 ∷ []) ≡ err ack_header_truncated)
    × (decode (0x81 ∷ 9 ∷ []) ≡ err (not_an_agent 9))
unfolding decode
decode_errors = (refl, refl, refl, refl, refl, refl)

-- An overlong form, a lone surrogate and a text that ends inside a character.
decode_replaces :
    (Utf8.decode (0xC0 ∷ 0x80 ∷ 0x41 ∷ []) ≡ 0xFFFD ∷ 0xFFFD ∷ 0x41 ∷ [])
    × (Utf8.decode (0xED ∷ 0xA0 ∷ 0x80 ∷ []) ≡ 0xFFFD ∷ 0xFFFD ∷ 0xFFFD ∷ [])
    × (Utf8.decode (0xF0 ∷ 0x9F ∷ 0x98 ∷ []) ≡ 0xFFFD ∷ [])
    × (Utf8.decode (0xE2 ∷ 0x82 ∷ 0x41 ∷ []) ≡ 0xFFFD ∷ 0x41 ∷ [])
unfolding Utf8.decode
decode_replaces = (refl, refl, refl, refl)

decode-encode_example :
    (bytes : Bytes) × (encode (notify hello) ≡ ok bytes)
    × (decode (bytes ++ 7 ∷ []) ≡ ok (received (notify hello)))
decode-encode_example = decode-encode (notify hello) (7 ∷ []) refl

decode_iff_example :
    (decode (0x81 ∷ 0xFF ∷ []) ≡ ok (ack generic)) ↔ Holds (0x81 ∷ 0xFF ∷ []) (ack generic)
decode_iff_example = decode_iff (0x81 ∷ 0xFF ∷ []) (ack generic)
