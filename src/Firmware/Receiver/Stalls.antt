-- ===== src/Firmware/Receiver/Stalls.antt =====
-- What becomes of the bytes behind one that begins no frame.
use flipper_agent_indicator.Prelude.{
  ℕ, ◌+◌, ◌-◌, ◌<◌, ◌≡◌, refl, Bool, false, ◌||◌, min, List, [], ◌∷◌, ◌++◌, append-nil,
  append_assoc, none, some, length, take_all, length-append, arith, tests, lt→leb_false, ◌==◌,
}
use flipper_agent_indicator.Utf8.{Bytes}
use flipper_agent_indicator.Firmware.{
  fai_protocol_decode, fai_tag_notify, fai_tag_ack, fai_tag_ping, fai_tag_pong,
}
use flipper_agent_indicator.Firmware.Receiver.{
  data_received, parsed_as, rx_callback, parse_round, undecoded, join_received, receive_all,
}
use flipper_agent_indicator.Firmware.Receiver.Rounds.{try_parse_round}
use flipper_agent_indicator.Firmware.Receiver.Streams.{joined}

abbrev pub is_tag : ℕ → Bool
is_tag t = t == fai_tag_notify || t == fai_tag_ack || t == fai_tag_ping || t == fai_tag_pong

module _ (t : ℕ) (unknown : is_tag t ≡ false) where
  decode_unknown : (rest : Bytes) → fai_protocol_decode (t ∷ rest) ≡ none
  unfolding fai_protocol_decode
  decode_unknown rest = ground arith

  rx_callback_unknown :
      (rx piece : Bytes)
      → length (t ∷ rx) + length piece < 136
      → rx_callback (t ∷ rx) (data_received piece)
        ≡ some (record { frames = []; took = length piece; rx = t ∷ (rx ++ piece) })
  unfolding rx_callback parsed_as undecoded
  rx_callback_unknown rx piece small =
      let room : (136 - length (t ∷ rx) == 0) ≡ false = grind (tests, small) in
      let taken : min (length piece) (136 - length (t ∷ rx)) ≡ length piece = omega arith in
      let short : length (t ∷ (rx ++ piece)) < 136 = omega (arith, length-append rx piece) in
      rw
        (
          room,
          taken,
          take_all (length piece) piece (omega arith),
          try_parse_round (length (rx ++ piece)) t (rx ++ piece),
          decode_unknown (rx ++ piece),
          parse_round,
          lt→leb_false 136 (length (t ∷ (rx ++ piece))) short,
        )
        refl

  -- Behind a byte that is no tag nothing is delivered until the buffer is full: whatever arrives in any
  -- pieces stays in the buffer, complete frames among it.
  pub receive_all_unknown :
      (pieces : List Bytes) (rx : Bytes)
      → length (t ∷ rx) + length (joined pieces) < 136
      → receive_all (t ∷ rx) pieces ≡ some ([], t ∷ (rx ++ joined pieces))
  unfolding receive_all join_received
  receive_all_unknown [] rx small = rw (append-nil rx) refl
  receive_all_unknown (piece ∷ pieces) rx small =
      let sizes = length-append piece (joined pieces) in
      rw
        (
          rx_callback_unknown rx piece (omega arith),
          receive_all,
          receive_all_unknown pieces (rx ++ piece) (omega (arith, length-append rx piece)),
          append_assoc rx piece (joined pieces),
        )
        refl
