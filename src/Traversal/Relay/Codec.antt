-- ===== src/Traversal/Relay/Codec.antt =====
-- `encodeRelayMessage` and `decodeRelayMessage` of internal/nat/relay.go.
use afd.Prelude.{
  ℕ, ◌+◌, ◌≤◌, ◌<◌, ◌≡◌, refl, ap, ◌∙◌, true, false, ◌&&◌, List, [], ◌∷◌, ◌++◌, arith,
  if◌then◌else◌, ltb, leb, length, take, drop, put_uint16, uint16, uint16-put, take-append,
  drop-append, append_assoc, length-append,
}
use afd.Traversal.Relay.{
  RelayMessage, out_of_range, decoded, encode_relay_message, decode_relay_message,
}

-- The decoder on what it reads at each place.
decode_read :
    (buf : List ℕ) (n t i : ℕ) (id after : List ℕ)
    → uint16 (drop 2 buf) ≡ i
    → take i (drop 4 buf) ≡ id
    → drop i (drop 4 buf) ≡ after
    → uint16 buf ≡ t
    → 6 + i ≤ n
    → decode_relay_message buf n ≡ (
        if ltb 0 (uint16 after) && ltb (i + 6) n
        then (if leb (i + 6 + uint16 after) (length buf)
            then decoded (record {
              message_type = t;
              client_id = id;
              data_length = uint16 after;
              payload = take (uint16 after) (drop 2 after);
            })
            else out_of_range)
        else decoded
            (record { message_type = t; client_id = id; data_length = uint16 after; payload = [] }))
unfolding decode_relay_message uint16
decode_read buf n t i id after ei eid eafter et h =
    let long : ltb n 6 ≡ false = ground (arith, h) in
    let longer : ltb n (4 + i) ≡ false = ground (arith, h) in
    let whole : leb (i + 6) n ≡ true = ground (arith, h) in
    rw (ei, eid, eafter, et, long, longer, whole, decode_relay_message) refl

module _ (msg : RelayMessage) (t : msg.message_type < 65536) (i : length msg.client_id < 65536)
    (l : msg.data_length < 65536) where
  buffer_of : List ℕ → List ℕ
  buffer_of stale = encode_relay_message msg ++ stale

  after_id :
      (stale : List ℕ)
      → drop (length msg.client_id) (drop 4 (buffer_of stale))
        ≡ put_uint16 msg.data_length (msg.payload ++ stale)
  unfolding buffer_of encode_relay_message put_uint16
  after_id stale =
      ap (drop (length msg.client_id))
        (append_assoc msg.client_id (put_uint16 msg.data_length msg.payload) stale)
      ∙ drop-append msg.client_id (put_uint16 msg.data_length (msg.payload ++ stale))

  id_read :
      (stale : List ℕ) → take (length msg.client_id) (drop 4 (buffer_of stale)) ≡ msg.client_id
  unfolding buffer_of encode_relay_message put_uint16
  id_read stale =
      ap (take (length msg.client_id))
        (append_assoc msg.client_id (put_uint16 msg.data_length msg.payload) stale)
      ∙ take-append msg.client_id (put_uint16 msg.data_length (msg.payload ++ stale))

  id_length : (stale : List ℕ) → uint16 (drop 2 (buffer_of stale)) ≡ length msg.client_id
  unfolding buffer_of encode_relay_message
  id_length stale = unfold put_uint16 uint16 in omega (arith, i)

  type_read : (stale : List ℕ) → uint16 (buffer_of stale) ≡ msg.message_type
  unfolding buffer_of encode_relay_message
  type_read stale = unfold put_uint16 uint16 in omega (arith, t)

  length_encoded : length (encode_relay_message msg) ≡ length msg.client_id + 6 + length msg.payload
  unfolding encode_relay_message put_uint16
  length_encoded =
      omega (arith, length-append msg.client_id (put_uint16 msg.data_length msg.payload))

  payload_read : (bs : List ℕ) → drop 2 (put_uint16 msg.data_length bs) ≡ bs
  unfolding put_uint16
  payload_read bs = refl

  length_buffer :
      (stale : List ℕ)
      → length (buffer_of stale) ≡ length msg.client_id + 6 + length msg.payload + length stale
  unfolding buffer_of
  length_buffer stale =
      omega (arith, length-append (encode_relay_message msg) stale, length_encoded)

  some_left :
      ltb (length msg.client_id + 6) (length (encode_relay_message msg))
      ≡ ltb 0 (length msg.payload)
  some_left = ground (arith, length_encoded)

  in_buffer :
      (stale : List ℕ)
      → leb (length msg.client_id + 6 + msg.data_length) (length (buffer_of stale))
        ≡ leb msg.data_length (length msg.payload + length stale)
  in_buffer stale = ground (arith, length_buffer stale)

  -- Decoding a packet gives the message that was encoded, but for its data: as many bytes as the length field
  -- says, also where the packet ends before them. The rest is what the buffer holds behind the packet, and a
  -- length past the end of the buffer is a run-time panic.
  pub decode-encode :
      (stale : List ℕ)
      → decode_relay_message (encode_relay_message msg ++ stale) (length (encode_relay_message msg))
        ≡ (if ltb 0 msg.data_length && ltb 0 (length msg.payload)
            then (if leb msg.data_length (length msg.payload + length stale)
                then decoded (record msg { payload = take msg.data_length (msg.payload ++ stale) })
                else out_of_range)
            else decoded (record msg { payload = [] }))
  unfolding buffer_of
  decode-encode stale =
      decode_read (buffer_of stale) (length (encode_relay_message msg)) _ _ _ _ (id_length stale)
        (id_read stale) (after_id stale) (type_read stale) (omega (arith, length_encoded))
      ∙ rw
          (
            uint16-put msg.data_length (msg.payload ++ stale) l,
            payload_read (msg.payload ++ stale),
            some_left,
            in_buffer stale,
          )
          refl

whole_payload :
    (t len : ℕ) (id p stale : List ℕ)
    → len ≡ length p
    → (if ltb 0 len && ltb 0 (length p)
        then (if leb len (length p + length stale)
            then decoded (record {
              message_type = t;
              client_id = id;
              data_length = len;
              payload = take len (p ++ stale);
            })
            else out_of_range)
        else decoded (record { message_type = t; client_id = id; data_length = len; payload = [] }))
      ≡ decoded (record { message_type = t; client_id = id; data_length = len; payload = p })
whole_payload t len id [] stale e =
    let empty : ltb 0 len && ltb 0 0 ≡ false = ground (arith, e) in rw empty refl
whole_payload t len id (x ∷ xs) stale e =
    let some : ltb 0 len && ltb 0 (length (x ∷ xs)) ≡ true = ground (arith, e) in
    let fits : leb len (length (x ∷ xs) + length stale) ≡ true = ground (arith, e) in
    rw (some, fits)
      (ap
        (λ c. decoded (record { message_type = t; client_id = id; data_length = len; payload = c }))
        (ap (λ n. take n ((x ∷ xs) ++ stale)) e ∙ take-append (x ∷ xs) stale))

-- A message whose length field is the length of its data is decoded as it was encoded, whatever the buffer holds
-- behind the packet.
pub relay_roundtrip :
    (msg : RelayMessage) (stale : List ℕ)
    → msg.message_type < 65536
    → length msg.client_id < 65536
    → length msg.payload < 65536
    → msg.data_length ≡ length msg.payload
    → decode_relay_message (encode_relay_message msg ++ stale) (length (encode_relay_message msg))
      ≡ decoded msg
relay_roundtrip msg stale t i p e =
    decode-encode msg t i (omega (arith, e, p)) stale
    ∙ whole_payload msg.message_type msg.data_length msg.client_id msg.payload stale e
