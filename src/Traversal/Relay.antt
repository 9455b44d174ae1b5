-- ===== src/Traversal/Relay.antt =====
-- internal/nat/relay.go: the messages of the relay and what the server makes of them. A packet lies at the
-- start of a buffer, and Go checks the bounds of a slice of it against the whole buffer.
pub mod Codec
pub mod Server
use afd.Prelude.{
  ℕ, ◌+◌, Bool, true, false, ◌&&◌, List, [], ◌∷◌, ◌++◌, Option, none, some, arith, if◌then◌else◌,
  ltb, leb, ◌==◌, length, take, drop, bytes_eq, put_uint16, uint16,
}

pub record RelayMessage : Type 0 where
  pub message_type : ℕ
  pub client_id : List ℕ
  pub data_length : ℕ
  pub payload : List ℕ

abbrev pub relay_connect : ℕ
relay_connect = 1

abbrev pub relay_connect_ack : ℕ
relay_connect_ack = 2

abbrev pub relay_data : ℕ
relay_data = 3

abbrev pub relay_close : ℕ
relay_close = 4

unfoldable pub encode_relay_message : RelayMessage → List ℕ
encode_relay_message msg =
    put_uint16 msg.message_type
      (put_uint16 (length msg.client_id) (msg.client_id ++ put_uint16 msg.data_length msg.payload))

-- What a call of `decodeRelayMessage` ends with; `out_of_range` is the run-time panic of a slice.
pub data Decoded : Type 0 where
  invalid_message : Decoded
  out_of_range : Decoded
  decoded : RelayMessage → Decoded

-- `decodeRelayMessage(buf[:n], &msg)` for a zeroed `msg`.
unfoldable pub decode_relay_message : List ℕ → ℕ → Decoded
decode_relay_message buf n =
    let id_length : ℕ = uint16 (drop 2 buf) in
    let after_id = drop id_length (drop 4 buf) in
    let len : ℕ = if leb (id_length + 6) n then uint16 after_id else 0 in
    let content = drop 2 after_id in
    let has_data = ltb 0 len && ltb (id_length + 6) n in
    let msg : List ℕ → RelayMessage = λ payload. record {
      message_type = uint16 buf;
      client_id = take id_length (drop 4 buf);
      data_length = len;
      payload = payload;
    } in
    if ltb n 6
    then invalid_message
    else if ltb n (4 + id_length)
    then invalid_message
    else if has_data
    then (if leb (id_length + 6 + len) (length buf)
        then decoded (msg (take len content))
        else out_of_range)
    else decoded (msg [])

-- What the server knows of a client. Addresses are the texts that `ResolveUDPAddr` reads.
pub record RelayClient {ℓ} (Addr : Type ℓ) : Type ℓ where
  pub id : List ℕ
  pub local_addr : Addr
  pub connected : Bool

pub record RelayServer {ℓ} (Addr : Type ℓ) : Type ℓ where
  pub clients : List ℕ → Option (RelayClient Addr)
  pub sent : List (Addr × List ℕ)

module _ {ℓ} {Addr : Type ℓ} where
  unfoldable pub new_relay_server : RelayServer Addr
  new_relay_server = record { clients = λ _. none; sent = [] }

  unfoldable pub handle_connect : List ℕ → Addr → RelayServer Addr → RelayServer Addr
  unfolding encode_relay_message
  handle_connect client_id addr r = record {
    clients = λ k.
        if bytes_eq k client_id
        then some (record { id = client_id; local_addr = addr; connected = true })
        else r.clients k;
    sent =
        r.sent
        ++ (
          addr,
          encode_relay_message (record {
            message_type = relay_connect_ack;
            client_id = client_id;
            data_length = 0;
            payload = [];
          }),
        )
          ∷ [];
  }

  -- `resolves` says whether `ResolveUDPAddr` can read the address of a client.
  unfoldable pub handle_relay_data :
      (Addr → Bool) → List ℕ → List ℕ → RelayServer Addr → RelayServer Addr
  handle_relay_data resolves client_id payload r = elim (r.clients client_id) [
    | none ↦ r
    | some c ↦
        if resolves c.local_addr
        then record r { sent = r.sent ++ (c.local_addr, payload) ∷ [] }
        else r
  ]

  unfoldable pub handle_close : List ℕ → RelayServer Addr → RelayServer Addr
  handle_close client_id r = record r {
    clients = λ k. if bytes_eq k client_id then none else r.clients k;
  }

  unfoldable pub handle_message :
      (Addr → Bool) → RelayMessage → Addr → RelayServer Addr → RelayServer Addr
  unfolding handle_connect handle_relay_data handle_close
  handle_message resolves msg addr r =
      if msg.message_type == relay_connect
      then handle_connect msg.client_id addr r
      else if msg.message_type == relay_data
      then handle_relay_data resolves msg.client_id msg.payload r
      else if msg.message_type == relay_close
      then handle_close msg.client_id r
      else r
