-- ===== src/Traversal/Relay/Server.antt =====
-- The relay server of internal/nat/relay.go after any messages, against the registrations among them.
use afd.Prelude.{
  ℕ, ◌≡◌, refl, ap, sym, ◌∙◌, Bool, ◌&&◌, List, [], ◌∷◌, ◌++◌, Option, none, some, arith,
  if◌then◌else◌, ◌==◌, bytes_eq, Bool-cases, Option-cases, inl, inr,
}
use mathlib.Core.List.{append-nil}
use afd.Traversal.Relay.{
  RelayMessage, RelayClient, RelayServer, relay_connect, relay_close, new_relay_server,
  handle_message, handle_connect, handle_close, handle_relay_data,
}

module _ {ℓ} {Addr : Type ℓ} where
  -- The address from which a client connected last, unless it has closed since. The newest message is first.
  unfoldable pub registered : List ℕ → List (RelayMessage × Addr) → Option Addr
  registered k [] = none
  registered k ((m, addr) ∷ ms) =
      let before = registered k ms in
      if bytes_eq k m.client_id && m.message_type == relay_connect
      then some addr
      else if bytes_eq k m.client_id && m.message_type == relay_close
      then none
      else before

  -- What a packet for that client makes the server send.
  abbrev pub deliveries : (Addr → Bool) → Option Addr → List ℕ → List (Addr × List ℕ)
  deliveries resolves none content = []
  deliveries resolves (some a) content = if resolves a then (a, content) ∷ [] else []

  -- The server after the messages, the newest of which is first.
  unfoldable pub served : (Addr → Bool) → List (RelayMessage × Addr) → RelayServer Addr
  served resolves [] = new_relay_server
  served resolves ((m, addr) ∷ ms) = handle_message resolves m addr (served resolves ms)

  abbrev address_of : Option (RelayClient Addr) → Option Addr
  address_of none = none
  address_of (some c) = some c.local_addr

  served-registered :
      (resolves : Addr → Bool) (ms : List (RelayMessage × Addr)) (k : List ℕ)
      → address_of ((served resolves ms).clients k) ≡ registered k ms
  unfolding served registered new_relay_server handle_message handle_connect handle_close
      handle_relay_data
  served-registered resolves [] k = refl
  served-registered resolves ((m, addr) ∷ ms) k = ground (arith, served-registered resolves ms k)

  sent_for :
      (resolves : Addr → Bool) (r : RelayServer Addr) (k content : List ℕ)
      → (handle_relay_data resolves k content r).sent
        ≡ r.sent ++ deliveries resolves (address_of (r.clients k)) content
  unfolding handle_relay_data
  sent_for resolves r k content = elim (Option-cases (r.clients k)) [
    | inl unknown ↦ rw (unknown, handle_relay_data) (sym (append-nil r.sent))
    | inr (c, known) ↦ elim (Bool-cases (resolves c.local_addr)) [
      | inl reached ↦ rw (known, reached, handle_relay_data) refl
      | inr lost ↦ rw (known, lost, handle_relay_data) (sym (append-nil r.sent))
    ]
  ]

  -- After any messages, data for a client goes to the address from which it connected last, where that address
  -- can be resolved and the client has not closed since, and is dropped otherwise.
  pub relay_delivers :
      (resolves : Addr → Bool) (ms : List (RelayMessage × Addr)) (k content : List ℕ)
      → (handle_relay_data resolves k content (served resolves ms)).sent
        ≡ (served resolves ms).sent ++ deliveries resolves (registered k ms) content
  relay_delivers resolves ms k content =
      sent_for resolves (served resolves ms) k content
      ∙ ap (λ a. (served resolves ms).sent ++ deliveries resolves a content)
          (served-registered resolves ms k)
