-- ===== src/Tests/Network.antt =====
-- Runs of the relay and the STUN parsers of internal/nat, of the chain of internal/api, and of the checks of
-- pkg/config.
use afd.Prelude.{
  ℕ, ◌+◌, ◌*◌, ◌^◌, ◌≡◌, ◌↔◌, refl, Bool, true, false, ◌&&◌, List, [], ◌∷◌, ◌++◌, Option, none,
  some, String, str_eq, eq_iff, ◌≢◌, arith, if◌then◌else◌, ltb, leb, length, take, ℤ, pos,
}
use afd.Traversal.Relay.{
  RelayMessage, relay_connect, relay_data, encode_relay_message, decoded, out_of_range,
  decode_relay_message, handle_relay_data,
}
use afd.Traversal.Relay.Codec.{decode-encode}
use afd.Traversal.Relay.Server.{registered, deliveries, served, relay_delivers}
use afd.Traversal.Stun.Mapped.{Attribute}
use afd.Api.Middleware.{
  Texts, Request, Writer, ApiState, Handler, ApiConfig, RequestWindow, chain, api_chain, answer,
  write_header,
}
use afd.Api.Middleware.Gate.{unauthorized_blocked}
use afd.Api.Middleware.Window.{LimiterEvent, request, tick, passed, requests_of, window_allows}
use afd.Config.{Config, validate_config}
use afd.Config.Valid.{ConfigValid, validate_config-none}

-- A data message whose length field is one more than its data.
abbrev long_message : RelayMessage
long_message = record {
  message_type = relay_data;
  client_id = 97 ∷ [];
  data_length = 3;
  payload = 1 ∷ 2 ∷ [];
}

-- The third byte is left in the buffer by an earlier packet.
decode-encode_example :
    decode_relay_message
      (encode_relay_message long_message ++ 9 ∷ [])
      (length (encode_relay_message long_message))
    ≡ (if ltb 0 3 && ltb 0 2
        then (if leb 3 (2 + 1)
            then decoded (record long_message { payload = take 3 (1 ∷ 2 ∷ 9 ∷ []) })
            else out_of_range)
        else decoded (record long_message { payload = [] }))
decode-encode_example =
    decode-encode long_message (omega arith) (omega arith) (omega arith) (9 ∷ [])

abbrev connect_a : RelayMessage × String
connect_a = (
  record { message_type = relay_connect; client_id = 97 ∷ []; data_length = 0; payload = [] },
  "1.2.3.4:5",
)

relay_delivers_example :
    (handle_relay_data (λ a. true) (97 ∷ []) (7 ∷ []) (served (λ a. true) (connect_a ∷ []))).sent
    ≡ (served (λ a. true) (connect_a ∷ [])).sent
      ++ deliveries (λ a. true) (registered (97 ∷ []) (connect_a ∷ [])) (7 ∷ [])
relay_delivers_example = relay_delivers (λ a. true) (connect_a ∷ []) (97 ∷ []) (7 ∷ [])

delivered_to : registered (97 ∷ []) (connect_a ∷ []) ≡ some "1.2.3.4:5"
unfolding registered afd.Prelude.bytes_eq
delivered_to = refl

abbrev header : List ℕ
header = 0 ∷ 12 ∷ 33 ∷ 18 ∷ 164 ∷ 66 ∷ 0 ∷ 1 ∷ 2 ∷ 3 ∷ 4 ∷ 5 ∷ 6 ∷ 7 ∷ 8 ∷ 9 ∷ 10 ∷ 11 ∷ []

-- A CHANGE-REQUEST before the address.
abbrev change_request : Attribute
change_request = record { attr_type = 3; value = 0 ∷ 0 ∷ 0 ∷ 6 ∷ [] }

abbrev texts : Texts
texts = record {
  split_host = λ s. some s;
  first_of_list = λ s. s;
  cut_space = λ s. none;
  has_prefix = λ s p. false;
  trim_space = λ s. s;
  normalize_endpoint = λ s. s;
}

abbrev api : ApiConfig
api = record { auth_token = "secret"; limit = 100; enable_cors = true; cors_allowed_origins = [] }

-- A request with a wrong key.
abbrev wrong_key : Request
wrong_key = record {
  method = "GET";
  path = "/api/v1/tasks";
  remote_addr = "10.0.0.1";
  forwarded_for = "";
  origin = "";
  authorization = "";
  api_key = "guess";
  content_type = "";
  content_length = pos 0;
  time = 5;
}

abbrev counting : ℕ → Handler ℕ
counting n r w s = answer (write_header 200 w) (record s { inner = s.inner + n })

abbrev fresh_writer : Writer
fresh_writer = record { headers = []; codes = [] }

abbrev fresh_api : ApiState ℕ
fresh_api = record { requests = []; access_log = []; statistics = []; inner = 0 }

different_texts : (s t : String) → str_eq s t ≡ false → s ≢ t
different_texts s t h e = cc ((eq_iff s t).1 e, h)

unauthorized_blocked_example :
    chain (counting 1) (api_chain texts api) wrong_key fresh_writer fresh_api
    ≡ chain (counting 2) (api_chain texts api) wrong_key fresh_writer fresh_api
unauthorized_blocked_example =
    unauthorized_blocked texts api wrong_key (counting 1) (counting 2) fresh_writer fresh_api
      (different_texts "secret" "" refl) (different_texts "guess" "secret" refl) (λ e. cc)

wrong_key_code :
    (chain (counting 1) (api_chain texts api) wrong_key fresh_writer fresh_api).writer.codes
    ≡ 401 ∷ []
unfolding chain api_chain afd.Prelude.lookup
wrong_key_code = refl

abbrev events : List LimiterEvent
events = request "b" 11 ∷ request "a" 12 ∷ tick 13 ∷ request "a" 14 ∷ []

window_allows_example :
    passed 2 60 "a" (request "a" 10 ∷ events) []
    ≡ (if leb (1 + requests_of "a" events) 2 then 1 + requests_of "a" events else 2)
unfolding afd.Prelude.lookup afd.Api.Middleware.Window.within
window_allows_example = window_allows 2 60 "a" 10 events [] (omega arith) refl refl

abbrev default_config : Config
default_config = record {
  node = record { id = "nexus-node-1"; name = "nexus-node"; data_dir = "./data" };
  api = record {
    port = pos 8080;
    rate_limit = pos 100;
    tls_enabled = false;
    tls_cert_file = "";
    tls_key_file = "";
  };
  cluster = record {
    grpc_port = pos 50051;
    discovery_port = pos 50052;
    node_timeout = pos (30 * 10 ^ 9);
  };
  download = record {
    max_connections = pos 8;
    min_chunk_size = pos 1048576;
    max_chunk_size = pos 52428800;
    default_chunk_size = pos 10485760;
    buffer_size = pos 32768;
    timeout = pos (30 * 10 ^ 9);
    retry_count = pos 3;
    min_speed_timeout = pos (30 * 10 ^ 9);
    max_per_server_conn = pos 0;
    speed_limit = pos 0;
    bt = none;
  };
}

validate_config-none_example : (validate_config default_config ≡ none) ↔ ConfigValid default_config
validate_config-none_example = validate_config-none default_config

default_accepted : validate_config default_config ≡ none
unfolding validate_config
default_accepted = refl
