-- ===== src/XChain/Tests.antt =====
-- Runs of the exchange, and the theorems at a concrete order.
use qzmq.Common.{ℕ, List, [], ◌∷◌, false, none, ok, err, ◌≡◌, refl, invalid_order_message}
use qzmq.Common.Text.{text}
use qzmq.Options.{
  default_options, conservative_options, backend_go, dealer, validate_options, check_suite,
}
use qzmq.Socket.{
  ZmqSocket, SocketMetrics, send, recv, receive, first_frame, count_received, new_socket_metrics,
  new_go_socket,
}
use qzmq.Socket.Sample.{Queue, loopback}
use qzmq.Transport.{zero_stats, new_transport, start_transport, init_backend, new_socket}
use qzmq.XChain.Types.{Order, Json, XChainDexTransport, buy, limit}
use qzmq.XChain.Calls.{
  receive_order, submit_order, propose_block, receive_order, on_socket, new_xchain_dex_transport,
}
use qzmq.XChain.Exchange.{
  Receives, order_message, block_message, submit_order_lem, propose_block_lem,
}

abbrev sample_order : Order
sample_order = record {
  id = text "o1";
  market = text "LUX/USD";
  side = buy;
  order_type = limit;
  price = 100;
  quantity = 5;
  user_addr = text "X-1";
  asset_id = text "LUX";
  signature = [];
  certificate = [];
}

-- A JSON library that knows one order.
abbrev sample_json : Json
sample_json = record {
  marshal_order = λ order. ok (text "order");
  unmarshal_order = λ bytes. ok sample_order;
}

-- A transport with one open socket.
abbrev sample_transport : XChainDexTransport Queue
sample_transport = record {
  world = record {
    transport = record {
      opts = conservative_options;
      backend = backend_go;
      sockets = 0 ∷ [];
      stats = zero_stats;
      options = [];
      closed = false;
    };
    heap =
        record {
          socket = [];
          socket_type = dealer;
          opts = conservative_options;
          metrics = new_socket_metrics;
          closed = false;
        }
        ∷ [];
  };
  socket = 0;
  endpoint = text "tcp://x:1";
  chain_id = text "X";
  node_id = text "n";
  validator_keys = none;
  opts = conservative_options;
  peers = [];
}

sample_transport_made :
    new_xchain_dex_transport loopback (text "tcp://x:1") (text "X") (text "n") none
    ≡ ok sample_transport
unfolding new_xchain_dex_transport new_transport start_transport init_backend new_socket
    validate_options check_suite conservative_options default_options new_go_socket
sample_transport_made = refl

-- The transport with the given queue and metrics.
abbrev holding : Queue → SocketMetrics → XChainDexTransport Queue
holding queue metrics =
    let w = sample_transport.world in
    let socket : ZmqSocket Queue = record {
      socket = queue;
      socket_type = dealer;
      opts = conservative_options;
      metrics = metrics;
      closed = false;
    } in
    record sample_transport { world = record w { heap = socket ∷ [] } }

-- Before and after the receipt of one message.
abbrev expecting : List ℕ → XChainDexTransport Queue
expecting message = holding ((message ∷ []) ∷ []) new_socket_metrics

abbrev served : List ℕ → XChainDexTransport Queue
served message = holding [] (count_received (message ∷ []) new_socket_metrics)

order_arrives :
    Receives loopback
      (order_message (text "order"))
      (expecting (order_message (text "order")))
      (served (order_message (text "order")))
unfolding recv receive first_frame
order_arrives = refl

submit_order_lem_example :
    (submit_order loopback sample_json sample_order sample_transport
      ≡ on_socket (send loopback (order_message (text "order"))) sample_transport)
    × (receive_order loopback sample_json (expecting (order_message (text "order")))
        ≡ (ok sample_order, served (order_message (text "order"))))
submit_order_lem_example =
    submit_order_lem loopback sample_json sample_transport
      (expecting (order_message (text "order"))) (served (order_message (text "order")))
      sample_order (text "order") (refl, refl) order_arrives

abbrev sample_block : List ℕ
sample_block = block_message (text "X") 42 (1 ∷ 2 ∷ [])

block_arrives : Receives loopback sample_block (expecting sample_block) (served sample_block)
unfolding recv receive first_frame
block_arrives = refl

propose_block_lem_example :
    (propose_block loopback (text "X") 42 (1 ∷ 2 ∷ []) sample_transport
      ≡ on_socket (send loopback sample_block) sample_transport)
    × (receive_order loopback sample_json (expecting sample_block)
        ≡ (err invalid_order_message, served sample_block))
propose_block_lem_example =
    propose_block_lem loopback sample_json sample_transport (expecting sample_block)
      (served sample_block) (text "X") 42 (1 ∷ 2 ∷ []) block_arrives
