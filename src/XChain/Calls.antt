-- ===== src/XChain/Calls.antt =====
-- xchain.go: the methods that move messages.
use qzmq.Common.{
  ℕ, zero, suc, not, ◌||◌, ltb, text_eq, if◌then◌else◌, List, [], ◌∷◌, ◌++◌, take, drop, length,
  Option, Outcome, ok, err, panic, Action, ◌>>=◌, lift, invalid_order_message, wrapped,
}
use qzmq.Common.Int.{ℤ, pos, negsuc}
use qzmq.Common.Text.{Text, text}
use qzmq.Options.{conservative_options, dealer}
use qzmq.Socket.{ZmqLibrary, ZmqSocket, bind, connect, send, recv, close}
use qzmq.Transport.{World, new_transport, new_socket}
use qzmq.XChain.Types.{Order, Json, ValidatorKeys, XChainDexTransport, decimal}

-- `fmt.Errorf("…: %w", err)`.
abbrev pub wrapping : {A : Type 0} → Outcome A → Outcome A
wrapping (ok a) = ok a
wrapping (err e) = err (wrapped e)
wrapping panic = panic

-- `%d` of an int.
abbrev pub signed_decimal : ℤ → Text
signed_decimal (pos n) = decimal n
signed_decimal (negsuc n) = 45 ∷ decimal (suc n)

-- A method of the socket at an address; each address that is used was handed out.
abbrev pub at_address : {S A : Type 0} → ℕ → Action (ZmqSocket S) A → Action (List (ZmqSocket S)) A
at_address i m [] = (panic, [])
at_address zero m (z ∷ zs) = let (r, z') = m z in (r, z' ∷ zs)
at_address (suc i) m (z ∷ zs) = let (r, zs') = at_address i m zs in (r, z ∷ zs')

-- The test of the prefix, and the order behind it.
unfoldable pub parse_order : Json → List ℕ → Outcome Order
parse_order json content =
    if ltb (length content) 6 || not (text_eq (take 6 content) (text "ORDER:"))
    then err invalid_order_message
    else wrapping (json.unmarshal_order (drop 6 content))

module _ {S : Type 0} where
  abbrev pub on_socket : {A : Type 0} → Action (ZmqSocket S) A → Action (XChainDexTransport S) A
  on_socket m x =
      let w = x.world in
      let (r, heap) = at_address x.socket m w.heap in
      (r, record x { world = record w { heap = heap } })

module _ {S : Type 0} (zmq : ZmqLibrary S) where
  abbrev pub with_socket :
      Text
      → Text
      → Text
      → Option ValidatorKeys
      → Outcome ℕ × World S
      → Outcome (XChainDexTransport S)
  with_socket endpoint chain_id node_id keys (ok i, w) = ok (record {
    world = w;
    socket = i;
    endpoint = endpoint;
    chain_id = chain_id;
    node_id = node_id;
    validator_keys = keys;
    opts = conservative_options;
    peers = [];
  })
  with_socket endpoint chain_id node_id keys (err e, w) = err (wrapped e)
  with_socket endpoint chain_id node_id keys (panic, w) = panic

  unfoldable pub new_xchain_dex_transport :
      Text → Text → Text → Option ValidatorKeys → Outcome (XChainDexTransport S)
  new_xchain_dex_transport endpoint chain_id node_id keys =
      elim (new_transport conservative_options) [
        | ok t ↦
            with_socket endpoint chain_id node_id keys
              (new_socket zmq dealer (record { transport = t; heap = [] }))
        | err e ↦ err (wrapped e)
        | panic ↦ panic
      ]

  unfoldable pub listen : ℤ → Action (XChainDexTransport S) (Unit {0})
  listen port = on_socket (bind zmq (text "tcp://*:" ++ signed_decimal port))

  -- An error of one peer is logged and the next one is tried.
  abbrev pub connect_each : List Text → Action (ZmqSocket S) (Unit {0})
  connect_each [] z = (ok tt, z)
  connect_each (peer ∷ rest) z = connect_each rest (connect zmq (text "tcp://" ++ peer) z).1

  unfoldable pub connect_to_peers : List Text → Action (XChainDexTransport S) (Unit {0})
  connect_to_peers peers x = on_socket (connect_each peers) (record x { peers = peers })

  unfoldable pub connect_endpoint : Action (XChainDexTransport S) (Unit {0})
  connect_endpoint x = on_socket (connect zmq x.endpoint) x

  unfoldable pub close_dex : Action (XChainDexTransport S) (Unit {0})
  close_dex = on_socket (close zmq)

  unfoldable pub submit_order : Json → Order → Action (XChainDexTransport S) (Unit {0})
  submit_order json order = do
    content ← lift (wrapping (json.marshal_order order))
    on_socket (send zmq (text "ORDER:" ++ content))

  unfoldable pub propose_block : Text → ℕ → List ℕ → Action (XChainDexTransport S) (Unit {0})
  propose_block chain_id height content =
      on_socket (
        send zmq ((text "BLOCK:" ++ chain_id ++ text ":" ++ decimal height ++ text ":") ++ content))

  unfoldable pub receive_order : Json → Action (XChainDexTransport S) Order
  receive_order json = do content ← on_socket (recv zmq); lift (parse_order json content)
