-- ===== src/XChain/Exchange.antt =====
-- What an order and a block look like to the one who receives them.
use qzmq.Common.{
  ℕ, zero, suc, ◌+◌, ◌-◌, ◌*◌, ◌/◌, ◌%◌, ◌≤◌, ◌≡◌, refl, List, [], ◌∷◌, ◌++◌, ok, err,
  invalid_order_message, arith,
}
use qzmq.Common.Text.{Text, text}
use qzmq.Socket.{ZmqLibrary, send, recv}
use qzmq.XChain.Types.{Order, Json, XChainDexTransport, digits, decimal}
use qzmq.XChain.Calls.{submit_order, propose_block, parse_order, receive_order, on_socket}

-- encoding/json reads back what it wrote of this order.
abbrev pub ReadsBack : Json → Order → List ℕ → Type 0
ReadsBack json order content =
    (json.marshal_order order ≡ ok content) × (json.unmarshal_order content ≡ ok order)

-- The messages of `SubmitOrder` and `ProposeBlock`.
abbrev pub order_message : List ℕ → List ℕ
order_message content = text "ORDER:" ++ content

abbrev pub block_message : Text → ℕ → List ℕ → List ℕ
block_message chain_id height content =
    (text "BLOCK:" ++ chain_id ++ text ":" ++ decimal height ++ text ":") ++ content

-- The next `Recv` of the exchange's socket returns a message and leaves another state.
abbrev pub Receives :
    {S : Type 0} → ZmqLibrary S → List ℕ → XChainDexTransport S → XChainDexTransport S → Type 0
Receives zmq message y y' = on_socket (recv zmq) y ≡ (ok message, y')

module _ {S : Type 0} (zmq : ZmqLibrary S) (json : Json) (x y y' : XChainDexTransport S) where
  parse_order-order_message :
      (order : Order) (content : List ℕ)
      → ReadsBack json order content
      → parse_order json (order_message content) ≡ ok order
  unfolding parse_order
  parse_order-order_message order content h = ground arith

  parse_order-block_message :
      (chain_id : Text) (height : ℕ) (content : List ℕ)
      → parse_order json (block_message chain_id height content) ≡ err invalid_order_message
  unfolding parse_order
  parse_order-block_message chain_id height content = ground arith

  -- `SubmitOrder` hands one message to `Send`, and `ReceiveOrder` of a transport whose `Recv` returns
  -- that message returns the order, if encoding/json reads back what it wrote of it.
  pub submit_order_lem :
      (order : Order) (content : List ℕ)
      → ReadsBack json order content
      → Receives zmq (order_message content) y y'
      → (submit_order zmq json order x ≡ on_socket (send zmq (order_message content)) x)
        × (receive_order zmq json y ≡ (ok order, y'))
  unfolding submit_order receive_order
  submit_order_lem order content h r =
      (ground arith, ground (arith, r, parse_order-order_message order content h))

  -- `ProposeBlock` hands one message to `Send`, and `ReceiveOrder` of a transport whose `Recv` returns
  -- that message refuses it, whatever the chain, the height and the block.
  pub propose_block_lem :
      (chain_id : Text) (height : ℕ) (content : List ℕ)
      → Receives zmq (block_message chain_id height content) y y'
      → (propose_block zmq chain_id height content x
          ≡ on_socket (send zmq (block_message chain_id height content)) x)
        × (receive_order zmq json y ≡ (err invalid_order_message, y'))
  unfolding propose_block receive_order
  propose_block_lem chain_id height content r =
      (refl, ground (arith, r, parse_order-block_message chain_id height content))

-- The number that decimal digits show, behind one that was read already.
abbrev pub read_decimal : ℕ → Text → ℕ
read_decimal n [] = n
read_decimal n (c ∷ cs) = read_decimal (n * 10 + (c - 48)) cs

read_decimal-append :
    (n c : ℕ) (cs : Text) → read_decimal n (cs ++ c ∷ []) ≡ read_decimal n cs * 10 + (c - 48)
read_decimal-append n c [] = refl
read_decimal-append n c (d ∷ ds) = read_decimal-append (n * 10 + (d - 48)) c ds

read_decimal-digits : (fuel n : ℕ) → n ≤ fuel → read_decimal 0 (digits fuel n) ≡ n
unfolding digits
read_decimal-digits zero n h = ground arith
read_decimal-digits (suc fuel) n h = ground (
  arith,
  read_decimal-digits fuel (n / 10),
  read_decimal-append 0 (48 + n % 10) (digits fuel (n / 10)),
)

-- The digits of a number show that number: the number itself is fuel enough.
pub read_decimal-decimal : (n : ℕ) → read_decimal 0 (decimal n) ≡ n
read_decimal-decimal n = read_decimal-digits n n (omega arith)
