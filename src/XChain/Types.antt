-- ===== src/XChain/Types.antt =====
-- xchain.go: orders, keys and the exchange's transport; and encoding/json on orders, as a parameter.
use qzmq.Common.{
  ℕ, ◌+◌, ◌/◌, ◌%◌, zero, suc, List, [], ◌∷◌, ◌++◌, ltb, if◌then◌else◌, Option, Outcome,
}
use qzmq.Common.Text.{Text}
use qzmq.Options.{Options}
use qzmq.Transport.{World}

pub data OrderSide : Type 0 where
  buy sell : OrderSide
  other : ℕ → OrderSide

pub data OrderType : Type 0 where
  limit market_order stop stop_limit : OrderType
  other : ℕ → OrderType

pub record Order : Type 0 where
  pub id : Text
  pub market : Text
  pub side : OrderSide
  pub order_type : OrderType
  pub price : ℕ
  pub quantity : ℕ
  pub user_addr : Text
  pub asset_id : Text
  pub signature : List ℕ
  pub certificate : List ℕ

pub record ValidatorKeys : Type 0 where
  pub node_id : List ℕ
  pub bls_key : List ℕ
  pub pq_key : List ℕ
  pub dsa_key : List ℕ

pub record Json : Type 0 where
  pub marshal_order : Order → Outcome (List ℕ)
  pub unmarshal_order : List ℕ → Outcome Order

-- The socket is its address in the world.
pub record XChainDexTransport (S : Type 0) : Type 0 where
  pub world : World S
  pub socket : ℕ
  pub endpoint : Text
  pub chain_id : Text
  pub node_id : Text
  pub validator_keys : Option ValidatorKeys
  pub opts : Options
  pub peers : List Text

-- `%d` of a number that is not negative; the fuel is the number.
unfoldable pub digits : ℕ → ℕ → Text
digits zero n = (48 + n) ∷ []
digits (suc fuel) n =
    if ltb n 10 then (48 + n) ∷ [] else digits fuel (n / 10) ++ ((48 + n % 10) ∷ [])

abbrev pub decimal : ℕ → Text
decimal n = digits n n
