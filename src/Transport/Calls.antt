-- ===== src/Transport/Calls.antt =====
-- qzmq.go: `New` and the methods of the transport.
use qzmq.Common.{
  ℕ, suc, Bool, true, false, ◌||◌, ◌==◌, text_eq, if◌then◌else◌, List, [], ◌∷◌, ◌++◌, length,
  Option, none, some, Outcome, ok, err, panic, Action, ◌>>=◌, ◌>>◌, fail_if, gets, lift,
  transport_closed, unsupported_backend, unknown_option, wrapped,
}
use qzmq.Common.Int.{pos}
use qzmq.Common.Text.{Text, text}
use qzmq.Options.{Backend, Options, SocketType, backend_auto, backend_go, validate_options}
use qzmq.Socket.{Value, int_value, backend_value, ZmqLibrary, ZmqSocket, new_go_socket, close}
use qzmq.Transport.Types.{Transport, World, Stats, zero_stats}

-- `initBackend`; `initGoBackend` only logs.
unfoldable pub init_backend : Backend → Outcome (Unit {0})
init_backend backend_go = ok tt
init_backend backend_auto = err unsupported_backend
init_backend (Backend.other n) = err unsupported_backend

abbrev pub select_backend : Backend → Backend
select_backend backend_auto = backend_go
select_backend backend_go = backend_go
select_backend (Backend.other n) = Backend.other n

-- `New`, after the validation has filled in the options.
unfoldable pub start_transport : Options → Outcome Transport
start_transport opts = elim (init_backend (select_backend opts.backend)) [
  | ok _ ↦ ok (record {
    opts = opts;
    backend = select_backend opts.backend;
    sockets = [];
    stats = zero_stats;
    options = [];
    closed = false;
  })
  | err e ↦ err (wrapped e)
  | panic ↦ panic
]

abbrev pub start_validated : Option Options → Outcome Transport
start_validated none = panic
start_validated (some opts) = start_transport opts

unfoldable pub new_transport : Options → Outcome Transport
new_transport opts =
    let (checked, filled) = validate_options (some opts) in
    elim checked [ ok _ ↦ start_validated filled | err e ↦ err e | panic ↦ panic ]

abbrev pub member : ℕ → List ℕ → Bool
member k [] = false
member k (i ∷ is) = k == i || member k is

abbrev pub find : Text → List (Text × Value) → Option Value
find name [] = none
find name (e ∷ es) = if text_eq name e.0 then some e.1 else find name es

module _ {S : Type 0} (zmq : ZmqLibrary S) where
  abbrev pub make_socket : Backend → SocketType → Options → Outcome (ZmqSocket S)
  make_socket backend_go socket_type opts = new_go_socket zmq socket_type opts
  make_socket backend_auto socket_type opts = err unsupported_backend
  make_socket (Backend.other n) socket_type opts = err unsupported_backend

  -- The new socket gets the next address.
  abbrev pub track : ZmqSocket S → Action (World S) ℕ
  track socket w =
      let t = w.transport in
      (
        ok (length w.heap),
        record w {
          heap = w.heap ++ socket ∷ [];
          transport = record t { sockets = length w.heap ∷ t.sockets };
        },
      )

  unfoldable pub new_socket : SocketType → Action (World S) ℕ
  new_socket socket_type = do
    t ← gets (λ w. w.transport)
    fail_if t.closed transport_closed
    socket ← lift (make_socket t.backend socket_type t.opts)
    track socket

  -- The loop over the map: each socket in it is closed once, in no fixed order, and the errors are
  -- dropped. The sockets of the list stand from address `k` on.
  unfoldable pub close_tracked : List ℕ → ℕ → List (ZmqSocket S) → List (ZmqSocket S)
  close_tracked ids k [] = []
  close_tracked ids k (z ∷ zs) =
      (if member k ids then (close zmq z).1 else z) ∷ close_tracked ids (suc k) zs

  unfoldable pub close_transport : Action (World S) (Unit {0})
  close_transport w =
      let t = w.transport in
      elim t.closed [
        | true ↦ (ok tt, w)
        | false ↦ (
          ok tt,
          record w {
            heap = close_tracked t.sockets 0 w.heap;
            transport = record t { sockets = []; closed = true };
          },
        )
      ]

-- `t.options[name] = value`.
unfoldable pub set_transport_option : Text → Value → Action Transport (Unit {0})
set_transport_option name value t = (ok tt, record t { options = (name, value) ∷ t.options })

unfoldable pub get_transport_option : Text → Action Transport Value
get_transport_option name t =
    if text_eq name (text "backend")
    then (ok (backend_value t.backend), t)
    else if text_eq name (text "socket_count")
    then (ok (int_value (pos (length t.sockets))), t)
    else elim (find name t.options) [ some v ↦ (ok v, t) | none ↦ (err (unknown_option name), t) ]

-- `Stats`, a copy.
abbrev pub get_stats : Transport → Stats
get_stats t = t.stats
