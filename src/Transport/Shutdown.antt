-- ===== src/Transport/Shutdown.antt =====
-- A transport's life and its end.
use qzmq.Common.{
  ℕ, zero, suc, ◌+◌, ◌≡◌, sym, true, false, ◌⊎◌, inl, inr, List, [], ◌∷◌, ◌++◌, length, All, ok,
  err, arith, Bool-cases, Outcome-cases, transport_closed,
}
use qzmq.Common.Text.{Text}
use qzmq.Options.{Options, SocketType, validate_options}
use mathlib.Core.Path.{subst}
use qzmq.Socket.{Value, ZmqLibrary, ZmqSocket}
use qzmq.Socket.Closed.{close-closed, handle-closed, untouched-closed}
use qzmq.Socket.Requests.{Request, handle}
use qzmq.Transport.Types.{Transport, World}
use qzmq.Transport.Calls.{
  new_transport, start_transport, new_socket, close_transport, close_tracked, set_transport_option,
  member, make_socket,
}

-- The holder of a socket's address makes a request.
abbrev pub use_socket :
    {S : Type 0} → ZmqLibrary S → ℕ → Request → List (ZmqSocket S) → List (ZmqSocket S)
use_socket zmq i r [] = []
use_socket zmq zero r (z ∷ zs) = (handle zmq r z).1 ∷ zs
use_socket zmq (suc i) r (z ∷ zs) = z ∷ use_socket zmq i r zs

module _ {S : Type 0} (zmq : ZmqLibrary S) where
  -- What becomes of a transport that `New` returned: it makes sockets, their holders use them in any
  -- way, options are set, and it is closed.
  pub data Lives : World S → Type 0 where
    started :
        (o : Options) {t : Transport}
        → new_transport o ≡ ok t
        → Lives (record { transport = t; heap = [] })
    made : {w : World S} (kind : SocketType) → Lives w → Lives (new_socket zmq kind w).1
    used :
        {w : World S} (i : ℕ) (r : Request)
        → Lives w
        → Lives (record w { heap = use_socket zmq i r w.heap })
    set :
        {w : World S} (name : Text) (value : Value)
        → Lives w
        → Lives (record w { transport = (set_transport_option name value w.transport).1 })
    shut : {w : World S} → Lives w → Lives (close_transport zmq w).1

  -- Each socket of the heap, from address `k` on, is in the map or is closed.
  abbrev Tracked : List ℕ → ℕ → List (ZmqSocket S) → Type 0
  Tracked ids k [] = Unit
  Tracked ids k (z ∷ zs) = ((member k ids ≡ true) ⊎ (z.closed ≡ true)) × Tracked ids (suc k) zs

  Tracked-weaken :
      (i k : ℕ) (ids : List ℕ) (zs : List (ZmqSocket S)) → Tracked ids k zs → Tracked (i ∷ ids) k zs
  Tracked-weaken i k ids [] h = tt
  Tracked-weaken i k ids (z ∷ zs) h = (ground arith, Tracked-weaken i (suc k) ids zs h.1)

  Tracked-append :
      (k : ℕ) (ids : List ℕ) (zs : List (ZmqSocket S)) (z : ZmqSocket S)
      → Tracked ids k zs
      → Tracked ((k + length zs) ∷ ids) k (zs ++ z ∷ [])
  Tracked-append k ids [] z h = ground arith
  Tracked-append k ids (y ∷ zs) z h =
      let address : k + suc (length zs) ≡ suc k + length zs = omega arith in
      (
        ground arith,
        subst (λ n. Tracked (n ∷ ids) (suc k) (zs ++ z ∷ [])) (sym address)
            (Tracked-append (suc k) ids zs z h.1),
      )

  Tracked-close :
      (ids : List ℕ) (k : ℕ) (zs : List (ZmqSocket S))
      → Tracked ids k zs
      → Tracked [] k (close_tracked zmq ids k zs)
  unfolding close_tracked
  Tracked-close ids k [] h = tt
  Tracked-close ids k (z ∷ zs) h =
      (ground (arith, close-closed zmq z), Tracked-close ids (suc k) zs h.1)

  handle-keeps_closed :
      (r : Request) (z : ZmqSocket S) → z.closed ≡ true → (handle zmq r z).1.closed ≡ true
  handle-keeps_closed r z h = rw (handle-closed zmq r z h) (untouched-closed zmq r z h)

  Tracked-use :
      (i : ℕ) (r : Request) (ids : List ℕ) (k : ℕ) (zs : List (ZmqSocket S))
      → Tracked ids k zs
      → Tracked ids k (use_socket zmq i r zs)
  Tracked-use i r ids k [] h = tt
  Tracked-use zero r ids k (z ∷ zs) h = (ground (arith, handle-keeps_closed r z), h.1)
  Tracked-use (suc i) r ids k (z ∷ zs) h = (h.0, Tracked-use i r ids (suc k) zs h.1)

  Tracked-nil : (k : ℕ) (zs : List (ZmqSocket S)) → Tracked [] k zs → All (λ z. z.closed ≡ true) zs
  Tracked-nil k [] h = tt
  Tracked-nil k (z ∷ zs) h = (ground arith, Tracked-nil (suc k) zs h.1)

  record Keeps (w : World S) : Type 0 where
    tracked : Tracked w.transport.sockets 0 w.heap
    emptied : w.transport.closed ≡ true → w.transport.sockets ≡ []

  new_socket-Keeps : (kind : SocketType) (w : World S) → Keeps w → Keeps (new_socket zmq kind w).1
  unfolding new_socket
  new_socket-Keeps kind w h = elim (Bool-cases w.transport.closed) [
    | inl e ↦ ground arith
    | inr e ↦ elim (Outcome-cases (make_socket zmq w.transport.backend kind w.transport.opts)) [
      | inl (z, e') ↦ ground (arith, Tracked-append 0 w.transport.sockets w.heap z h.tracked)
      | inr e' ↦ ground arith
    ]
  ]

  close_transport-Keeps : (w : World S) → Keeps w → Keeps (close_transport zmq w).1
  unfolding close_transport
  close_transport-Keeps w h = ground (arith, Tracked-close w.transport.sockets 0 w.heap h.tracked)

  started_empty : (o : Options) {t : Transport} → new_transport o ≡ ok t → t.closed ≡ false
  unfolding new_transport start_transport validate_options
  started_empty o h = ground arith

  Lives-Keeps : (w : World S) → Lives w → Keeps w
  unfolding set_transport_option
  Lives-Keeps _ (started o {t} h) = ground (arith, started_empty o h)
  Lives-Keeps _ (made {w = v} kind l) = new_socket-Keeps kind v (Lives-Keeps v l)
  Lives-Keeps _ (used {w = v} i r l) =
      let before = Lives-Keeps v l in
      record {
        tracked = Tracked-use i r v.transport.sockets 0 v.heap before.tracked;
        emptied = before.emptied;
      }
  Lives-Keeps _ (set {w = v} name value l) =
      let before = Lives-Keeps v l in record { tracked = before.tracked; emptied = before.emptied }
  Lives-Keeps _ (shut {w = v} l) = close_transport-Keeps v (Lives-Keeps v l)

  -- Closing is final and complete: however a transport was used, after its `Close` each socket that
  -- it ever made is closed, its map is empty, and it makes no further one.
  pub Lives-close_transport :
      (w : World S) (kind : SocketType)
      → Lives w
      → let v = (close_transport zmq w).1 in
        All (λ z. z.closed ≡ true) v.heap
        × (v.transport.sockets ≡ [])
        × (new_socket zmq kind v ≡ (err transport_closed, v))
  unfolding new_socket
  Lives-close_transport w kind l =
      let v = (close_transport zmq w).1 in
      let after = Lives-Keeps v (shut l) in
      let closed : v.transport.closed ≡ true = unfold close_transport in ground arith in
      let none_left = after.emptied closed in
      (Tracked-nil 0 v.heap (ground (arith, after.tracked)), none_left, ground arith)
