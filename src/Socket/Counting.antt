-- ===== src/Socket/Counting.antt =====
-- A library that counts what it is handed, around any other one.
use qzmq.Common.{ℕ, ◌+◌, List, Option, none, some, Error, [], ◌∷◌, length}
use qzmq.Socket.Types.{ZmqLibrary}

abbrev pub total_length : List (List ℕ) → ℕ
total_length [] = 0
total_length (p ∷ ps) = length p + total_length ps

-- The state of the library's socket, with the messages and the bytes that it has accepted.
pub record Counted (S : Type 0) : Type 0 where
  pub state : S
  pub taken_messages : ℕ
  pub taken_bytes : ℕ

module _ {S : Type 0} where
  abbrev pub start_counting : Option S → Option (Counted S)
  start_counting none = none
  start_counting (some s) = some (record { state = s; taken_messages = 0; taken_bytes = 0 })

  -- A call that hands over no message, and one that does, by its error.
  abbrev pub uncounted : {A : Type 0} → (S → A × S) → Counted S → A × Counted S
  uncounted f k = let (r, s) = f k.state in (r, record k { state = s })

  abbrev pub note : Option Error → List (List ℕ) → Counted S → Counted S
  note none parts k = record k {
    taken_messages = k.taken_messages + 1;
    taken_bytes = k.taken_bytes + total_length parts;
  }
  note (some e) parts k = k

  abbrev pub counting : ZmqLibrary S → ZmqLibrary (Counted S)
  counting zmq = record {
    make = λ constructor. start_counting (zmq.make constructor);
    listen = λ endpoint. uncounted (zmq.listen endpoint);
    dial = λ endpoint. uncounted (zmq.dial endpoint);
    send_frames = λ parts k.
        let (failure, k') = uncounted (zmq.send_frames parts) k in (failure, note failure parts k');
    recv_frames = uncounted zmq.recv_frames;
    set_zmq_option = λ option value. uncounted (zmq.set_zmq_option option value);
    close_zmq = uncounted zmq.close_zmq;
    cancel_context = λ k. record k { state = zmq.cancel_context k.state };
  }
