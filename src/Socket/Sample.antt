-- ===== src/Socket/Sample.antt =====
-- A library of sockets that receive what they have sent, for the runs of the tests.
use qzmq.Common.{ℕ, List, [], ◌∷◌, ◌++◌, none, some, ok, err, external, Outcome}
use qzmq.Socket.Types.{ZmqLibrary}

abbrev pub Queue : Type 0
Queue = List (List (List ℕ))

abbrev pub take_first : Queue → Outcome (List (List ℕ)) × Queue
take_first [] = (err (external 11), [])
take_first (message ∷ rest) = (ok message, rest)

abbrev pub loopback : ZmqLibrary Queue
loopback = record {
  make = λ constructor. some [];
  listen = λ endpoint q. (none, q);
  dial = λ endpoint q. (some (external 111), q);
  send_frames = λ parts q. (none, q ++ parts ∷ []);
  recv_frames = take_first;
  set_zmq_option = λ option value q. (none, q);
  close_zmq = λ q. (none, []);
  cancel_context = λ q. q;
}
