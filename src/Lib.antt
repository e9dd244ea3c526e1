-- ===== src/Lib.antt =====
-- QZMQ, a transport with post-quantum key exchange for ZeroMQ sockets. The program is one Go
-- package at the root of the repository; each part of it is modelled here by translated
-- definitions, and the theorems are about those.
--
-- How the parts interact: a transport (qzmq.go) validates its options and opens sockets
-- (backend.go). A connection (connection.go) carries the options, draws its keys from the KEMs
-- and signers of crypto.go and mlkem_integration.go, and exchanges messages whose bytes the
-- marshal and unmarshal methods of connection.go define. No code of the package makes a
-- connection: the sockets hand their data to luxfi/zmq as it is. The exchange (xchain.go) is a
-- client of the transport and of one socket; the choice of a backend (backend_selection.go)
-- stands by itself.
--
--   Common: what the models share. An Outcome is how a Go call ends, with a value, an error or
--     a panic; an Action S A is a method that returns an A and changes an S; Bytes reads
--     big-endian numbers, and Cursor writes into an allocated buffer at a moving offset.
--   Options: qzmq.go. Types has the enums and structs, Presets has DefaultOptions,
--     ConservativeOptions, PerformanceOptions and validateOptions, Names the String methods,
--     Laws what a validation promises.
--   Wire: connection.go from line 337 on. Types has the messages, Encode the marshal methods,
--     Decode the unmarshal methods, Layout the bytes that the former write, RoundTrip and
--     Accepted both together.
--   Crypto: crypto.go and mlkem_integration.go. Host has what the code calls and does not
--     implement; Keys and Parts have the key types and the KEMs, Encapsulation the methods by
--     the KEM's type, Sizes the sizes, Sign the signers, Derive key derivation, AEADs, MACs and
--     cookies, Agreement and Advertised are about the KEMs and Derivation about the keys.
--   Socket: backend.go. Types has the socket and luxfi/zmq's operations, Calls newGoSocket and
--     the calls that move messages, Settings the subscriptions and options, Requests the
--     methods as one type and sequences of them; Closed, Accounting and Forgotten are about
--     those, and Counting is a library that counts what it is handed.
--   Transport: the rest of qzmq.go. Types has the struct and the heap of sockets, Calls New and
--     the methods; Making, Settings and Shutdown are about them.
--   BackendSelection: backend_selection.go. Detect reads the environment, Validate has the
--     checks, the capabilities and the selection; Agreement and Usable are about them.
--   XChain: xchain.go. Types has orders and the transport of the exchange, Calls its methods,
--     Exchange what its messages look like to their receiver.
--   Connection: connection.go up to line 336. State has the struct, Handshake clientHello,
--     processServerHello, clientKey and processFinished, Rotation needsKeyUpdate and
--     updateKeys, Calls the four calls as one type; Guards, Progress, Hello, ServerHello,
--     Finished, Stuck and Renewal are about them.
--
-- Conventions. Bytes are natural numbers; a stored length or number is reduced modulo the width
-- that the code gives it. An int has 64 bits. A nil slice is the empty list, and a slice's
-- capacity is its length. crypto/rand is read in a numbered sequence: the connection's field
-- draws is the number of the next read, and the result of read number i for n bytes is a
-- function of i and n. The clock is an argument. Every loop is structural on a list or a
-- number, but for the decimal digits of XChain, whose fuel is the number itself: each step
-- divides by ten.
--
-- External code. The Go library, golang.org/x/crypto and luxfi/crypto/mlkem are the fields of
-- the record Host. Theorems that rely on their documented behaviour name it: FillsBuffers, that
-- a read has the length asked for; IsSound, that X25519 commutes and gives 32 bytes and that
-- ML-KEM's decapsulation inverts its encapsulation; GivesPoints, that X25519 gives 32 bytes;
-- RefusesBadPoints, that X25519 refuses a point of another length than 32 bytes. Crypto/Sample
-- has a host that satisfies them. encoding/json is the record Json, with ReadsBack, that it
-- reads back what it wrote of an order; luxfi/zmq is the record ZmqLibrary, of which nothing is
-- assumed, and os.Getenv a function.
--
-- Not modelled: logging (logging_simple.go), the test helpers, the example program,
-- GetBackendInfo and StartDEX, which format and log a text.
pub mod Common
pub mod Options
pub mod Wire
pub mod Crypto
pub mod Connection
pub mod Socket
pub mod Transport
pub mod BackendSelection
pub mod XChain
