-- ===== src/Example.antt =====
-- src/examples/io_uring_probe.rs: a program of one file that reads a feed through rustls. It has copies
-- of its own of the ring's functions. The state of the program and the libraries that it calls: rustls,
-- tungstenite and std's sockets are parameters.
pub mod Copies
pub mod Files
pub mod Setup
pub mod Receive
pub mod Plaintext
pub mod Group
pub mod Returns
use uring_ws.Base.{ℕ, Bool, Option, List}
use uring_ws.Memory.{Memory}
use uring_ws.Ring.{IoUring}
use uring_ws.Frames.{WebsocketHandler}
use uring_ws.Net.{Socket}

-- lib.rs
abbrev pub bgid : ℕ
bgid = 0

-- `tungstenite::stream::MaybeTlsStream` around a socket of std; `C` is a connection of rustls.
pub data MaybeTlsStream (S C : Type 0) : Type 0 where
  plain : S → MaybeTlsStream S C
  rustls : C → S → MaybeTlsStream S C
  other : MaybeTlsStream S C

-- `tungstenite::WebSocket`; `W` is the state of its frame codec.
pub record WebSocket (S C W : Type 0) : Type 0 where
  pub stream : MaybeTlsStream S C
  pub context : W

-- The functions of a connection of rustls that the program calls; `none` is an error.
pub record Rustls (C : Type 0) : Type 0 where
  -- how many bytes were taken
  pub read_tls : C → List ℕ → Option (ℕ × C)
  -- the number of bytes of plaintext to read, and whether the peer has closed
  pub process_new_packets : C → Option (ℕ × Bool × C)
  -- the bytes that fill a buffer of the given size
  pub read_exact : C → ℕ → Option (List ℕ × C)

-- `install_default` says whether the provider of cryptography was installed; `none` and `false` stand for
-- `Err`; of a message that `ws_read` returns, its text, if it is one.
pub record Library (S C W : Type 0) : Type 0 where
  pub socket : Socket S
  pub tls : Rustls C
  pub install_default : Bool
  pub connect : List ℕ → Option (WebSocket S C W)
  pub ws_send : List ℕ → WebSocket S C W → Bool × WebSocket S C W
  pub ws_read : WebSocket S C W → Option (Option (List ℕ)) × WebSocket S C W

-- The state of the program; `D` is the state of a frame decoder, `buf_ring` the pointer to its ring of
-- buffers, `install_once` says whether `INSTALL_ONCE` is filled, and `strs` are the texts it has logged.
pub record Running (S C W D : Type 0) : Type 0 where
  pub mem : Memory
  pub ring : IoUring
  pub buf_ring : ℕ
  pub install_once : Bool
  pub streams : List (WebSocket S C W)
  pub handlers : List (WebsocketHandler D)
  pub strs : List (List ℕ)
