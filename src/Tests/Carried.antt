-- ===== src/Tests/Carried.antt =====
-- A run of src/ping_pong.rs in which the kernel fills a buffer and the websocket library reads part of it.
use uring_ws.Base.{
  ℕ, ◌*◌, ◌≡◌, ◌&&◌, if◌then◌else◌, ltb, leb, refl, subst, arith, ◌>>=◌, >>=-cases_ok, some, List,
  [], ◌∷◌, ◌++◌, append-nil, get_elem?, ok, panic, done,
}
use uring_ws.UserData.{owner_of, event_of, req_of}
use uring_ws.Memory.{Memory}
use uring_ws.Ring.{io_uring_cq_advance}
use uring_ws.ReadBuf.{slice}
use uring_ws.ReadBuf
use uring_ws.ReadBuf.Stream.{stream}
use uring_ws.Net.{TcpStream, read}
use uring_ws.Net.Taken.{Takes, takes_none, takes_then, given}
use uring_ws.ReadBuf.Queue.{queued_behind}
use uring_ws.Session.{WebSocket, Tungstenite, Running, plain, no_frame}
use uring_ws.Session.PingPong.{handle_cqe, handle_cqes, frame_checked}
use uring_ws.Session.PingPong.Receive.{lent, handle_cqe_delivers}
use uring_ws.Session.PingPong.Carried.{
  IsReaderOf, Carries, begins_empty, fills_with, receives_next, taken,
}
use uring_ws.Session.PingPong.Intact.Order.{received_in_order}
use uring_ws.Session.PingPong.Intact.Batch.{TakenBy, no_cqe, recv_cqe, handle_cqes_in_order}
use uring_ws.Tests.Buffers.{first_posted, made, group, place}
use uring_ws.Tests.Streams.{socket}
use uring_ws.Tests.Sessions.{lib}
use uring_ws.Tests.Runs.{fresh_stream, start, start-Opened, hundred, hundred-Announces}

-- A library that reads forty bytes whenever it is asked for a frame.
abbrev reading : Tungstenite ℕ ℕ ℕ
reading = record lib {
  read_message_frame =
      λ w s mem. (do (s', mem', out) ← read socket mem 40 s; ok (no_frame, w, s', mem'));
}

abbrev forty : ℕ → TcpStream ℕ → Memory → List ℕ
forty w s mem = elim (read socket mem 40 s) [ ok r ↦ given r.2 | panic p ↦ [] ]

reading-IsReaderOf : IsReaderOf socket reading forty
reading-IsReaderOf h s m msg h' s' m' e = >>=-cases_ok (read socket m 40 s) _ e λ r got rest.
    subst (Takes socket s m s' m') {x = given r.2 ++ []} (rw (got, forty) (append-nil (given r.2)))
      (takes_then 40 r.2 (rw got (cc)) takes_none)

abbrev grow : ℕ → ℕ
grow = λ c. 2 * c

-- A hundred bytes of value seven in the first buffer.
abbrev sevens : ℕ → ℕ
sevens = λ a. if leb 4096 a && ltb a 4196 then 7 else start.mem.bytes a

abbrev with_sevens : Running ℕ ℕ ℕ
with_sevens = record start { mem = record (start.mem) { bytes = sevens } }

abbrev queued_stream : TcpStream ℕ
queued_stream = record fresh_stream {
  inner = queued_behind grow (lent 4096 8 0 hundred) fresh_stream.inner;
}

abbrev read_stream : TcpStream ℕ
read_stream = record queued_stream {
  inner = record (queued_stream.inner) {
    buf_vec = record { buf = some (lent 4096 8 0 hundred); claimed = 40 } ∷ [];
  };
}

reads_forty :
    read socket with_sevens.mem 40 queued_stream
    ≡ ok (read_stream, with_sevens.mem, done (slice sevens 4096 40))
unfolding owner_of read ReadBuf.read ReadBuf.read_front ReadBuf.read_reader ReadBuf.data_from
    ReadBuf.remaining ReadBuf.commit ReadBuf.buf_ref
reads_forty = refl

abbrev after_reading : Running ℕ ℕ ℕ
after_reading = record with_sevens {
  ring = io_uring_cq_advance 1 with_sevens.ring;
  streams = record { stream = plain read_stream; context = 0 } ∷ [];
}

frame_read : handle_cqe reading grow (some hundred) with_sevens ≡ ok after_reading
unfolding owner_of event_of req_of frame_checked
frame_read =
    handle_cqe_delivers reading grow 4096 8 0 hundred with_sevens
      (record { stream = plain fresh_stream; context = 0 }) fresh_stream read_stream 0 0 no_frame
      with_sevens.mem
      (record {
        ring = group.ring;
        not_null = group.not_null;
        there = group.there;
        group = group.group;
      })
      refl
      (record {
        in_group = omega arith;
        not_empty = omega arith;
        fits = omega arith;
        has_buffer = refl;
        whole = refl;
        buffer_id = refl;
      })
      refl refl
      (record { owner = refl; event = refl; req = refl; held = omega arith; grows = omega arith })
      refl (rw reads_forty refl) refl

-- The kernel fills the first buffer.
carried :
    Carries socket reading forty grow 0 8 4096 start with_sevens 1
      (first_posted ∷ [])
      ([] ++ slice sevens (place 0 (omega arith)).buf.addr 100)
      []
carried =
    fills_with group.ring (place 0 (omega arith)).buf 100 sevens begins_empty group.there
      (omega (arith, made.3)) (place 0 (omega arith)).at_place
      (omega (arith, (place 0 (omega arith)).len_lem))
      (λ a out. ground (arith, (place 0 (omega arith)).addr_lem))

received_in_order_example :
    (ws : WebSocket ℕ ℕ ℕ) × (s : TcpStream ℕ) × (get_elem? after_reading.streams 0 ≡ some ws)
    × (ws.stream ≡ plain s)
    × (slice sevens (place 0 (omega arith)).buf.addr 100
        ≡ taken socket reading forty grow 0 8 4096 start with_sevens after_reading hundred
            frame_read
          ++ (stream sevens s.inner.buf_vec ++ []))
received_in_order_example =
    received_in_order socket reading forty grow 0 8 4096 start reading-IsReaderOf start-Opened
      after_reading 1 [] _ _
      (receives_next after_reading hundred carried hundred-Announces frame_read)

batch_handled : handle_cqes reading grow 1 0 (some hundred ∷ []) with_sevens ≡ ok after_reading
unfolding handle_cqes
batch_handled = rw frame_read refl

handle_cqes_in_order_example :
    (out : List ℕ) × TakenBy socket reading forty grow 0 8 4096 start
      (hundred ∷ [])
      with_sevens
      after_reading
      out
    × (ws : WebSocket ℕ ℕ ℕ) × (s : TcpStream ℕ) × (get_elem? after_reading.streams 0 ≡ some ws)
    × (ws.stream ≡ plain s)
    × (slice sevens (place 0 (omega arith)).buf.addr 100
        ≡ out ++ (stream sevens s.inner.buf_vec ++ []))
handle_cqes_in_order_example =
    handle_cqes_in_order socket reading forty grow 0 8 4096 start 1 (first_posted ∷ []) []
      (slice sevens (place 0 (omega arith)).buf.addr 100) [] (hundred ∷ []) 0 (some hundred ∷ [])
      with_sevens after_reading reading-IsReaderOf start-Opened carried
      (recv_cqe hundred-Announces no_cqe) (refl, tt) batch_handled
