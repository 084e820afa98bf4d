-- ===== src/Net/Todo.antt =====
-- src/net.rs: the methods of `Read` and `Write` that are not written yet, for a nonblocking stream and for
-- a blocking one. A buffer that is only written is its room.
use uring_ws.Base.{ℕ, List, Result, panic, Io, todo}
use uring_ws.Memory.{Memory}
use uring_ws.Ring.{IoUring}
use uring_ws.Net.{TcpStream}

module _ {S : Type 0} where
  abbrev pub read_exact :
      Memory → (room : ℕ) → TcpStream S → Result (TcpStream S × Memory × Io (List ℕ))
  read_exact mem room stream = panic todo

  abbrev pub read_vectored :
      Memory → (rooms : List ℕ) → TcpStream S → Result (TcpStream S × Memory × Io (List (List ℕ)))
  read_vectored mem rooms stream = panic todo

  abbrev pub read_to_end :
      Memory → (buf : List ℕ) → TcpStream S → Result (TcpStream S × Memory × Io (List ℕ))
  read_to_end mem buf stream = panic todo

  abbrev pub read_to_string :
      Memory → (buf : List ℕ) → TcpStream S → Result (TcpStream S × Memory × Io (List ℕ))
  read_to_string mem buf stream = panic todo

  abbrev pub write_all :
      (buf : List ℕ) → IoUring → TcpStream S → Result (TcpStream S × IoUring × Io (Unit {0}))
  write_all buf ring stream = panic todo

  -- The formatted text is what `fmt::Arguments` stands for.
  abbrev pub write_fmt :
      (fmt : List ℕ) → IoUring → TcpStream S → Result (TcpStream S × IoUring × Io (Unit {0}))
  write_fmt fmt ring stream = panic todo
