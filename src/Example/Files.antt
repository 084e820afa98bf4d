-- ===== src/Example/Files.antt =====
-- src/examples/io_uring_probe.rs: its copies of opening and closing a file.
use uring_ws.Base.{ℕ, List, [], ◌∷◌, ◌++◌}
use uring_ws.Sqe.Files.{Libc}

module _ {O : Type 0} (libc : Libc O) where
  abbrev pub open_unchecked : (path : List ℕ) → O → ℕ × O
  open_unchecked path os = libc.open_path (path ++ (0 ∷ [])) libc.o_rdonly os

  abbrev pub close : (fd : ℕ) → O → O
  close fd os = let (_, os') = libc.close_fd fd os in os'
