-- ===== src/Sqe/Files.antt =====
-- src/op.rs: opening and closing a file. The system calls are libc's.
use uring_ws.Base.{ℕ, List, [], ◌∷◌, ◌++◌}

-- `open` takes a path with its final zero and the flags, `close` a descriptor; `O` is the state of the
-- system, and `o_rdonly` is `O_RDONLY` of the libc crate.
pub record Libc (O : Type 0) : Type 0 where
  pub open_path : List ℕ → ℕ → O → ℕ × O
  pub close_fd : ℕ → O → ℕ × O
  pub o_rdonly : ℕ

module _ {O : Type 0} (libc : Libc O) where
  -- `CString::from_vec_unchecked` appends the zero without looking for one inside.
  abbrev pub open_unchecked : (path : List ℕ) → O → ℕ × O
  open_unchecked path os = libc.open_path (path ++ (0 ∷ [])) libc.o_rdonly os

  -- What the call returns is passed over.
  abbrev pub close : (fd : ℕ) → O → O
  close fd os = let (_, os') = libc.close_fd fd os in os'
