-- ===== src/Abi/Families.antt =====
-- src/sys.rs: flags are single bits and codes are consecutive, family by family.
use Prim.Native.String.{String}
use uring_ws.Base.{ℕ, ◌^◌, ◌<◌, ◌≡◌, true, refl, some, get_elem?, length}
use uring_ws.Abi.Numbered.{Constants, follows, follows_from_zero}
use uring_ws.Abi.Flags.{
  setup_flags, timeout_flags, poll_flags, cancel_flags, recvsend_flags, accept_flags,
  msg_ring_flags, cqe_flags, sq_ring_flags, enter_flags, features, sqe_flags,
}
use uring_ws.Abi.Codes.{
  sqe_flag_bits, ops, msg_ring_codes, register_ops, restriction_ops, socket_ops,
}

-- The families whose constants are flags.
pub data IsFlags : Constants → Type 0 where
  of_setup : IsFlags setup_flags
  of_polling : IsFlags poll_flags
  of_cancelling : IsFlags cancel_flags
  of_transfers : IsFlags recvsend_flags
  of_timeouts : IsFlags timeout_flags
  of_accepting : IsFlags accept_flags
  of_messages : IsFlags msg_ring_flags
  of_completions : IsFlags cqe_flags
  of_queue : IsFlags sq_ring_flags
  of_entering : IsFlags enter_flags
  of_features : IsFlags features
  of_entries : IsFlags sqe_flags

-- The families whose constants number something.
pub data IsCodes : Constants → Type 0 where
  of_bits : IsCodes sqe_flag_bits
  of_ops : IsCodes ops
  of_msg_ring : IsCodes msg_ring_codes
  of_register : IsCodes register_ops
  of_restriction : IsCodes restriction_ops
  of_socket : IsCodes socket_ops

flags_follow : (cs : Constants) → IsFlags cs → follows (λ i. 2 ^ i) 0 cs ≡ true
flags_follow cs of_setup = refl
flags_follow cs of_polling = refl
flags_follow cs of_cancelling = refl
flags_follow cs of_transfers = refl
flags_follow cs of_timeouts = refl
flags_follow cs of_accepting = refl
flags_follow cs of_messages = refl
flags_follow cs of_completions = refl
flags_follow cs of_queue = refl
flags_follow cs of_entering = refl
flags_follow cs of_features = refl
flags_follow cs of_entries = refl

codes_follow : (cs : Constants) → IsCodes cs → follows (λ i. i) 0 cs ≡ true
codes_follow cs of_bits = refl
codes_follow cs of_ops = refl
codes_follow cs of_msg_ring = refl
codes_follow cs of_register = refl
codes_follow cs of_restriction = refl
codes_follow cs of_socket = refl

-- In every family of flags each flag is one bit of its own: the flag at place `i` is `2 ^ i`.
flags_single_bits :
    (cs : Constants) (i : ℕ)
    → IsFlags cs
    → i < length cs
    → (name : String) × (get_elem? cs i ≡ some (name, 2 ^ i))
flags_single_bits cs i f h = follows_from_zero (λ i. 2 ^ i) i cs (flags_follow cs f) h

-- In every family of codes the code at place `i` is `i`, so that no two are the same.
codes_consecutive :
    (cs : Constants) (i : ℕ)
    → IsCodes cs
    → i < length cs
    → (name : String) × (get_elem? cs i ≡ some (name, i))
codes_consecutive cs i f h = follows_from_zero (λ i. i) i cs (codes_follow cs f) h
