-- ===== src/Ring/Traffic.antt =====
-- src/ring.rs: what the kernel reads from the submission queue, over any interleaving of sends with
-- the kernel's consumption. The kernel is the environment: it may take any number of waiting entries.
use uring_ws.Base.{
  ℕ, ◌+◌, ◌-◌, ◌%◌, ◌≤◌, ◌<◌, ◌≡◌, sym, arith, ◌∙◌, ap, ◌≢◌, ◌⊎◌, inl, inr, List, [], ◌∷◌, ◌++◌,
  take, take-append-drop, append-nil, append_assoc, u32, ok, panic, unwrap_failed, none, add-mod-ne,
  get_elem?, get_elem?-set_self, some, Result,
}
use native.Mathlib.Decide.{dec_lt}
use uring_ws.Sqe.{Sqe, io_uring_initialize_sqe, send}
use uring_ws.Ring.{IoUring, io_uring_get_sqe, prep_send}
use uring_ws.Ring.Slots.{
  in_flight, IsValid, next_slot, next_slot-lt, appended, appended-IsValid, io_uring_get_sqe_full,
  io_uring_get_sqe_room,
}
use uring_ws.Ring.Queue.{
  queued, queued-appended, prep_send_room, prep_send_full, consumed, consumed-IsValid,
  queued-consumed, next_slot_place,
}

next_slot_fresh :
    (ring : IoUring) (j : ℕ)
    → IsValid ring
    → in_flight ring < ring.ring_entries
    → j < in_flight ring
    → next_slot ring ≢ (ring.khead + j) % ring.ring_entries
next_slot_fresh ring j v room h e =
    add-mod-ne ring.ring_entries (ring.khead + j) (in_flight ring - j) (omega arith) (omega arith) (
      ap (λ (t : ℕ). t % ring.ring_entries) {x = ring.khead + j + (in_flight ring - j)}
        {y = ring.khead + in_flight ring} (omega arith)
      ∙ sym (next_slot_place v)
      ∙ e)

-- A slot that `io_uring_get_sqe` gives is the slot of no entry that still waits for the kernel.
pub io_uring_get_sqe_fresh :
    (ring ring' : IoUring) (idx j : ℕ)
    → IsValid ring
    → io_uring_get_sqe ring ≡ ok (ring', some idx)
    → j < in_flight ring
    → idx ≢ (ring.khead + j) % ring.ring_entries
io_uring_get_sqe_fresh ring ring' idx j v given h e =
    elim (dec_lt (in_flight ring) ring.ring_entries) [
      | yes room ↦
          let (old, _, got) = io_uring_get_sqe_room v room in
          let same : next_slot ring ≡ idx = cc in next_slot_fresh ring j v room h (same ∙ e)
      | no full ↦ let got = io_uring_get_sqe_full v (omega (arith, v.bounded)) in absurd (cc)
    ]

-- The entry that a send writes over a slot that held `old`.
abbrev pub send_entry : (fd ptr len flags : ℕ) → Sqe → Sqe
send_entry fd ptr len flags old = send fd ptr (u32 len) flags (io_uring_initialize_sqe old)

-- Every send on a valid queue either finds it full and panics, with `io_uring_get_sqe` reporting the
-- overflow and changing nothing, or appends one entry that is filled as asked, and keeps it valid.
pub prep_send_refines :
    (fd ptr len flags : ℕ) (ring : IoUring)
    → IsValid ring
    → ((in_flight ring ≡ ring.ring_entries)
        × (io_uring_get_sqe ring ≡ ok (ring, none))
        × (prep_send fd ptr len flags ring ≡ panic unwrap_failed))
      ⊎ ((ring' : IoUring) × (old : Sqe) × (prep_send fd ptr len flags ring
            ≡ ok (ring', next_slot ring))
          × IsValid ring'
          × (queued ring' ≡ queued ring ++ (send_entry fd ptr len flags old ∷ [])))
prep_send_refines fd ptr len flags ring v = elim (dec_lt (in_flight ring) ring.ring_entries) [
  | yes room ↦
      let (old, e) = prep_send_room fd ptr len flags v room in
      let new = send_entry fd ptr len flags old in
      inr (appended ring new, old, e, (appended-IsValid new v room).0, queued-appended new v room)
  | no full ↦
      let e : in_flight ring ≡ ring.ring_entries = omega (arith, v.bounded) in
      inl (e, io_uring_get_sqe_full v e, prep_send_full fd ptr len flags v e)
]

sent_entry :
    (ring next : IoUring) (slot : ℕ) (entry new : Sqe)
    → IsValid ring
    → ◌≡◌ {A = Result (IoUring × ℕ)} (ok (appended ring entry, next_slot ring)) (ok (next, slot))
    → get_elem? next.sqes slot ≡ some new
    → (appended ring entry ≡ next) × (entry ≡ new)
sent_entry ring next slot entry new v e held = (
  ground arith,
  ground (arith, get_elem?-set_self ring.sqes (next_slot ring) entry, next_slot-lt v),
)

-- A send that succeeds has appended the entry that its slot now holds.
prep_send-queued :
    (fd ptr len flags : ℕ) (ring next : IoUring) (slot : ℕ) (new : Sqe)
    → IsValid ring
    → prep_send fd ptr len flags ring ≡ ok (next, slot)
    → get_elem? next.sqes slot ≡ some new
    → IsValid next × (queued next ≡ queued ring ++ (new ∷ []))
prep_send-queued fd ptr len flags ring next slot new v sent held =
    elim (dec_lt (in_flight ring) ring.ring_entries) [
      | yes room ↦
          let (old, e) = prep_send_room fd ptr len flags v room in
          let entry = send_entry fd ptr len flags old in
          let (next_eq, new_eq) = sent_entry ring next slot entry new v (sym e ∙ sent) held in
          rw (← next_eq, ← new_eq) ((appended-IsValid entry v room).0, queued-appended entry v room)
      | no full ↦
          let e : in_flight ring ≡ ring.ring_entries = omega (arith, v.bounded) in
          let clash = sym (prep_send_full fd ptr len flags v e) ∙ sent in absurd (cc)
    ]

-- Runs of the two ends from `ring`, with the entries that the crate has sent and those that the
-- kernel has taken.
pub data Traffic (ring : IoUring) : IoUring → List Sqe → List Sqe → Type 0 where
  start : Traffic ring ring [] []
  sends :
      {now next : IoUring} {sent seen : List Sqe}
      → Traffic ring now sent seen
      → (fd ptr len flags slot : ℕ) (new : Sqe) → prep_send fd ptr len flags now ≡ ok (next, slot)
      → get_elem? next.sqes slot ≡ some new
      → Traffic ring next (sent ++ (new ∷ [])) seen
  consumes :
      {now : IoUring} {sent seen : List Sqe}
      → Traffic ring now sent seen
      → (n : ℕ) → n ≤ in_flight now
      → Traffic ring (consumed n now) sent (seen ++ take n (queued now))

-- In every run the queue stays valid, and what the kernel has taken, followed by what still waits,
-- is what waited at the start, followed by what has been sent: no entry is lost, repeated, overtaken
-- or overwritten, also when the 32-bit counters wrap.
pub Traffic-queued :
    (ring now : IoUring) (sent seen : List Sqe)
    → IsValid ring
    → Traffic ring now sent seen
    → IsValid now × (queued ring ++ sent ≡ seen ++ queued now)
Traffic-queued ring now sent seen v start = (v, append-nil (queued ring))
Traffic-queued ring now sent seen v
      (sends {now = mid} {sent = before} run fd ptr len flags slot new e held) =
    let (mid_valid, kept) = Traffic-queued ring mid before seen v run in
    let (valid, grown) = prep_send-queued fd ptr len flags mid now slot new mid_valid e held in
    (
      valid,
      sym (append_assoc (queued ring) before (new ∷ []))
          ∙ ap (λ l. l ++ (new ∷ [])) kept
          ∙ append_assoc seen (queued mid) (new ∷ [])
          ∙ ap (◌++◌ seen) (sym grown),
    )
Traffic-queued ring now sent seen v (consumes {now = mid} {seen = before} run n fits) =
    let (mid_valid, kept) = Traffic-queued ring mid sent before v run in
    (
      (consumed-IsValid n mid_valid fits).0,
      kept
          ∙ ap (◌++◌ before) (
              sym (take-append-drop n (queued mid))
              ∙ ap (◌++◌ (take n (queued mid))) (sym (queued-consumed n mid_valid fits)))
          ∙ sym (append_assoc before (take n (queued mid)) (queued (consumed n mid))),
    )
