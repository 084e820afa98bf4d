-- ===== src/Net/Outbound/Held.antt =====
-- src/net.rs: what writes and completions do to the messages that are kept.
use uring_ws.Base.{
  ℕ, ◌≡◌, ◌≢◌, ◌==◌, arith, inl, inr, Bool-cases, Option-cases, some, none, List, [], ◌∷◌, ◌++◌,
}
use native.Mathlib.Decide.{ℕ_discrete}
use uring_ws.BufRing.Cycle.{All}
use uring_ws.Net.{PendingSent, remove}
use uring_ws.Net.Outbound.{Done}

remove-append :
    (k : ℕ) (m new : PendingSent) (v : List ℕ) (rest : PendingSent)
    → remove k m ≡ some (v, rest)
    → remove k (m ++ new) ≡ some (v, rest ++ new)
unfolding remove
remove-append k [] new v rest e = absurd (cc)
remove-append k ((j, u) ∷ m) new v rest e = elim (Bool-cases (j == k)) [
  | inl hit ↦ ground (arith, hit, e)
  | inr miss ↦ elim (Option-cases (remove k m)) [
    | inl gone ↦ absurd (ground arith)
    | inr ((w, r), found) ↦
        let later = remove-append k m new w r found in ground (arith, miss, found, later, e)
  ]
]

pub remove_last :
    (k : ℕ) (v : List ℕ) (m : PendingSent)
    → remove k m ≡ none
    → remove k (m ++ ((k, v) ∷ [])) ≡ some (v, m)
unfolding remove
remove_last k v [] e = ground arith
remove_last k v ((j, u) ∷ m) e = elim (Option-cases (remove k m)) [
  | inl gone ↦ let later = remove_last k v m gone in ground (arith, later)
  | inr ((w, r), found) ↦ absurd (ground (arith, found))
]

-- Taking one key out leaves what stands under another.
remove-other :
    (c k : ℕ) (m rest : PendingSent) (w v : List ℕ) (r : PendingSent)
    → c ≢ k
    → remove c m ≡ some (w, rest)
    → remove k m ≡ some (v, r)
    → (r' : PendingSent) × (remove k rest ≡ some (v, r'))
unfolding remove
remove-other c k [] rest w v r ne gone held = absurd (cc)
remove-other c k ((j, u) ∷ m) rest w v r ne gone held = elim (Bool-cases (j == c)) [
  | inl hit ↦ elim (Option-cases (remove k m)) [
    | inl gone_k ↦ absurd (ground (arith, gone_k, ne))
    | inr ((v1, r1), at_k) ↦ (r1, ground (arith, hit, at_k, ne))
  ]
  | inr miss ↦ elim (Option-cases (remove c m)) [
    | inl gone_c ↦ absurd (ground (arith, gone_c))
    | inr ((w1, m1), at_c) ↦ elim (Bool-cases (j == k)) [
      | inl own ↦ (m1, ground (arith, miss, own, at_c))
      | inr past ↦ elim (Option-cases (remove k m)) [
        | inl gone_k ↦ absurd (ground (arith, gone_k, past))
        | inr ((v1, r1), at_k) ↦
            let (r', later) = remove-other c k m m1 w1 v1 r1 ne at_c at_k in
            ((j, u) ∷ r', ground (arith, miss, past, at_k, at_c, later))
      ]
    ]
  ]
]

pub Done-write :
    (completed : List ℕ) (pending new log : PendingSent)
    → All (Done completed pending) log
    → All (Done completed (pending ++ new)) log
Done-write completed pending new [] h = tt
Done-write completed pending new (message ∷ log) (inl gone, h) =
    (inl gone, Done-write completed pending new log h)
Done-write completed pending new (message ∷ log) (inr (rest, held), h) = (
  inr (rest ++ new, remove-append (message.0) pending new (message.1) rest held),
  Done-write completed pending new log h,
)

pub Done-complete :
    (c : ℕ) (completed : List ℕ) (pending rest log : PendingSent) (w : List ℕ)
    → remove c pending ≡ some (w, rest)
    → All (Done completed pending) log
    → All (Done (c ∷ completed) rest) log
Done-complete c completed pending rest [] w gone h = tt
Done-complete c completed pending rest (message ∷ log) w gone (inl before, h) =
    (inl (inr before), Done-complete c completed pending rest log w gone h)
Done-complete c completed pending rest (message ∷ log) w gone (inr (r, held), h) =
    let others = Done-complete c completed pending rest log w gone h in
    elim (ℕ_discrete c (message.0)) [
      | yes same ↦ (inl (inl same), others)
      | no ne ↦ (inr (remove-other c (message.0) pending rest w (message.1) r ne gone held), others)
    ]
