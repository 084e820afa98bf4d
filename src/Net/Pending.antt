-- ===== src/Net/Pending.antt =====
-- src/net.rs: the map of the messages that are being sent, and the ids that keep them apart.
use uring_ws.Base.{
  ℕ, ◌+◌, ◌-◌, ◌%◌, ◌^◌, ◌≤◌, ◌<◌, ◌≡◌, ◌≢◌, refl, arith, ◌==◌, ◌⊎◌, inl, inr, Bool-cases,
  Option-cases, false, some, none, List, [], ◌∷◌, ◌++◌, u32,
}
use uring_ws.BufRing.Cycle.{All}
use uring_ws.Net.{PendingSent, remove, insert}

remove_cons_none :
    (k j : ℕ) (w : List ℕ) (m : PendingSent)
    → remove k ((j, w) ∷ m) ≡ none
    → ((j == k) ≡ false) × (remove k m ≡ none)
unfolding remove
remove_cons_none k j w m e = ground arith

-- A new key goes to the end, and can be taken out again: nothing else has changed.
pub insert_fresh :
    (k : ℕ) (v : List ℕ) (m : PendingSent)
    → remove k m ≡ none
    → (insert k v m ≡ m ++ ((k, v) ∷ [])) × (remove k (insert k v m) ≡ some (v, m))
unfolding remove insert
insert_fresh k v [] e = (refl, ground arith)
insert_fresh k v ((j, w) ∷ m) e =
    let (ne, absent) = remove_cons_none k j w m e in
    let (grown, found) = insert_fresh k v m absent in
    (ground (arith, ne, grown), ground (arith, ne, found))

-- A key that no entry has is not found.
pub remove_absent :
    (k : ℕ) (m : PendingSent) → All (λ (e : ℕ × List ℕ). e.0 ≢ k) m → remove k m ≡ none
unfolding remove
remove_absent k [] h = refl
remove_absent k ((j, w) ∷ m) h = ground (arith, remove_absent k m h.1)

-- The id of the message in a key's lowest 32 bits, and how many sends ago it was given.
abbrev pub age : ℕ → ℕ → ℕ
age send_id key = (send_id + 2 ^ 32 - key % 2 ^ 32) % 2 ^ 32

-- Every pending key is one of the last `w` that were given.
abbrev pub Recent : ℕ → ℕ → PendingSent → Type 0
Recent w send_id m = All (λ (e : ℕ × List ℕ). (0 < age send_id e.0) × (age send_id e.0 ≤ w)) m

pub Recent-next :
    (w send_id : ℕ) (m : PendingSent)
    → send_id < 2 ^ 32
    → w + 1 < 2 ^ 32
    → Recent w send_id m
    → Recent (w + 1) (u32 (send_id + 1)) m
Recent-next w send_id [] hs hw h = tt
Recent-next w send_id ((k, v) ∷ m) hs hw h =
    ((omega arith, omega arith), Recent-next w send_id m hs hw h.1)

pub Recent-append :
    (w send_id k : ℕ) (v : List ℕ) (m : PendingSent)
    → 0 < age send_id k
    → age send_id k ≤ w
    → Recent w send_id m
    → Recent w send_id (m ++ ((k, v) ∷ []))
Recent-append w send_id k v [] p q h = ((p, q), tt)
Recent-append w send_id k v (e ∷ m) p q h = (h.0, Recent-append w send_id k v m p q h.1)

remove_cons_some :
    (k j : ℕ) (u : List ℕ) (m : PendingSent) (v : List ℕ) (rest : PendingSent)
    → remove k ((j, u) ∷ m) ≡ some (v, rest)
    → (rest ≡ m) ⊎ ((r : PendingSent) × (remove k m ≡ some (v, r)) × (rest ≡ (j, u) ∷ r))
unfolding remove
remove_cons_some k j u m v rest e = elim (Bool-cases (j == k)) [
  | inl hit ↦ inl (ground arith)
  | inr miss ↦ elim (Option-cases (remove k m)) [
    | inl gone ↦ absurd (ground arith)
    | inr ((w, r), found) ↦ inr (r, ground arith, ground arith)
  ]
]

pub Recent-remove :
    (w send_id k : ℕ) (m : PendingSent) (v : List ℕ) (rest : PendingSent)
    → remove k m ≡ some (v, rest)
    → Recent w send_id m
    → Recent w send_id rest
unfolding remove
Recent-remove w send_id k [] v rest e h = absurd (cc)
Recent-remove w send_id k ((j, u) ∷ m) v rest e h = elim (remove_cons_some k j u m v rest e) [
  | inl here ↦ rw here h.1
  | inr (r, there, grown) ↦ rw grown (h.0, Recent-remove w send_id k m v r there h.1)
]

-- A key that carries the next id is not pending.
pub Recent-fresh :
    (w send_id k : ℕ) (m : PendingSent)
    → send_id < 2 ^ 32
    → w < 2 ^ 32
    → k % 2 ^ 32 ≡ send_id
    → Recent w send_id m
    → remove k m ≡ none
unfolding remove
Recent-fresh w send_id k [] hs hw e h = refl
Recent-fresh w send_id k ((j, v) ∷ m) hs hw e h =
    ground (arith, Recent-fresh w send_id k m hs hw e h.1)
