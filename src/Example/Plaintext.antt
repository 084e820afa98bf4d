-- ===== src/Example/Plaintext.antt =====
-- src/examples/io_uring_probe.rs: how the plaintext of a received buffer reaches the frame decoder.
pub mod Loop
use uring_ws.Base.{
  ℕ, zero, suc, ◌+◌, ◌-◌, min, ◌≤◌, ◌<◌, ◌≡◌, refl, ap, on_option, on_bool, arith, ◌∙◌, ◌==◌, ltb,
  false, Option, none, some, if◌then◌else◌, List, [], ◌∷◌, ◌++◌, length, take, drop, length-append,
  length-take, take-append-drop, Result, ok, panic, ◌>>=◌, ◌>>◌, >>=-cases_ok, Bool-cases, inl, inr,
  or_panic, or_panic-eq_ok, unwrap_failed, out_of_bounds,
}
use uring_ws.BufRing.Cycle.{All}
use uring_ws.Frames.{WebsocketHandler, Decoder, FrameEvent, add_data, add_data_loop, on_event}
use uring_ws.Frames.Text.{concat}
use uring_ws.Example.{Rustls, Library}
use uring_ws.Example.Receive.{Reading}

pub length-drop : {A : Type 0} (n : ℕ) (xs : List A) → length (drop n xs) ≡ length xs - n
length-drop zero xs = omega arith
length-drop (suc n) [] = omega arith
length-drop (suc n) (x ∷ xs) = omega (arith, length-drop n xs)

-- A decoder that, as a function on a slice has to, keeps the number of bytes.
abbrev pub KeepsLength : {D I : Type 0} → Decoder D I → Type 0
KeepsLength {D} {I} decoder =
    (d : D) (bytes : List ℕ) (n : ℕ) (e : Option (FrameEvent I)) (d' : D) (bytes' : List ℕ)
    → decoder.add_data d bytes ≡ some (n, e, d', bytes')
    → length bytes' ≡ length bytes

-- What a connection of rustls documents of its reader: it gives the plaintext in order.
abbrev pub ReadsExactly : {C : Type 0} → Rustls C → (holds : C → List ℕ → Type 0) → Type 0
ReadsExactly {C} tls holds =
    (conn : C) (plain : List ℕ) (n : ℕ)
    → holds conn plain
    → n ≤ length plain
    → (conn' : C) × (tls.read_exact conn n ≡ some (take n plain, conn'))
      × holds conn' (drop n plain)

-- The plaintext cut into pieces of `n` bytes, as long as `rounds` last.
abbrev pub chunks : (rounds n : ℕ) → List ℕ → List (List ℕ)
chunks zero n plain = []
chunks (suc rounds) n [] = []
chunks (suc rounds) n (x ∷ xs) =
    take (min n (length (x ∷ xs))) (x ∷ xs)
    ∷ chunks rounds n (drop (min n (length (x ∷ xs))) (x ∷ xs))

pub concat-chunks :
    (rounds n : ℕ) (plain : List ℕ)
    → 0 < n
    → length plain ≤ rounds
    → (concat (chunks rounds n plain) ≡ plain)
      × All (λ c. (0 < length c) × (length c ≤ n)) (chunks rounds n plain)
concat-chunks zero n [] h e = (refl, tt)
concat-chunks zero n (x ∷ xs) h e = absurd (omega arith)
concat-chunks (suc rounds) n [] h e = (refl, tt)
concat-chunks (suc rounds) n (x ∷ xs) h e =
    let m = min n (length (x ∷ xs)) in
    let (whole, sizes) =
      concat-chunks rounds n (drop m (x ∷ xs)) h (omega (arith, length-drop m (x ∷ xs))) in
    let size = length-take m (x ∷ xs) in
    (
      ap (◌++◌ (take m (x ∷ xs))) whole ∙ take-append-drop m (x ∷ xs),
      ((omega (arith, size), omega (arith, size)), sizes),
    )

ltb-false : (offset n : ℕ) → ltb n offset ≡ false → offset ≤ n
ltb-false offset n h = ground arith

cut_length :
    (offset : ℕ) (bytes part rewritten : List ℕ)
    → (if ltb (length bytes) offset then panic out_of_bounds else ok (drop offset bytes)) ≡ ok part
    → length rewritten ≡ length part
    → length (take offset bytes ++ rewritten) ≡ length bytes
cut_length offset bytes part rewritten inside same = elim (Bool-cases (ltb (length bytes) offset)) [
  | inl out ↦ absurd (ground (arith, out, inside))
  | inr fits ↦
      let part_eq : drop offset bytes ≡ part = ground (arith, fits, inside) in
      omega (
        arith,
        length-append (take offset bytes) rewritten,
        length-take offset bytes,
        length-drop offset bytes,
        ap length part_eq,
        same,
        ltb-false offset (length bytes) fits,
      )
]

abbrev pub outcome :
    {C D : Type 0}
    → Result (Option (Reading C D))
    → Result (Option (WebsocketHandler D × List (List ℕ)))
outcome (panic p) = panic p
outcome (ok none) = ok none
outcome (ok (some r)) = ok (some (r.handler, r.strs))

module _ {S C W D I : Type 0} (lib : Library S C W) (decoder : Decoder D I)
    (lossy : List ℕ → List ℕ) (fuel : ℕ) where
  pub loop-length :
      KeepsLength decoder
      → (k offset : ℕ) (bytes : List ℕ) (handler h : WebsocketHandler D) (strs s : List (List ℕ))
        (bytes' : List ℕ)
      → add_data_loop decoder lossy k offset bytes handler strs ≡ ok (some (h, s, bytes'))
      → length bytes' ≡ length bytes
  unfolding add_data_loop
  loop-length keeps zero offset bytes handler h strs s bytes' e = absurd (cc)
  loop-length keeps (suc k) offset bytes handler h strs s bytes' e =
      >>=-cases_ok
        (if ltb (length bytes) offset then panic out_of_bounds else ok (drop offset bytes)) _ e
        λ part inside e1.
          >>=-cases_ok (or_panic unwrap_failed (decoder.add_data handler.frame_decoder part)) _ e1
            λ r called e2.
              let whole : length (take offset bytes ++ r.3) ≡ length bytes =
                cut_length offset bytes part r.3 inside
                  (keeps handler.frame_decoder part r.0 r.1 r.2 r.3 (or_panic-eq_ok _ _ called)) in
              on_option r.1 _ _ e2
                (λ e3.
                  on_bool (r.0 == 0) _ _ e3 (λ last. ground (arith, last, whole))
                    λ more.
                      loop-length keeps k (offset + r.0) (take offset bytes ++ r.3) _ h strs s
                        bytes' more
                      ∙ whole)
                λ event e3.
                  >>=-cases_ok (on_event decoder lossy r.0 r.3 event handler.str_acc strs) _ e3
                    λ q done more.
                      loop-length keeps k (offset + r.0) (take offset bytes ++ r.3) _ h q.1 s bytes'
                        more
                      ∙ whole

  -- The pieces handed to the frame decoder one after another.
  abbrev pub feed :
      List (List ℕ)
      → WebsocketHandler D
      → (strs : List (List ℕ)) → Result (Option (WebsocketHandler D × List (List ℕ)))
  feed [] handler strs = ok (some (handler, strs))
  feed (c ∷ cs) handler strs = add_data decoder lossy fuel c handler >>= λ added. elim added [
    | none ↦ ok none
    | some (handler', new, bytes) ↦ feed cs handler' (strs ++ new)
  ]
