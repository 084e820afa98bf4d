-- ===== src/Abi/Numbered.antt =====
-- src/sys.rs: families of constants, each with its name, and how their values go.
use Prim.Native.String.{String}
use uring_ws.Base.{
  ℕ, zero, suc, ◌+◌, ◌<◌, ◌≡◌, ◌==◌, ◌&&◌, ◌∙◌, ap, arith, Bool, true, some, List, [], ◌∷◌, length,
  get_elem?,
}

abbrev pub Constants : Type 0
Constants = List (String × ℕ)

-- The constants have the values of `value` from `n` on.
abbrev pub follows : (ℕ → ℕ) → ℕ → Constants → Bool
follows value n [] = true
follows value n ((name, v) ∷ cs) = v == value n && follows value (n + 1) cs

-- The constant at a place has the value of that place.
follows-get_elem? :
    (value : ℕ → ℕ) (n i : ℕ) (cs : Constants)
    → follows value n cs ≡ true
    → i < length cs
    → (name : String) × (get_elem? cs i ≡ some (name, value (n + i)))
follows-get_elem? value n i [] e h = absurd (omega arith)
follows-get_elem? value n zero ((name, v) ∷ cs) e h =
    let same : v ≡ value n = ground (arith, e) in
    (name, ap (λ (t : ℕ). some (name, t)) (same ∙ ap value {x = n} {y = n + 0} (omega arith)))
follows-get_elem? value n (suc i) ((name, v) ∷ cs) e h =
    let (found, there) = follows-get_elem? value (n + 1) i cs (ground (arith, e)) (omega arith) in
    (
      found,
      there ∙ ap (λ (k : ℕ). some (found, value k)) {x = n + 1 + i} {y = n + suc i} (omega arith),
    )

pub follows_from_zero :
    (value : ℕ → ℕ) (i : ℕ) (cs : Constants)
    → follows value 0 cs ≡ true
    → i < length cs
    → (name : String) × (get_elem? cs i ≡ some (name, value i))
follows_from_zero value i cs e h =
    let (name, there) = follows-get_elem? value 0 i cs e h in
    (name, there ∙ ap (λ (k : ℕ). some (name, value k)) {x = 0 + i} (omega arith))
