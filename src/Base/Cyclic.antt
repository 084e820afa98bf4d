-- ===== src/Base/Cyclic.antt =====
-- Arrays that are used as rings: the `n` elements from position `h` on, going round at `e`.
use Prim.Native.Nat.{ℕ, zero, suc, ◌+◌, ◌-◌, ◌%◌, ◌≤◌, ◌<◌}
use mathlib.Core.Path.{◌≡◌, refl, ap, ap₂, ◌∙◌}
use mathlib.Core.Logic.{◌≢◌}
use mathlib.Core.List.{List, [], ◌∷◌, ◌++◌}
use native.Mathlib.Nat.{mod-add-mod, mod-eq_of_lt, mod-eq-sub-mod, mod-lt}
use native.Mathlib.Decide.{dec_lt}
use native.Mathlib.Omega.{arith}
use uring_ws.Base.Lists.{length, set, drop}

abbrev pub get_or {ℓ} : {A : Type ℓ} → List A → ℕ → A → A
get_or [] i d = d
get_or (x ∷ xs) zero d = x
get_or (x ∷ xs) (suc i) d = get_or xs i d

pub get_or-set_self {ℓ} :
    {A : Type ℓ} (xs : List A) (i : ℕ) (v d : A) → i < length xs → get_or (set xs i v) i d ≡ v
get_or-set_self [] i v d h = absurd (omega arith)
get_or-set_self (x ∷ xs) zero v d h = refl
get_or-set_self (x ∷ xs) (suc i) v d h = get_or-set_self xs i v d (omega arith)

pub get_or-set_ne {ℓ} :
    {A : Type ℓ} (xs : List A) (i j : ℕ) (v d : A) → i ≢ j → get_or (set xs i v) j d ≡ get_or xs j d
get_or-set_ne [] i j v d h = refl
get_or-set_ne (x ∷ xs) zero zero v d h = absurd (h refl)
get_or-set_ne (x ∷ xs) zero (suc j) v d h = refl
get_or-set_ne (x ∷ xs) (suc i) zero v d h = refl
get_or-set_ne (x ∷ xs) (suc i) (suc j) v d h = get_or-set_ne xs i j v d (λ e. h (ap suc e))

-- Fewer than `e` steps round a ring of `e` places do not come back.
step_ne : (e r k : ℕ) → r < e → 0 < k → k < e → (r + k) % e ≢ r
step_ne e r k hr hk he = elim (dec_lt (r + k) e) [
  | yes p ↦ omega (arith, mod-eq_of_lt p)
  | no p ↦ omega (
    arith,
    mod-eq-sub-mod {n = r + k} {m = e} (omega arith),
    mod-eq_of_lt {n = r + k - e} {m = e} (omega arith),
  )
]

pub add-mod-ne : (e h k : ℕ) → 0 < k → k < e → (h + k) % e ≢ h % e
add-mod-ne e h k hk he same =
    step_ne e (h % e) k (mod-lt h (omega arith)) hk he (mod-add-mod h e k ∙ same)

module _ {ℓ} {A : Type ℓ} (xs : List A) (e : ℕ) (d : A) where
  abbrev pub window : ℕ → ℕ → List A
  window h zero = []
  window h (suc n) = get_or xs (h % e) d ∷ window (h + 1) n

  pub length-window : (h n : ℕ) → length (window h n) ≡ n
  length-window h zero = refl
  length-window h (suc n) = ap suc (length-window (h + 1) n)

  -- Only the place of the start counts.
  pub window_congr : (h h' n : ℕ) → h % e ≡ h' % e → window h n ≡ window h' n
  window_congr h h' zero p = refl
  window_congr h h' (suc n) p = ap₂ ◌∷◌ (ap (λ i. get_or xs i d) p) (
      window_congr (h + 1) (h' + 1) n
        (omega (arith, mod-add-mod h e 1, mod-add-mod h' e 1, ap (λ (i : ℕ). (i + 1) % e) p)))

  pub drop-window : (k h n : ℕ) → k ≤ n → drop k (window h n) ≡ window (h + k) (n - k)
  drop-window zero h n p = window_eq h (h + 0) n (n - 0) (omega arith) (omega arith)
    where
      window_eq : (a b m k : ℕ) → a ≡ b → m ≡ k → window a m ≡ window b k
      window_eq a b m k p q = cc
  drop-window (suc k) h zero p = absurd (omega arith)
  drop-window (suc k) h (suc n) p =
      drop-window k (h + 1) n (omega arith) ∙ ap₂ window (omega arith) (omega arith)

-- A write just past a window extends it by what is written.
pub window-set {ℓ} :
    {A : Type ℓ} (xs : List A) (e : ℕ) (d v : A) (h n : ℕ)
    → e ≤ length xs
    → n < e
    → window (set xs ((h + n) % e) v) e d h (suc n) ≡ window xs e d h n ++ (v ∷ [])
window-set xs e d v h zero he hn =
    ap (λ w. w ∷ [])
      (ap (λ (i : ℕ). get_or (set xs (i % e) v) (h % e) d) (omega arith)
        ∙ get_or-set_self xs (h % e) v d (omega (arith, mod-lt h {m = e} hn)))
window-set xs e d v h (suc n) he hn =
    ap₂ ◌∷◌
      (get_or-set_ne xs ((h + suc n) % e) (h % e) v d (add-mod-ne e h (suc n) (omega arith) hn))
      (ap (λ (i : ℕ). window (set xs (i % e) v) e d (h + 1) (suc n)) (omega arith)
        ∙ window-set xs e d v (h + 1) n he (omega arith))
