-- ===== src/Prelude/Slots.antt =====
-- The slots of a ring buffer, at distances from its head.
use native.Mathlib.Nat.{mod-add-mod, mod-eq_of_lt, mod-eq-sub-mod, mod-lt}
use native.Mathlib.Decide.{dec_lt, ℕ_discrete}
use Prim.Native.Nat.{ℕ, zero, suc, ◌+◌, ◌-◌, ◌%◌, ◌≤◌, ◌<◌}
use mathlib.Core.Path.{◌≡◌, refl, sym, ap, ◌∙◌}
use mathlib.Core.Logic.{◌⊎◌, inl, inr}
use mathlib.Core.List.{List, [], ◌∷◌, ◌++◌}
use native.Mathlib.Omega.{arith}
use condy.Prelude.Lists.{length, length-append, set, get_or, get_or-set_self, get_or-set_ne}

mod_near :
    (c r i : ℕ)
    → r < c
    → i < c
    → ((r + i) % c ≡ r + i) × (r + i < c) ⊎ ((r + i) % c ≡ r + i - c) × (c ≤ r + i)
mod_near c r i p q = elim (dec_lt (r + i) c) [
  | yes h ↦ inl (mod-eq_of_lt h, h)
  | no h ↦ inr (
    mod-eq-sub-mod {n = r + i} {m = c} (omega arith)
        ∙ mod-eq_of_lt {n = r + i - c} {m = c} (omega arith),
    omega arith,
  )
]

-- Two distances below the capacity that meet in a slot are the same.
pub mod_inj : (c h i j : ℕ) → i < c → j < c → (h + i) % c ≡ (h + j) % c → i ≡ j
mod_inj c h i j p q e = omega (
  arith,
  mod-add-mod h c i,
  mod-add-mod h c j,
  mod_near c (h % c) i (mod-lt h (omega arith)) p,
  mod_near c (h % c) j (mod-lt h (omega arith)) q,
)

module _ {A : Type 0} where
  get_or-append_old :
      (xs : List A) (x d : A) (i : ℕ) → i < length xs → get_or (xs ++ x ∷ []) i d ≡ get_or xs i d
  get_or-append_old [] x d i h = absurd (omega arith)
  get_or-append_old (y ∷ xs) x d zero h = refl
  get_or-append_old (y ∷ xs) x d (suc i) h = get_or-append_old xs x d i (omega arith)

  get_or-append_new : (xs : List A) (x d : A) → get_or (xs ++ x ∷ []) (length xs) d ≡ x
  get_or-append_new [] x d = refl
  get_or-append_new (y ∷ xs) x d = get_or-append_new xs x d

  -- A buffer whose slots from `h` on hold `xs`.
  abbrev pub Holds : List A → ℕ → ℕ → A → List A → Type 0
  Holds buffer c h d xs = (i : ℕ) → i < length xs → get_or buffer ((h + i) % c) d ≡ get_or xs i d

  -- One more is written behind them, while there is room.
  pub Holds-append :
      (buffer : List A) (c h : ℕ) (d x : A) (xs : List A)
      → length buffer ≡ c
      → length xs < c
      → Holds buffer c h d xs
      → Holds (set buffer ((h + length xs) % c) x) c h d (xs ++ x ∷ [])
  Holds-append buffer c h d x xs long room holds i below = elim (ℕ_discrete i (length xs)) [
    | yes same ↦
        ap (λ (j : ℕ). get_or (set buffer ((h + length xs) % c) x) ((h + j) % c) d) same
        ∙ get_or-set_self buffer ((h + length xs) % c) x d
            (omega (arith, mod-lt (h + length xs) {m = c} (omega arith)))
        ∙ sym (ap (λ (j : ℕ). get_or (xs ++ x ∷ []) j d) same ∙ get_or-append_new xs x d)
    | no other ↦
        let older : i < length xs = omega (arith, length-append xs (x ∷ [])) in
        get_or-set_ne buffer ((h + length xs) % c) ((h + i) % c) x d
          (λ e. other (sym (mod_inj c h (length xs) i room (omega arith) e)))
        ∙ holds i older
        ∙ sym (get_or-append_old xs x d i older)
  ]
