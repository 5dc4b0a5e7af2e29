-- ===== src/Prelude/Branches.antt =====
-- A property of the result of a test, from its two branches.
use mathlib.Core.Path.{◌≡◌, refl, subst}
use mathlib.Core.Bool.{Bool, true, false}
use mathlib.Core.Option.{Option, none, some}
use serial_broker.Prelude.Tests.{if◌then◌else◌}

module _ {ℓ κ} {A : Type ℓ} (P : A → Type κ) where
  pub by_if : (b : Bool) (x y : A) → (b ≡ true → P x) → (b ≡ false → P y) → P (if b then x else y)
  by_if true x y f g = f refl
  by_if false x y f g = g refl

  pub by_option :
      {B : Type κ} (o : Option B) (x : A) (h : B → A)
      → (o ≡ none → P x)
      → ((b : B) → o ≡ some b → P (h b))
      → P (elim o [ none ↦ x | some b ↦ h b ])
  by_option none x h f g = f refl
  by_option (some b) x h f g = g b refl

  -- Where there is an element, only the branch that takes it counts.
  pub by_some :
      {B : Type κ} (o : Option B) (x : A) (h : B → A) (b : B)
      → o ≡ some b
      → P (h b)
      → P (elim o [ none ↦ x | some b ↦ h b ])
  by_some none x h b e p = cc
  by_some (some c) x h b e p = let same : b ≡ c = cc in subst (λ y. P (h y)) same p
