-- ===== src/Base/Constraints.antt =====
-- Lists of rows no two of which clash, as a unique constraint demands.
use mathlib.Core.Path.{◌≡◌, refl, fun_ext}
use mathlib.Core.Logic.{inl, inr}
use mathlib.Core.Bool.{Bool, true, false}
use mathlib.Core.List.{List, [], ◌∷◌, ◌++◌}
use native.Mathlib.Omega.{arith}
use feed_flow.Base.Tests.{if◌then◌else◌, Bool-cases}
use feed_flow.Base.Lists.{any, update, All, any-append}

module _ {ℓ} {A : Type ℓ} where
  abbrev pub Distinct : (A → A → Bool) → List A → Type 0
  Distinct clash [] = Unit
  Distinct clash (x ∷ xs) = (any (clash x) xs ≡ false) × Distinct clash xs

  pub any-update :
      (q p : A → Bool) (f : A → A) (xs : List A)
      → ((x : A) → q (f x) ≡ q x)
      → any q (update p f xs) ≡ any q xs
  any-update q p f [] h = refl
  any-update q p f (x ∷ xs) h = ground (arith, h x, any-update q p f xs h)

  pub Distinct-update :
      (clash : A → A → Bool) (p : A → Bool) (f : A → A) (xs : List A)
      → ((x y : A) → clash x (f y) ≡ clash x y)
      → ((x y : A) → clash (f x) y ≡ clash x y)
      → Distinct clash xs
      → Distinct clash (update p f xs)
  Distinct-update clash p f [] right left h = tt
  Distinct-update clash p f (x ∷ xs) right left h =
      let same : clash (if p x then f x else x) ≡ clash x = elim (Bool-cases (p x)) [
        | inl e ↦ rw e (fun_ext (left x))
        | inr e ↦ rw e
      ] in
      (
        rw (same, any-update (clash x) p f xs (right x)) h.0,
        Distinct-update clash p f xs right left h.1,
      )

  pub Distinct-append :
      (clash : A → A → Bool) (xs : List A) (y : A)
      → ((x : A) → clash x y ≡ clash y x)
      → any (clash y) xs ≡ false
      → Distinct clash xs
      → Distinct clash (xs ++ y ∷ [])
  Distinct-append clash [] y sym_y fresh h = (refl, tt)
  Distinct-append clash (x ∷ xs) y sym_y fresh h = (
    ground (arith, any-append (clash x) xs (y ∷ []), sym_y x),
    Distinct-append clash xs y sym_y (ground arith) h.1,
  )

  none_clash :
      (clash : A → A → Bool) (x : A) (xs : List A)
      → any (clash x) xs ≡ false
      → All (λ y. clash x y ≡ true → y ≡ x) xs
  none_clash clash x [] h = tt
  none_clash clash x (y ∷ ys) h = (λ e. ground arith, none_clash clash x ys (ground arith))

  -- Two rows of a list without clashes that clash are one row.
  module _ (clash : A → A → Bool) (symmetric : (x y : A) → clash x y ≡ clash y x) where
    add_front :
        (x : A) (xs ys : List A)
        → any (clash x) ys ≡ false
        → All (λ d. All (λ y. clash d y ≡ true → y ≡ d) xs) ys
        → All (λ d. All (λ y. clash d y ≡ true → y ≡ d) (x ∷ xs)) ys
    add_front x xs [] fresh h = tt
    add_front x xs (y ∷ ys) fresh h =
        ((λ e. ground (arith, symmetric x y), h.0), add_front x xs ys (ground arith) h.1)

    pub Distinct-same_row :
        (xs : List A) → Distinct clash xs → All (λ d. All (λ y. clash d y ≡ true → y ≡ d) xs) xs
    Distinct-same_row [] h = tt
    Distinct-same_row (x ∷ xs) h =
        ((λ e. refl, none_clash clash x xs h.0), add_front x xs xs h.0 (Distinct-same_row xs h.1))
