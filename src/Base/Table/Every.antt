-- ===== src/Base/Table/Every.antt =====
-- What holds of every row of a table, after a write.
use Prim.Native.String.{String}
use mathlib.Core.Path.{◌≡◌}
use mathlib.Core.Logic.{inl, inr}
use mathlib.Core.Bool.{Bool, true}
use mathlib.Core.List.{List, [], ◌∷◌, ◌++◌}
use text.Mathlib.Text.{◌==◌ as str_eq}
use text.Mathlib.TextEquality.{eq_iff}
use openclaw_scheduler.Base.Tests.{Bool-cases}
use openclaw_scheduler.Base.Lists.{All, keep}
use openclaw_scheduler.Base.Table.{modify, patch, update_where}

module _ {ℓ κ} {A : Type ℓ} (P : A → Type κ) where
  pub All-append : (t : List A) (x : A) → All P t → P x → All P (t ++ x ∷ [])
  All-append [] x h p = (p, tt)
  All-append (y ∷ t) x h p = (h.0, All-append t x h.1 p)

  pub All-update_where :
      (p : A → Bool) (f : A → A) (t : List A)
      → ((r : A) → P r → P (patch p f r))
      → All P t
      → All P (update_where p f t)
  All-update_where p f [] moves h = tt
  All-update_where p f (x ∷ t) moves h = (moves x h.0, All-update_where p f t moves h.1)

  -- The rows that a list of rows keeps, with the test that they passed.
  pub All-passed : (p : A → Bool) (t : List A) → All P t → All (λ r. (p r ≡ true) × P r) (keep p t)
  All-passed p [] h = tt
  All-passed p (x ∷ t) h = elim (Bool-cases (p x)) [
    | inl e ↦ rw e ((e, h.0), All-passed p t h.1)
    | inr e ↦ rw e (All-passed p t h.1)
  ]

  pub All-keep_of : (p : A → Bool) (t : List A) → All P t → All P (keep p t)
  All-keep_of p [] h = tt
  All-keep_of p (x ∷ t) h = elim (Bool-cases (p x)) [
    | inl e ↦ rw e (h.0, All-keep_of p t h.1)
    | inr e ↦ rw e (All-keep_of p t h.1)
  ]

  module _ (key : A → String) where
    pub All-modify :
        (k : String) (guard : A → Bool) (f : A → A) (t : List A)
        → ((r : A) → key r ≡ k → P r → P (patch guard f r))
        → All P t
        → All P (modify key k guard f t)
    unfolding modify
    All-modify k guard f [] moves h = tt
    All-modify k guard f (x ∷ t) moves h = elim (Bool-cases (str_eq (key x) k)) [
      | inl e ↦ rw e (moves x ((eq_iff (key x) k).0 e) h.0, h.1)
      | inr e ↦ rw e (h.0, All-modify k guard f t moves h.1)
    ]
