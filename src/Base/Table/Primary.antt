-- ===== src/Base/Table/Primary.antt =====
-- The primary key of a table: every key names one row.
use Prim.Native.String.{String}
use mathlib.Core.Path.{◌≡◌, refl}
use mathlib.Core.Bool.{Bool, false}
use mathlib.Core.Option.{some}
use mathlib.Core.List.{List, [], ◌∷◌, map}
use native.Mathlib.Omega.{arith}
use text.Mathlib.Text.{◌==◌ as str_eq}
use text.Mathlib.TextEquality.{eq_iff}
use openclaw_scheduler.Base.Lists.{All}
use openclaw_scheduler.Base.Table.{find, modify, update_where}

-- No key stands twice in a list of keys.
abbrev pub IsPrimary : List String → Type 0
IsPrimary [] = Unit
IsPrimary (k ∷ ks) = All (λ x. str_eq k x ≡ false) ks × IsPrimary ks

module _ {ℓ} {A : Type ℓ} (key : A → String) where
  pub keys-modify :
      (f : A → A)
      → ((r : A) → key (f r) ≡ key r)
      → (k : String) (guard : A → Bool) (t : List A) → map key (modify key k guard f t) ≡ map key t
  unfolding modify
  keys-modify f same k guard [] = refl
  keys-modify f same k guard (x ∷ t) = ground (arith, same x, keys-modify f same k guard t)

  pub keys-update_where :
      (f : A → A)
      → ((r : A) → key (f r) ≡ key r)
      → (p : A → Bool) (t : List A) → map key (update_where p f t) ≡ map key t
  keys-update_where f same p [] = refl
  keys-update_where f same p (x ∷ t) = ground (arith, same x, keys-update_where f same p t)

  -- Each row is the one that its key finds.
  pub All-found : (t : List A) → IsPrimary (map key t) → All (λ r. find key (key r) t ≡ some r) t
  unfolding find
  All-found [] h = tt
  All-found (x ∷ t) h = (ground (arith, eq_iff (key x) (key x)), later t t h.0 (All-found t h.1))
    where
      later :
          (s u : List A)
          → All (λ k. str_eq (key x) k ≡ false) (map key s)
          → All (λ r. find key (key r) u ≡ some r) s
          → All (λ r. find key (key r) (x ∷ u) ≡ some r) s
      later [] u apart found = tt
      later (y ∷ s) u apart found = (rw apart.0 found.0, later s u apart.1 found.1)
