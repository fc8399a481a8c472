-- ===== src/Base/Table/Follows.antt =====
-- What may become of one row of a table while others, or itself, are written.
use Prim.Native.String.{String}
use mathlib.Core.Path.{◌≡◌}
use mathlib.Core.Logic.{◌≢◌, inl, inr}
use mathlib.Core.Bool.{Bool, false}
use mathlib.Core.Option
use mathlib.Core.Option.{Option, some}
use mathlib.Core.List.{List, [], ◌∷◌, ◌++◌}
use native.Mathlib.Omega.{arith}
use text.Mathlib.Text.{◌==◌ as str_eq}
use text.Mathlib.TextEquality.{eq_iff}
use openclaw_scheduler.Base.Tests.{Bool-cases}
use openclaw_scheduler.Base.Table.{
  find, modify, patch, update_where, find-modify, find-modify_ne, find-update_where, find-append,
}

module _ {ℓ} {A : Type ℓ} (key : A → String) (R : A → A → Type 0) where
  -- The row that `j` names in `t` is still there in `t'`, and has moved by `R`.
  abbrev pub Follows : String → List A → List A → Type ℓ
  Follows j t t' = (r : A) → find key j t ≡ some r → (r' : A) × (find key j t' ≡ some r') × R r r'

  pub refl-Follows : ((r : A) → R r r) → (j : String) (t : List A) → Follows j t t
  refl-Follows stay j t r e = (r, e, stay r)

  pub trans-Follows :
      ((r s u : A) → R r s → R s u → R r u)
      → (j : String) (t u v : List A) → Follows j t u
      → Follows j u v
      → Follows j t v
  trans-Follows trans j t u v f g r e =
      let (r', e', p) = f r e in let (s, e'', q) = g r' e' in (s, e'', trans r r' s p q)

  pub append-Follows :
      ((r : A) → R r r) → (j : String) (t : List A) (x : A) → Follows j t (t ++ x ∷ [])
  append-Follows stay j t x r e = (r, ground (arith, find-append key j t x), stay r)

  module _ (f : A → A) (same : (r : A) → key (f r) ≡ key r) where
    -- The write has to be one that `R` allows only for the row that `k` names.
    pub modify_found-Follows :
        ((r : A) → R r r)
        → (j k : String) (guard : A → Bool) (t : List A)
        → ((r : A) → find key k t ≡ some r → R r (patch guard f r))
        → Follows j t (modify key k guard f t)
    modify_found-Follows stay j k guard t moves r e = elim (Bool-cases (str_eq j k)) [
      | inl eq ↦
          let j_is : j ≡ k = (eq_iff j k).0 eq in
          (
            patch guard f r,
            rw j_is (rw (find-modify key f same k guard t) (moved j_is)),
            moves r (rw (← j_is) e),
          )
      | inr ne ↦ (r, rw (find-modify_ne key f same j k guard t (apart ne)) e, stay r)
    ]
      where
        moved : j ≡ k → Option.map (patch guard f) (find key k t) ≡ some (patch guard f r)
        moved p = rw p at e'
          where
            e' : Option.map (patch guard f) (find key j t) ≡ some (patch guard f r)
            e' = rw e

        apart : str_eq j k ≡ false → j ≢ k
        apart ne = ground (arith, eq_iff j k)

    pub modify-Follows :
        ((r : A) → R r r)
        → (j k : String) (guard : A → Bool) (t : List A) → ((r : A) → R r (patch guard f r))
        → Follows j t (modify key k guard f t)
    modify-Follows stay j k guard t moves = modify_found-Follows stay j k guard t (λ r e. moves r)

    pub update_where-Follows :
        (j : String) (p : A → Bool) (t : List A)
        → ((r : A) → R r (patch p f r))
        → Follows j t (update_where p f t)
    update_where-Follows j p t moves r e =
        (patch p f r, rw (find-update_where key f same j p t) (rw e), moves r)
