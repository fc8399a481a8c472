-- ===== src/Base/Table.antt =====
-- A database table with a text primary key, as the list of its rows in insertion order.
pub mod Follows
pub mod Primary
pub mod Every
use Prim.Native.String.{String}
use mathlib.Core.Path.{◌≡◌, refl}
use mathlib.Core.Logic.{◌≢◌, inl, inr}
use mathlib.Core.Bool.{Bool, true, false}
use mathlib.Core.Option
use mathlib.Core.Option.{Option, none, some}
use mathlib.Core.List.{List, [], ◌∷◌, ◌++◌, map}
use native.Mathlib.Omega.{arith}
use text.Mathlib.Text.{◌==◌ as str_eq}
use text.Mathlib.TextEquality.{eq_iff}
use openclaw_scheduler.Base.Tests.{if◌then◌else◌, Option-cases}
use openclaw_scheduler.Base.Lists.{keep}

-- `if guard then f` on one row: what an UPDATE does to the row that its key names.
abbrev pub patch {ℓ} : {A : Type ℓ} → (A → Bool) → (A → A) → A → A
patch guard f r = if guard r then f r else r

module _ {ℓ} {A : Type ℓ} (key : A → String) where
  -- SELECT * … WHERE key = ?
  unfoldable pub find : String → List A → Option A
  find k [] = none
  find k (r ∷ t) = if str_eq (key r) k then some r else find k t

  -- UPDATE … SET f WHERE key = ? AND guard. The key is primary: it names one row at most.
  unfoldable pub modify : String → (A → Bool) → (A → A) → List A → List A
  modify k guard f [] = []
  modify k guard f (r ∷ t) =
      if str_eq (key r) k then patch guard f r ∷ t else r ∷ modify k guard f t

  -- … RETURNING *, and `changes === 1` is that it is a row.
  unfoldable pub returning : String → (A → Bool) → (A → A) → List A → Option A
  unfolding find
  returning k guard f t = elim (find k t) [
    | none ↦ none
    | some r ↦ if guard r then some (f r) else none
  ]

  pub find-key : (k : String) (t : List A) {r : A} → find k t ≡ some r → key r ≡ k
  unfolding find
  find-key k [] h = ground arith
  find-key k (x ∷ t) {r} h = ground (arith, eq_iff (key x) k, find-key k t {r = r})

  pub find-append :
      (k : String) (t : List A) (r : A)
      → find k (t ++ r ∷ [])
        ≡ elim (find k t) [ none ↦ if str_eq (key r) k then some r else none | some x ↦ some x ]
  unfolding find
  find-append k [] r = refl
  find-append k (x ∷ t) r = ground (arith, find-append k t r)

module _ {ℓ} {A : Type ℓ} (key : A → String) where
  -- DELETE … WHERE not p: a row that passes is still there.
  pub find-keep :
      (k : String) (p : A → Bool) (t : List A) {r : A}
      → find key k t ≡ some r
      → p r ≡ true
      → find key k (keep p t) ≡ some r
  unfolding find
  find-keep k p [] h pass = cc
  find-keep k p (x ∷ t) {r} h pass = ground (arith, find-keep k p t {r = r})

-- UPDATE … SET f WHERE p, over any number of rows.
abbrev pub update_where {ℓ} : {A : Type ℓ} → (A → Bool) → (A → A) → List A → List A
update_where p f = map (patch p f)

-- An update writes no key column, which the laws below ask of `f`.
module _ {ℓ} {A : Type ℓ} (key : A → String) (f : A → A) (same : (r : A) → key (f r) ≡ key r) where
  pub find-modify :
      (k : String) (guard : A → Bool) (t : List A)
      → find key k (modify key k guard f t) ≡ Option.map (patch guard f) (find key k t)
  unfolding find modify
  find-modify k guard [] = refl
  find-modify k guard (x ∷ t) =
      ground (arith, eq_iff (key x) k, eq_iff (key (f x)) k, same x, find-modify k guard t)

  pub find-modify_ne :
      (j k : String) (guard : A → Bool) (t : List A)
      → j ≢ k
      → find key j (modify key k guard f t) ≡ find key j t
  unfolding find modify
  find-modify_ne j k guard [] h = refl
  find-modify_ne j k guard (x ∷ t) h = ground (
    arith,
    eq_iff (key x) k,
    eq_iff (key x) j,
    eq_iff (key (f x)) j,
    same x,
    find-modify_ne j k guard t,
  )

  pub find-update_where :
      (j : String) (p : A → Bool) (t : List A)
      → find key j (update_where p f t) ≡ Option.map (patch p f) (find key j t)
  unfolding find
  find-update_where j p [] = refl
  find-update_where j p (x ∷ t) =
      ground (arith, eq_iff (key x) j, eq_iff (key (f x)) j, same x, find-update_where j p t)

  pub returning-some :
      (k : String) (guard : A → Bool) (t : List A) {r : A}
      → returning key k guard f t ≡ some r
      → (x : A) × (find key k t ≡ some x)
        × (guard x ≡ true)
        × (r ≡ f x)
        × (find key k (modify key k guard f t) ≡ some r)
  unfolding returning
  returning-some k guard t {r} h = elim (Option-cases (find key k t)) [
    | inl e ↦ ground arith
    | inr (x, e) ↦
        let law : find key k (modify key k guard f t) ≡ Option.map (patch guard f) (find key k t) =
          find-modify k guard t in
        (x, e, ground arith, ground arith, ground arith)
  ]

module _ {ℓ} {A : Type ℓ} (key : A → String) (f : A → A) where
  -- An update that returns no row changes nothing.
  pub modify-none :
      (k : String) (guard : A → Bool) (t : List A)
      → returning key k guard f t ≡ none
      → modify key k guard f t ≡ t
  unfolding find modify returning
  modify-none k guard [] h = refl
  modify-none k guard (x ∷ t) h = ground (arith, modify-none k guard t)

  -- A row whose guard fails is neither written nor returned.
  pub refused :
      (k : String) (guard : A → Bool) (t : List A) (r : A)
      → find key k t ≡ some r
      → guard r ≡ false
      → (modify key k guard f t ≡ t) × (returning key k guard f t ≡ none)
  unfolding returning
  refused k guard t r e g =
      let none_returned : returning key k guard f t ≡ none = ground arith in
      (modify-none k guard t none_returned, none_returned)

  -- A row whose guard holds is returned as it is written.
  pub accepted :
      (k : String) (guard : A → Bool) (t : List A) (r : A)
      → find key k t ≡ some r
      → guard r ≡ true
      → returning key k guard f t ≡ some (f r)
  unfolding returning
  accepted k guard t r e g = ground arith

  pub absent :
      (k : String) (guard : A → Bool) (t : List A)
      → find key k t ≡ none
      → (modify key k guard f t ≡ t) × (returning key k guard f t ≡ none)
  unfolding returning
  absent k guard t e =
      let none_returned : returning key k guard f t ≡ none = ground arith in
      (modify-none k guard t none_returned, none_returned)

  -- A guard that no row passes writes nothing.
  pub modify-false :
      (k : String) (guard : A → Bool) (t : List A)
      → ((r : A) → guard r ≡ false)
      → modify key k guard f t ≡ t
  unfolding modify
  modify-false k guard [] barred = refl
  modify-false k guard (x ∷ t) barred = ground (arith, barred x, modify-false k guard t barred)
