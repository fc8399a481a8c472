-- ===== src/Base/Text.antt =====
-- Texts as JavaScript reads them: white space, `trim`, and the comparison of nullable texts.
use Prim.Native.Nat.{ℕ, ◌-◌, ◌%◌}
use Prim.Native.Char.{code}
use Prim.Native.String.{String}
use mathlib.Core.Path.{◌≡◌}
use mathlib.Core.Logic.{◌↔◌}
use mathlib.Core.Bool.{Bool, true, false, not, ◌&&◌, ◌||◌}
use mathlib.Core.Option.{Option, none, some}
use native.Mathlib.Omega.{arith}
use text.Mathlib.Text.{◌==◌ as str_eq}
use text.Mathlib.TextEquality.{eq_iff}
use openclaw_scheduler.Base.Tests.{leb, ◌==◌, if◌then◌else◌}

-- The code points that `String.prototype.trim` removes.
abbrev pub is_space : ℕ → Bool
is_space c =
    (leb 9 c && leb c 13)
    || c == 32
    || c == 160
    || c == 0x1680
    || (leb 0x2000 c && leb c 0x200a)
    || c == 0x2028
    || c == 0x2029
    || c == 0x202f
    || c == 0x205f
    || c == 0x3000
    || c == 0xfeff

-- `value.trim().length === 0`
unfoldable pub is_blank : String → Bool
is_blank String.[] = true
is_blank (String.◌∷◌ c s) = is_space (code c) && is_blank s

trim_start : String → String
trim_start String.[] = String.[]
trim_start (String.◌∷◌ c s) =
    let rest = trim_start s in if is_space (code c) then rest else String.◌∷◌ c s

trim_end : String → String
unfolding is_blank
trim_end String.[] = String.[]
trim_end (String.◌∷◌ c s) =
    let rest = String.◌∷◌ c (trim_end s) in
    if is_space (code c) && is_blank s then String.[] else rest

unfoldable pub trim : String → String
unfolding trim_start trim_end
trim s = trim_end (trim_start s)

-- `typeof value === 'string' && value.trim()` of a nullable option.
abbrev pub has_text : Option String → Bool
has_text none = false
has_text (some s) = not (is_blank s)

-- `column = ?` in SQL: never true at NULL.
unfoldable pub holds_text : Option String → String → Bool
holds_text none s = false
holds_text (some t) s = str_eq t s

pub holds_text_iff : (o : Option String) (s : String) → (holds_text o s ≡ true) ↔ (o ≡ some s)
unfolding holds_text
holds_text_iff none s = ground arith
holds_text_iff (some t) s = ground (arith, eq_iff t s)

-- `(a ?? null) === (b ?? null)`
unfoldable pub same_text : Option String → Option String → Bool
same_text none none = true
same_text (some s) (some t) = str_eq s t
same_text _ _ = false

pub same_text_iff : (a b : Option String) → (same_text a b ≡ true) ↔ (a ≡ b)
unfolding same_text
same_text_iff none none = ground arith
same_text_iff none (some t) = ground arith
same_text_iff (some s) none = ground arith
same_text_iff (some s) (some t) = ground (arith, eq_iff s t)

-- `a ?? b` and SQL's COALESCE(a, b).
abbrev pub or_else {ℓ} : {A : Type ℓ} → Option A → Option A → Option A
or_else none b = b
or_else (some a) b = some a

abbrev pub is_some {ℓ} : {A : Type ℓ} → Option A → Bool
is_some none = false
is_some (some a) = true

-- `column = ?` of a nullable number.
unfoldable pub holds_num : Option ℕ → ℕ → Bool
holds_num none n = false
holds_num (some m) n = m == n

pub holds_num_iff : (o : Option ℕ) (n : ℕ) → (holds_num o n ≡ true) ↔ (o ≡ some n)
unfolding holds_num
holds_num_iff none n = ground arith
holds_num_iff (some m) n = ground arith

abbrev pub is_none {ℓ} : {A : Type ℓ} → Option A → Bool
is_none none = true
is_none (some a) = false

-- `typeof value === 'string' && value.trim() ? value.trim() : fallback`
unfoldable pub trimmed_or : Option String → String → String
unfolding is_blank trim
trimmed_or none fallback = fallback
trimmed_or (some s) fallback = let text = trim s in if is_blank s then fallback else text

-- `text.slice(0, units)`. A character outside the basic plane takes two units; one that would be
-- cut in two is left out.
unfoldable pub slice : ℕ → String → String
slice units String.[] = String.[]
slice units (String.◌∷◌ c s) =
    let width : ℕ = if leb 0x10000 (code c) then 2 else 1 in
    let rest = String.◌∷◌ c (slice (units - width) s) in if leb width units then rest else String.[]

-- datetime('now'): the whole second of a time in milliseconds.
unfoldable pub datetime : ℕ → ℕ
datetime now = now - now % 1000

-- `!value`: absent, or the empty text.
abbrev pub filled : Option String → Option String
filled none = none
filled (some String.[]) = none
filled (some (String.◌∷◌ c s)) = some (String.◌∷◌ c s)

abbrev pub is_filled : Option String → Bool
is_filled o = is_some (filled o)

-- `value || fallback`
abbrev pub filled_or : Option String → String → String
filled_or none fallback = fallback
filled_or (some String.[]) fallback = fallback
filled_or (some (String.◌∷◌ c s)) fallback = String.◌∷◌ c s
