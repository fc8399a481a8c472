-- ===== src/Split/Fits.antt =====
-- The labelled parts of a body: they fit, and a reader who drops the labels has the body back
-- (delivery-outbox.js, splitDeliveryBody).
use native.Mathlib.Nat.{pow-suc}
use openclaw_scheduler.Base.{
  ℕ, zero, suc, ◌+◌, ◌-◌, ◌/◌, ◌%◌, ◌^◌, ◌≤◌, ◌<◌, ◌≡◌, refl, ◌∙◌, ap, true, false, List, [], ◌∷◌,
  ◌++◌, map, leb, ltb, ◌==◌, if◌then◌else◌, length, drop, arith, inl, inr, Bool-cases, All, ok,
}
use openclaw_scheduler.Split.Body.{
  Text, utf8_length, digits, decimal, prefixed, prefix_all, prefix_reserve, split_long,
}
use openclaw_scheduler.Split.Pieces.{squeeze, utf8_length-append}
use openclaw_scheduler.Split.Turns.{join, raw_parts_total}

digits-bytes : (fuel k n : ℕ) → n < 10 ^ suc k → utf8_length (digits fuel n) ≤ suc k
unfolding digits utf8_length
digits-bytes zero k n h = omega arith
digits-bytes (suc fuel) zero n h = ground arith
digits-bytes (suc fuel) (suc k) n h =
    let tenth : n / 10 < 10 ^ suc k = omega (arith, pow-suc 10 (suc k)) in
    ground (
      arith,
      digits-bytes fuel k (n / 10) tenth,
      utf8_length-append (digits fuel (n / 10)) ((b'0' + n % 10) ∷ []),
    )

-- Fourteen digits at most, for the number of a part and for their count.
prefixed-bytes :
    (index count : ℕ) (p : Text)
    → index < 10 ^ 14
    → count < 10 ^ 14
    → utf8_length (prefixed index count p) ≤ utf8_length p + 32
unfolding prefixed utf8_length
prefixed-bytes index count p h k = omega (
  arith,
  digits-bytes (suc index) 13 index h,
  digits-bytes (suc count) 13 count k,
  utf8_length-append (decimal index) (b'/' ∷ (decimal count ++ b']' ∷ b' ' ∷ p)),
  utf8_length-append (decimal count) (b']' ∷ b' ' ∷ p),
)

-- What a reader makes of a part: the text behind its label.
abbrev pub content : Text → Text
content [] = []
content (c ∷ t) = let rest = content t in if c == b']' then drop 1 t else rest

abbrev IsPlain : Text → Type 0
IsPlain = All (λ c. (c == b']') ≡ false)

IsPlain-append : (s t : Text) → IsPlain s → IsPlain t → IsPlain (s ++ t)
IsPlain-append [] t h k = k
IsPlain-append (c ∷ s) t h k = (h.0, IsPlain-append s t h.1 k)

digits-IsPlain : (fuel n : ℕ) → IsPlain (digits fuel n)
unfolding digits
digits-IsPlain zero n = tt
digits-IsPlain (suc fuel) n = elim (Bool-cases (ltb n 10)) [
  | inl small ↦ rw small (ground arith, tt)
  | inr large ↦
      rw large
        (IsPlain-append (digits fuel (n / 10)) _ (digits-IsPlain fuel (n / 10)) (ground arith, tt))
]

content-append : (s t : Text) → IsPlain s → content (s ++ t) ≡ content t
content-append [] t h = refl
content-append (c ∷ s) t h = rw h.0 (content-append s t h.1)

content-prefixed : (index count : ℕ) (p : Text) → content (prefixed index count p) ≡ p
unfolding prefixed
content-prefixed index count p =
    content-append (decimal index) _ (digits-IsPlain (suc index) index)
    ∙ content-append (decimal count) _ (digits-IsPlain (suc count) count)

-- The labels are added without an error, and the parts fit.
prefix_all_total :
    (max_bytes index count : ℕ) (ps : List Text)
    → index + length ps < 10 ^ 14
    → count < 10 ^ 14
    → 32 ≤ max_bytes
    → All (λ p. utf8_length p ≤ max_bytes - 32) ps
    → (parts : List Text) × (prefix_all max_bytes index count ps ≡ ok parts)
      × All (λ p. utf8_length p ≤ max_bytes) parts
      × (map content parts ≡ ps)
unfolding prefix_all
prefix_all_total max_bytes index count [] few fewer big fit = ([], refl, tt, refl)
prefix_all_total max_bytes index count (p ∷ ps) few fewer big fit =
    let (parts, done, fits, same) =
      prefix_all_total max_bytes (suc index) count ps (omega arith) fewer big fit.1 in
    let small : utf8_length (prefixed index count p) ≤ max_bytes =
      omega (arith, prefixed-bytes index count p (omega arith) fewer, fit.0) in
    let passes : leb (utf8_length (prefixed index count p)) max_bytes ≡ true = ground arith in
    (
      prefixed index count p ∷ parts,
      rw (passes, done) refl,
      (small, fits),
      rw (content-prefixed index count p, same) refl,
    )

pub long_total :
    (text : Text) (max_bytes : ℕ)
    → 256 ≤ max_bytes
    → length text + 1 < 10 ^ 14
    → (parts : List Text) × (split_long text max_bytes ≡ ok parts)
      × All (λ p. utf8_length p ≤ max_bytes) parts
      × (squeeze (join (map content parts)) ≡ squeeze text)
unfolding split_long
long_total text max_bytes big few =
    let (raw, looped, fit, same, count) =
      raw_parts_total (length text) (max_bytes - prefix_reserve) text (omega arith) (omega arith) in
    let (parts, done, fits, contents) =
      prefix_all_total max_bytes 1 (length raw) raw (omega arith) (omega arith) (omega arith) fit in
    let enough : leb 256 max_bytes ≡ true = ground arith in
    (parts, rw (enough, looped, done) refl, fits, ap (λ ts. squeeze (join ts)) contents ∙ same)
