-- ===== src/Split/Turns.antt =====
-- The loop of splitDeliveryBody: it ends, its parts fit, and it drops white space only
-- (delivery-outbox.js).
use mathlib.Core.List.{append-nil}
use openclaw_scheduler.Base.{
  ℕ, zero, suc, ◌+◌, ◌≤◌, ◌<◌, ◌≡◌, refl, sym, ◌∙◌, ap, false, List, [], ◌∷◌, ◌++◌, leb, ◌==◌,
  length, length-append, arith, inl, inr, Bool-cases, All, ok,
}
use openclaw_scheduler.Split.Body.{
  Text, char_units, utf8_length, utf8_prefix_index, slice_to, slice_from, trim_end, split_at, cut,
  is_empty, raw_parts,
}
use openclaw_scheduler.Split.Pieces.{
  squeeze, squeeze-append, squeeze-trim_start, squeeze-trim_end, slice_to-append-slice_from,
  utf8_length-trim_end-le, length-trim_start-le, slice_to_mono, prefix-fits, prefix-pos,
  split_at-le,
}

abbrev pub join : List Text → Text
join [] = []
join (t ∷ ts) = t ++ join ts

module _ (t : Text) (hard i : ℕ) where
  halves-squeeze : (k : ℕ) → squeeze (slice_to t k) ++ squeeze (slice_from t k) ≡ squeeze t
  halves-squeeze k =
      sym (squeeze-append (slice_to t k) (slice_from t k))
      ∙ ap squeeze (slice_to-append-slice_from t k)

  cut-squeeze : squeeze (cut t hard i).0 ++ squeeze (cut t hard i).1 ≡ squeeze t
  unfolding cut
  cut-squeeze = elim (Bool-cases (is_empty (trim_end (slice_to t i)))) [
    | inl blank ↦ rw blank (halves-squeeze hard)
    | inr some_text ↦ rw some_text (
        rw (squeeze-trim_end (slice_to t i), squeeze-trim_start (slice_from t i))
          (halves-squeeze i))
  ]

  cut-bytes : i ≤ hard → utf8_length (cut t hard i).0 ≤ utf8_length (slice_to t hard)
  unfolding cut
  cut-bytes h = ground (arith, utf8_length-trim_end-le (slice_to t i), slice_to_mono t i hard h)

  halves-length : (k : ℕ) → length (slice_to t k) + length (slice_from t k) ≡ length t
  halves-length k =
      sym (length-append (slice_to t k) (slice_from t k))
      ∙ ap length (slice_to-append-slice_from t k)

trim_end-nonempty : (s : Text) → is_empty (trim_end s) ≡ false → 0 < length s
unfolding trim_end
trim_end-nonempty [] h = cc
trim_end-nonempty (c ∷ s) h = omega arith

cut-shorter :
    (c : ℕ) (t : Text) (hard i : ℕ) → char_units c ≤ hard → length (cut (c ∷ t) hard i).1 ≤ length t
unfolding cut
cut-shorter c t hard i h = elim (Bool-cases (is_empty (trim_end (slice_to (c ∷ t) i)))) [
  | inl blank ↦ rw blank (omega (arith, first, halves-length (c ∷ t) hard i hard))
  | inr some_text ↦ rw some_text (
      omega (
        arith,
        trim_end-nonempty (slice_to (c ∷ t) i) some_text,
        halves-length (c ∷ t) hard i i,
        length-trim_start-le (slice_from (c ∷ t) i),
      ))
]
  where
    first : 0 < length (slice_to (c ∷ t) hard)
    first = unfold slice_to in ground arith

-- With fuel for every character the loop ends without an error; its parts are no more than the
-- characters, each fits, and together they are the text but for white space.
pub raw_parts_total :
    (fuel limit : ℕ) (t : Text)
    → 4 ≤ limit
    → length t ≤ fuel
    → (parts : List Text) × (raw_parts fuel limit t ≡ ok parts)
      × All (λ p. utf8_length p ≤ limit) parts
      × (squeeze (join parts) ≡ squeeze t)
      × (length parts ≤ length t)
unfolding raw_parts
raw_parts_total fuel limit [] room h = ([], refl, tt, refl, omega arith)
raw_parts_total zero limit (c ∷ t) room h = absurd (omega arith)
raw_parts_total (suc fuel) limit (c ∷ t) room h =
    let hard : ℕ = utf8_prefix_index (c ∷ t) limit in
    let i : ℕ = split_at (c ∷ t) hard in
    let turn = cut (c ∷ t) hard i in
    let pos : char_units c ≤ hard = prefix-pos c t limit room in
    let short : length turn.1 ≤ length t = cut-shorter c t hard i pos in
    let (parts, done, fit, same, few) = raw_parts_total fuel limit turn.1 room (omega arith) in
    let steps : (hard == 0) ≡ false = ground arith in
    elim (Bool-cases (leb (utf8_length (c ∷ t)) limit)) [
      | inl fits ↦ (
        (c ∷ t) ∷ [],
        rw fits refl,
        (ground arith, tt),
        ap squeeze (append-nil (c ∷ t)),
        omega arith,
      )
      | inr long ↦ (
        turn.0 ∷ parts,
        rw (long, steps, done) refl,
        (
          omega (
            arith,
            cut-bytes (c ∷ t) hard i (split_at-le (c ∷ t) hard),
            prefix-fits (c ∷ t) limit,
          ),
          fit,
        ),
        squeeze-append turn.0 (join parts)
            ∙ ap (λ s. squeeze turn.0 ++ s) same
            ∙ cut-squeeze (c ∷ t) hard i,
        omega arith,
      )
    ]
