-- ===== src/Split/Whole.antt =====
-- What a caller of splitDeliveryBody gets (delivery-outbox.js).
use openclaw_scheduler.Base.{
  ℕ, ◌+◌, ◌≤◌, ◌<◌, ◌^◌, ◌≡◌, refl, false, List, [], ◌∷◌, map, Option, some, leb, length, arith,
  inl, inr, Bool-cases, All, ok,
}
use openclaw_scheduler.Split.Body.{Text, utf8_length, resolve_part_bytes, split_delivery_body}
use openclaw_scheduler.Split.Pieces.{squeeze}
use openclaw_scheduler.Split.Turns.{join}
use openclaw_scheduler.Split.Fits.{content, long_total}

module _ (text channel : Text) (requested : Option ℕ) (max_bytes : ℕ)
    (resolved : resolve_part_bytes channel requested ≡ ok (some max_bytes))
    (enough : 256 ≤ max_bytes) (few : length text + 1 < 10 ^ 14) where
  -- If the limit that the channel or the caller sets is 256 bytes at least, the division of a body
  -- of less than 10 ^ 14 - 1 characters ends without an error, and each part fits the limit with
  -- its label.
  pub split_fits :
      (parts : List Text) × (split_delivery_body text channel requested ≡ ok parts)
      × All (λ p. utf8_length p ≤ max_bytes) parts
  unfolding split_delivery_body
  split_fits = elim (Bool-cases (leb (utf8_length text) max_bytes)) [
    | inl short ↦ (text ∷ [], rw (resolved, short) refl, (ground arith, tt))
    | inr long ↦
        let (parts, done, fit, same) = long_total text max_bytes enough few in
        (parts, rw (resolved, long, done) refl, fit)
  ]

  -- Under the same conditions, the parts of a body that is longer than the limit, each without its
  -- label, are in their order the body again, but for white space.
  pub split_round_trip :
      max_bytes < utf8_length text
      → (parts : List Text) × (split_delivery_body text channel requested ≡ ok parts)
        × (squeeze (join (map content parts)) ≡ squeeze text)
  unfolding split_delivery_body
  split_round_trip over =
      let long : leb (utf8_length text) max_bytes ≡ false = ground arith in
      let (parts, done, fit, same) = long_total text max_bytes enough few in
      (parts, rw (resolved, long, done) refl, same)
