-- ===== src/Split/Tests.antt =====
-- Runs of splitDeliveryBody at concrete inputs (delivery-outbox.js).
use openclaw_scheduler.Base.{
  ℕ, zero, suc, ◌≤◌, ◌≡◌, refl, List, [], ◌∷◌, map, some, none, arith, All, ok, err,
}
use openclaw_scheduler.Split.Body.{
  Text, utf8_length, too_few_bytes, bad_part_bytes, last_index_of, slice_to, slice_from, trim_start,
  trim_end, prefixed, resolve_part_bytes, split_delivery_body, utf8_prefix_index, split_at, cut,
  raw_parts, prefix_all, split_long, digits,
}
use openclaw_scheduler.Split.Pieces.{squeeze}
use openclaw_scheduler.Split.Turns.{join}
use openclaw_scheduler.Split.Fits.{content}
use openclaw_scheduler.Split.Whole.{split_fits, split_round_trip}

abbrev lines : ℕ → Text
lines zero = []
lines (suc n) = 0x41 ∷ 0x20AC ∷ 0x1F600 ∷ b'\n' ∷ lines n

abbrev long_text : Text
long_text = lines 30

abbrev telegram : Text
telegram = b't' ∷ b'e' ∷ b'l' ∷ b'e' ∷ b'g' ∷ b'r' ∷ b'a' ∷ b'm' ∷ []

telegram_limit : resolve_part_bytes telegram none ≡ ok (some 3600)
unfolding resolve_part_bytes
telegram_limit = refl

zero_refused : resolve_part_bytes telegram (some 0) ≡ err bad_part_bytes
unfolding resolve_part_bytes
zero_refused = refl

small_limit : split_delivery_body long_text telegram (some 255) ≡ err too_few_bytes
unfolding split_delivery_body resolve_part_bytes utf8_length split_long
small_limit = refl

set_limit : resolve_part_bytes telegram (some 256) ≡ ok (some 256)
unfolding resolve_part_bytes
set_limit = refl

long_text-bytes : utf8_length long_text ≡ 270
unfolding utf8_length
long_text-bytes = refl

split_fits_example :
    (parts : List Text) × (split_delivery_body long_text telegram (some 256) ≡ ok parts)
    × All (λ p. utf8_length p ≤ 256) parts
split_fits_example =
    split_fits long_text telegram (some 256) 256 set_limit (omega arith) (omega arith)

split_round_trip_example :
    (parts : List Text) × (split_delivery_body long_text telegram (some 256) ≡ ok parts)
    × (squeeze (join (map content parts)) ≡ squeeze long_text)
split_round_trip_example =
    split_round_trip long_text telegram (some 256) 256 set_limit (omega arith) (omega arith)
      (omega (arith, long_text-bytes))

-- The first part ends at the last line break before 224 bytes.
two_parts :
    split_delivery_body long_text telegram (some 256)
    ≡ ok (prefixed 1 2 (trim_end (lines 25)) ∷ prefixed 2 2 (lines 5) ∷ [])
unfolding split_delivery_body resolve_part_bytes utf8_length split_long raw_parts utf8_prefix_index
    split_at last_index_of cut slice_to slice_from trim_start trim_end prefix_all prefixed digits
two_parts = refl
