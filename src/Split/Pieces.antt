-- ===== src/Split/Pieces.antt =====
-- Slices and trims of a text: what they keep, and how long they are (delivery-outbox.js).
use openclaw_scheduler.Base.{
  ℕ, ◌+◌, ◌-◌, ◌≤◌, ◌≡◌, refl, true, not, [], ◌∷◌, ◌++◌, some, is_space, every, keep, length, ltb,
  arith, inl, inr, Bool-cases, Option-cases,
}
use openclaw_scheduler.Split.Body.{
  Text, char_bytes, char_units, utf8_length, utf8_prefix_index, last_index_of, slice_to, slice_from,
  trim_start, trim_end, split_at,
}

-- What is left of a text when its white space is taken out.
abbrev pub squeeze : Text → Text
squeeze = keep (λ c. not (is_space c))

pub squeeze-append : (s t : Text) → squeeze (s ++ t) ≡ squeeze s ++ squeeze t
squeeze-append [] t = refl
squeeze-append (c ∷ s) t = ground (arith, squeeze-append s t)

pub squeeze-every : (t : Text) → every is_space t ≡ true → squeeze t ≡ []
squeeze-every [] h = refl
squeeze-every (c ∷ t) h = ground (arith, squeeze-every t)

pub squeeze-trim_start : (t : Text) → squeeze (trim_start t) ≡ squeeze t
unfolding trim_start
squeeze-trim_start [] = refl
squeeze-trim_start (c ∷ t) = ground (arith, squeeze-trim_start t)

pub squeeze-trim_end : (t : Text) → squeeze (trim_end t) ≡ squeeze t
unfolding trim_end
squeeze-trim_end [] = refl
squeeze-trim_end (c ∷ t) = ground (arith, squeeze-trim_end t, squeeze-every t)

pub slice_to-append-slice_from : (t : Text) (i : ℕ) → slice_to t i ++ slice_from t i ≡ t
unfolding slice_to slice_from
slice_to-append-slice_from [] i = refl
slice_to-append-slice_from (c ∷ t) i =
    ground (arith, slice_to-append-slice_from t (i - char_units c))

pub utf8_length-append : (s t : Text) → utf8_length (s ++ t) ≡ utf8_length s + utf8_length t
unfolding utf8_length
utf8_length-append [] t = omega arith
utf8_length-append (c ∷ s) t = omega (arith, utf8_length-append s t)

pub utf8_length-trim_end-le : (t : Text) → utf8_length (trim_end t) ≤ utf8_length t
unfolding utf8_length trim_end
utf8_length-trim_end-le [] = omega arith
utf8_length-trim_end-le (c ∷ t) = ground (arith, utf8_length-trim_end-le t)

pub length-trim_start-le : (t : Text) → length (trim_start t) ≤ length t
unfolding trim_start
length-trim_start-le [] = omega arith
length-trim_start-le (c ∷ t) = ground (arith, length-trim_start-le t)

-- A shorter slice is no longer in bytes.
pub slice_to_mono :
    (t : Text) (i j : ℕ) → i ≤ j → utf8_length (slice_to t i) ≤ utf8_length (slice_to t j)
unfolding slice_to utf8_length
slice_to_mono [] i j h = omega arith
slice_to_mono (c ∷ t) i j h = ground (arith, slice_to_mono t (i - char_units c) (j - char_units c))

-- The prefix at the index fits.
pub prefix-fits : (t : Text) (room : ℕ) → utf8_length (slice_to t (utf8_prefix_index t room)) ≤ room
unfolding slice_to utf8_length utf8_prefix_index
prefix-fits [] room = omega arith
prefix-fits (c ∷ t) room = elim (Bool-cases (ltb room (char_bytes c))) [
  | inl full ↦ ground arith
  | inr fits ↦
      let back : char_units c + utf8_prefix_index t (room - char_bytes c) - char_units c
          ≡ utf8_prefix_index t (room - char_bytes c) =
        omega arith in
      ground (arith, prefix-fits t (room - char_bytes c))
]

-- Room for one character is room for the first.
pub prefix-pos :
    (c : ℕ) (t : Text) (room : ℕ) → 4 ≤ room → char_units c ≤ utf8_prefix_index (c ∷ t) room
unfolding utf8_prefix_index
prefix-pos c t room h = ground arith

pub last_index_of-le :
    (ch : ℕ) (t : Text) (limit : ℕ) {i : ℕ} → last_index_of ch t limit ≡ some i → i ≤ limit
unfolding last_index_of
last_index_of-le ch [] limit e = cc
last_index_of-le ch (c ∷ t) limit {i} e =
    elim (Option-cases (last_index_of ch t (limit - char_units c))) [
      | inl absent ↦ ground arith
      | inr (k, found) ↦ ground (arith, last_index_of-le ch t (limit - char_units c) found)
    ]

pub split_at-le : (t : Text) (hard : ℕ) → split_at t hard ≤ hard
unfolding split_at
split_at-le t hard = elim (Option-cases (last_index_of b'\n' t hard)) [
  | inl no_break ↦ elim (Option-cases (last_index_of b' ' t hard)) [
    | inl no_space ↦ ground arith
    | inr (j, at_space) ↦ ground (arith, last_index_of-le b' ' t hard at_space)
  ]
  | inr (i, at_break) ↦ elim (Option-cases (last_index_of b' ' t hard)) [
    | inl no_space ↦ ground (arith, last_index_of-le b'\n' t hard at_break)
    | inr (j, at_space) ↦
        ground
          (arith, last_index_of-le b'\n' t hard at_break, last_index_of-le b' ' t hard at_space)
  ]
]
