-- ===== src/Split/Body.antt =====
-- splitDeliveryBody and the measures of a text that it uses (delivery-outbox.js). A body is the
-- list of its code points; an index counts UTF-16 units, as in the source.
use openclaw_scheduler.Base.{
  ℕ, zero, suc, ◌+◌, ◌-◌, ◌/◌, ◌%◌, Bool, true, false, ◌&&◌, List, [], ◌∷◌, ◌++◌, Option, none,
  some, ◌==◌, ltb, leb, if◌then◌else◌, is_space, every, length, Result, ok, err, guard, ◌>>=◌, ◌>>◌,
}

abbrev pub Text : Type 0
Text = List ℕ

-- A code point in UTF-8, and in UTF-16.
abbrev pub char_bytes : ℕ → ℕ
char_bytes c = if ltb c 0x80 then 1 else if ltb c 0x800 then 2 else if ltb c 0x10000 then 3 else 4

abbrev pub char_units : ℕ → ℕ
char_units c = if ltb c 0x10000 then 1 else 2

-- utf8Length
unfoldable pub utf8_length : Text → ℕ
utf8_length [] = 0
utf8_length (c ∷ t) = char_bytes c + utf8_length t

-- utf8PrefixIndex; `room` is what is left of maxBytes.
unfoldable pub utf8_prefix_index : Text → ℕ → ℕ
utf8_prefix_index [] room = 0
utf8_prefix_index (c ∷ t) room =
    let rest = char_units c + utf8_prefix_index t (room - char_bytes c) in
    if ltb room (char_bytes c) then 0 else rest

abbrev later_index : ℕ → Option ℕ → Option ℕ → Option ℕ
later_index units none here = here
later_index units (some i) here = some (units + i)

-- `text.lastIndexOf(ch, limit)`
unfoldable pub last_index_of : ℕ → Text → ℕ → Option ℕ
last_index_of ch [] limit = none
last_index_of ch (c ∷ t) limit =
    let here : Option ℕ = if c == ch then some 0 else none in
    let later = later_index (char_units c) (last_index_of ch t (limit - char_units c)) here in
    if ltb limit (char_units c) then here else later

-- `text.slice(0, index)` and `text.slice(index)`
unfoldable pub slice_to : Text → ℕ → Text
slice_to [] index = []
slice_to (c ∷ t) index =
    let rest = c ∷ slice_to t (index - char_units c) in
    if ltb index (char_units c) then [] else rest

unfoldable pub slice_from : Text → ℕ → Text
slice_from [] index = []
slice_from (c ∷ t) index =
    let rest = slice_from t (index - char_units c) in
    if ltb index (char_units c) then c ∷ t else rest

-- trimStart and trimEnd
unfoldable pub trim_start : Text → Text
trim_start [] = []
trim_start (c ∷ t) = let rest = trim_start t in if is_space c then rest else c ∷ t

unfoldable pub trim_end : Text → Text
trim_end [] = []
trim_end (c ∷ t) = let rest = c ∷ trim_end t in if is_space c && every is_space t then [] else rest

-- An index of -1 is below every minimum.
abbrev is_below : Option ℕ → ℕ → Bool
is_below none minimum = true
is_below (some i) minimum = ltb i minimum

abbrev index_or : Option ℕ → ℕ → ℕ → ℕ
index_or none minimum other = other
index_or (some i) minimum other = if ltb i minimum then other else i

-- Where to split: the last line break or space in the second half, or else the hard limit.
unfoldable pub split_at : Text → ℕ → ℕ
unfolding last_index_of
split_at remaining hard =
    let minimum : ℕ = hard / 2 in
    index_or (last_index_of b'\n' remaining hard) minimum
      (index_or (last_index_of b' ' remaining hard) minimum hard)

abbrev pub is_empty : Text → Bool
is_empty [] = true
is_empty (c ∷ t) = false

-- One turn of the loop: the part that is pushed and what remains.
unfoldable pub cut : Text → ℕ → ℕ → Text × Text
unfolding slice_to slice_from trim_start trim_end
cut remaining hard index =
    if is_empty (trim_end (slice_to remaining index))
    then (slice_to remaining hard, slice_from remaining hard)
    else (trim_end (slice_to remaining index), trim_start (slice_from remaining index))

pub data SplitError : Type 0 where
  bad_part_bytes too_few_bytes no_character part_too_long out_of_fuel : SplitError

-- `while (remaining.length > 0)`
unfoldable pub raw_parts : ℕ → ℕ → Text → Result SplitError (List Text)
raw_parts fuel limit [] = ok []
raw_parts zero limit (c ∷ t) = err out_of_fuel
raw_parts (suc fuel) limit (c ∷ t) =
    let hard : ℕ = utf8_prefix_index (c ∷ t) limit in
    let turn = cut (c ∷ t) hard (split_at (c ∷ t) hard) in
    let rest = raw_parts fuel limit turn.1 >>= λ parts. ok (turn.0 ∷ parts) in
    if leb (utf8_length (c ∷ t)) limit
    then ok ((c ∷ t) ∷ [])
    else if hard == 0
    then err no_character
    else rest

-- The decimal digits of a number, with fuel for one more digit than it has.
unfoldable pub digits : ℕ → ℕ → Text
digits zero n = []
digits (suc fuel) n =
    let rest = digits fuel (n / 10) ++ (b'0' + n % 10) ∷ [] in
    if ltb n 10 then (b'0' + n) ∷ [] else rest

abbrev pub decimal : ℕ → Text
decimal n = digits (suc n) n

-- `[${index}/${count}] ${part}`
unfoldable pub prefixed : ℕ → ℕ → Text → Text
unfolding digits
prefixed index count part = b'[' ∷ (decimal index ++ b'/' ∷ (decimal count ++ b']' ∷ b' ' ∷ part))

unfoldable pub prefix_all : ℕ → ℕ → ℕ → List Text → Result SplitError (List Text)
unfolding prefixed utf8_length
prefix_all max_bytes index count [] = ok []
prefix_all max_bytes index count (p ∷ ps) = do
  guard (leb (utf8_length (prefixed index count p)) max_bytes) part_too_long
  rest ← prefix_all max_bytes (suc index) count ps
  ok (prefixed index count p ∷ rest)

abbrev pub prefix_reserve : ℕ
prefix_reserve = 32

unfoldable pub split_long : Text → ℕ → Result SplitError (List Text)
unfolding raw_parts prefix_all
split_long text max_bytes = do
  guard (leb 256 max_bytes) too_few_bytes
  parts ← raw_parts (length text) (max_bytes - prefix_reserve) text
  prefix_all max_bytes 1 (length parts) parts

abbrev lower : ℕ → ℕ
lower c = if leb b'A' c && leb c b'Z' then c + 32 else c

abbrev is_telegram : Text → Bool
is_telegram (t ∷ e ∷ l ∷ e' ∷ g ∷ r ∷ a ∷ m ∷ []) =
    lower t == b't'
    && lower e == b'e'
    && lower l == b'l'
    && lower e' == b'e'
    && lower g == b'g'
    && lower r == b'r'
    && lower a == b'a'
    && lower m == b'm'
is_telegram _ = false

abbrev pub default_telegram_part_bytes : ℕ
default_telegram_part_bytes = 3600

-- resolvePartBytes; 0 stands for every requested value that is no positive integer.
unfoldable pub resolve_part_bytes : Text → Option ℕ → Result SplitError (Option ℕ)
resolve_part_bytes channel (some n) = if n == 0 then err bad_part_bytes else ok (some n)
resolve_part_bytes channel none =
    ok (if is_telegram channel then some default_telegram_part_bytes else none)

abbrev pub split_by : Text → Option ℕ → Result SplitError (List Text)
split_by text none = ok (text ∷ [])
split_by text (some max_bytes) =
    if leb (utf8_length text) max_bytes then ok (text ∷ []) else split_long text max_bytes

unfoldable pub split_delivery_body : Text → Text → Option ℕ → Result SplitError (List Text)
unfolding resolve_part_bytes utf8_length split_long
split_delivery_body text channel requested = do
  max_bytes ← resolve_part_bytes channel requested
  split_by text max_bytes
