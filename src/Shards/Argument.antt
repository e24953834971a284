-- ===== src/Shards/Argument.antt =====
-- crates/proef-cli/src/main.rs: the argument of `--shard`.
use proef.Base.{
  ℕ, ◌<◌, ◌^◌, ◌≡◌, refl, false, Option, none, some, [], ◌∷◌, ◌++◌, ◌||◌, ◌==◌, ltb, leb, ◌&&◌, All,
  if◌then◌else◌, arith,
}
use proef.Base.Texts.{Text, split_once_char}
use proef.Base.Printing.{decimal}
use proef.Base.Digits.{IsDigit, digit_lem, parse_u32, parse_u32-decimal, decimal-Printed}

-- The messages, with the text that they name.
pub data ShardError : Type 0 where
  not_a_pair : ShardError
  bad_index : Text → ShardError
  bad_count : Text → ShardError
  not_positive : ShardError
  exceeds : ℕ → ℕ → ShardError

pub data Parsed : Type 0 where
  ok : ℕ → ℕ → Parsed
  err : ShardError → Parsed

-- The two tests behind the parsing.
unfoldable pub checked : ℕ → ℕ → Parsed
checked index count =
    if index == 0 || count == 0
    then err not_positive
    else if ltb count index
    then err (exceeds index count)
    else ok index count

abbrev pub counted : ℕ → Text → Option ℕ → Parsed
counted index count_text none = err (bad_count count_text)
counted index count_text (some count) = checked index count

abbrev pub indexed : Text → Text → Option ℕ → Parsed
indexed index_text count_text none = err (bad_index index_text)
indexed index_text count_text (some index) = counted index count_text (parse_u32 count_text)

abbrev pub halves : Option (Text × Text) → Parsed
halves none = err not_a_pair
halves (some (index_text, count_text)) = indexed index_text count_text (parse_u32 index_text)

unfoldable pub parse_shard : Text → Parsed
unfolding checked parse_u32 split_once_char
parse_shard raw = halves (split_once_char 47 raw)

-- What the documentation of the flag says of a pair of numbers.
abbrev pub documented : ℕ → ℕ → Parsed
documented index count =
    if leb 1 index && leb index count
    then ok index count
    else if ltb count index && leb 1 count
    then err (exceeds index count)
    else err not_positive

split-written :
    (t rest : Text) → All (IsDigit 10) t → split_once_char 47 (t ++ (47 ∷ rest)) ≡ some (t, rest)
unfolding split_once_char
split-written [] rest h = refl
split-written (c ∷ t) rest ((d, lt, e), h) =
    let other : (c == 47) ≡ false = ground (arith, digit_lem d lt) in
    rw (other, split-written t rest h) refl

-- Two numbers of 32 bits, written with a slash between them, are read as the shard that they name
-- exactly if the first is 1 at least and the second at most; else the message says that the index
-- exceeds a positive count, or that both have to be positive.
pub parse_shard-written :
    (index count : ℕ)
    → index < 2 ^ 32
    → count < 2 ^ 32
    → parse_shard (decimal index ++ (47 ∷ decimal count)) ≡ documented index count
unfolding parse_shard
parse_shard-written index count small small' =
    rw
      (
        split-written (decimal index) (decimal count) (decimal-Printed index small).1,
        parse_u32-decimal index small,
        parse_u32-decimal count small',
      )
      (ground arith)
