-- ===== src/Replication/Checkpoint.antt =====
-- Enterprise/Replication/ReplicationCheckpoint.{h,cpp}: the tracker's state in a file. The disk is the
-- file at the path and the temporary one beside it; which file operations fail is a parameter. A
-- position in the text is kept as the text from there on.
pub mod Parsing
pub mod Saving
pub mod RoundTrip
mod Examples
use open_arango_dbcore.Prelude.{
  ℕ, zero, suc, ◌+◌, Bool, true, false, ◌&&◌, ◌||◌, not, Option, none, some, List, [], ◌∷◌, ◌++◌,
  ltb, leb, ◌==◌, if◌then◌else◌, length, take, drop, Str, str_key, Map, insert, find_char, find_str,
  to_string, dec_value, u64_mod,
}
use open_arango_dbcore.Replication.Sequence.{SequenceNumberTracker, get_state, restore_state}

-- Why a checkpoint was not saved or not loaded; the last two name a shard.
pub data CheckpointError : Type 0 where
  temporary_not_opened temporary_not_written not_renamed not_opened : CheckpointError
  no_shards_key malformed_shards unterminated_string : CheckpointError
  non_numeric invalid_number : Str → CheckpointError

pub data CheckpointResult : Type 0 where
  success : CheckpointResult
  failure : CheckpointError → CheckpointResult

abbrev pub header : Str
header =
    b'{' ∷ 10 ∷ b' ' ∷ b' ' ∷ 34 ∷ b'v' ∷ b'e' ∷ b'r' ∷ b's' ∷ b'i' ∷ b'o' ∷ b'n' ∷ 34 ∷ b':' ∷ b' '
    ∷ b'1' ∷ b',' ∷ 10 ∷ b' ' ∷ b' ' ∷ 34 ∷ b's' ∷ b'h' ∷ b'a' ∷ b'r' ∷ b'd' ∷ b's' ∷ 34 ∷ b':'
    ∷ b' ' ∷ b'{' ∷ []

abbrev pub footer : Str
footer = 10 ∷ b' ' ∷ b' ' ∷ b'}' ∷ 10 ∷ b'}' ∷ 10 ∷ []

-- oss << "\n    \"" << shardId << "\": " << seq
unfoldable pub render_entry : Str → ℕ → Str → Str
render_entry shard_id seq rest =
    10 ∷ b' ' ∷ b' ' ∷ b' ' ∷ b' ' ∷ 34 ∷ (shard_id ++ 34 ∷ b':' ∷ b' ' ∷ (to_string seq ++ rest))

-- for (auto const& [shardId, seq] : state), in front of what follows.
unfoldable pub render_entries : Bool → Map Str ℕ → Str → Str
unfolding render_entry
render_entries first [] rest = rest
render_entries first ((shard_id, seq) ∷ state) rest =
    (if first then [] else b',' ∷ []) ++ render_entry shard_id seq (render_entries false state rest)

unfoldable pub render : Map Str ℕ → Str
unfolding render_entries
render state = header ++ render_entries true state footer

pub record Disk : Type 0 where
  pub checkpoint : Option Str
  pub temporary : Option Str

-- Which steps fail, and what a failed write leaves in the temporary file.
pub record Faults : Type 0 where
  pub open_fails : Bool
  pub write_fails : Bool
  pub written : Str
  pub rename_fails : Bool

unfoldable pub save : SequenceNumberTracker → Faults → Disk → Disk × CheckpointResult
unfolding render get_state
save tracker faults disk =
    let text = render (get_state tracker) in
    if faults.open_fails
    then (disk, failure temporary_not_opened)
    else if faults.write_fails
    then (record disk { temporary = some faults.written }, failure temporary_not_written)
    else if faults.rename_fails
    then (record disk { temporary = some text }, failure not_renamed)
    else (record { checkpoint = some text; temporary = none }, success)

unfoldable pub is_blank : ℕ → Bool
is_blank c = c == b' ' || (c == 10 || (c == 13 || c == 9))

unfoldable pub skip_blanks : Str → Str
unfolding is_blank
skip_blanks [] = []
skip_blanks (c ∷ rest) = if is_blank c then skip_blanks rest else c ∷ rest

abbrev pub is_digit : ℕ → Bool
is_digit c = leb b'0' c && leb c b'9'

-- content.substr(numStart, numEnd - numStart), and the text from numEnd on.
unfoldable pub take_digits : Str → Str
take_digits [] = []
take_digits (c ∷ rest) = if is_digit c then c ∷ take_digits rest else []

unfoldable pub drop_digits : Str → Str
drop_digits [] = []
drop_digits (c ∷ rest) = if is_digit c then drop_digits rest else c ∷ rest

pub data Parsed : Type 0 where
  parsed : Map Str ℕ → Parsed
  refused : CheckpointError → Parsed
  out_of_fuel : Parsed

-- closeBrace != npos && closeBrace < colonPos
unfoldable pub closes_before : Option ℕ → ℕ → Bool
closes_before none colon = false
closes_before (some brace) colon = ltb brace colon

-- while (pos < content.size())
unfoldable pub parse_loop : ℕ → Map Str ℕ → Str → Parsed
unfolding skip_blanks take_digits drop_digits closes_before
parse_loop zero state text = out_of_fuel
parse_loop (suc fuel) state text = elim (find_char 34 text) [
  | none ↦ parsed state
  | some quote_start ↦
      let from_key = drop (suc quote_start) text in
      elim (find_char 34 from_key) [
        | none ↦ refused unterminated_string
        | some key_length ↦
            let key = take key_length from_key in
            let from_quote = drop key_length from_key in
            elim (find_char b':' from_quote) [
              | none ↦ parsed state
              | some colon ↦
                  let number = skip_blanks (drop (suc colon) from_quote) in
                  let digits = take_digits number in
                  let seq = dec_value 0 digits in
                  let rest = parse_loop fuel (insert key seq state) (drop_digits number) in
                  if closes_before (find_char b'}' from_quote) colon
                  then parsed state
                  else if length digits == 0
                  then refused (non_numeric key)
                  else if leb u64_mod seq
                  then refused (invalid_number key)
                  else rest
            ]
      ]
]

abbrev pub shards_key : Str
shards_key = 34 ∷ b's' ∷ b'h' ∷ b'a' ∷ b'r' ∷ b'd' ∷ b's' ∷ 34 ∷ []

unfoldable pub parse : Str → Parsed
unfolding parse_loop
parse content = elim (find_str shards_key content) [
  | none ↦ refused no_shards_key
  | some shards ↦ elim (find_char b'{' (drop shards content)) [
    | none ↦ refused malformed_shards
    | some brace ↦ parse_loop (suc (length content)) [] (drop (suc brace) (drop shards content))
  ]
]

-- `none` is a call that does not end.
unfoldable pub load :
    SequenceNumberTracker → Bool → Disk → Option (SequenceNumberTracker × CheckpointResult)
unfolding parse restore_state
load tracker opens disk = elim disk.checkpoint [
  | none ↦ some (tracker, success)
  | some content ↦ if not opens then some (tracker, failure not_opened) else elim (parse content) [
    | parsed state ↦ some (restore_state tracker state, success)
    | refused e ↦ some (tracker, failure e)
    | out_of_fuel ↦ none
  ]
]
