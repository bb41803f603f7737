-- ===== src/Replication/Checkpoint/Parsing.antt =====
-- ReplicationCheckpoint::load always ends.
use open_arango_dbcore.Prelude.{
  ℕ, zero, suc, ◌≤◌, ◌<◌, ◌≡◌, ◌≢◌, refl, Bool, true, false, not, Option, none, some, [], ◌∷◌, leb,
  ◌==◌, if◌then◌else◌, length, take, drop, length-drop, Str, str_key, Map, insert, find_char,
  find_str, dec_value, u64_mod, inl, inr, Option-cases, arith,
}
use open_arango_dbcore.Replication.Sequence.{SequenceNumberTracker, restore_state}
use open_arango_dbcore.Replication.Checkpoint.{
  CheckpointError, non_numeric, invalid_number, Disk, CheckpointResult, success, failure,
  not_opened, skip_blanks, take_digits, drop_digits, Parsed, parsed, refused, out_of_fuel,
  closes_before, parse_loop, shards_key, parse, load,
}

skip_blanks-length : (s : Str) → length (skip_blanks s) ≤ length s
unfolding skip_blanks
skip_blanks-length [] = omega arith
skip_blanks-length (c ∷ rest) = ground (arith, skip_blanks-length rest)

drop_digits-length : (s : Str) → length (drop_digits s) ≤ length s
unfolding drop_digits
drop_digits-length [] = omega arith
drop_digits-length (c ∷ rest) = ground (arith, drop_digits-length rest)

found_nonempty : (c : ℕ) (s : Str) (i : ℕ) → find_char c s ≡ some i → 0 < length s
unfolding find_char
found_nonempty c [] i h = cc
found_nonempty c (x ∷ s) i h = omega arith

-- A chain of early returns ends if its last step does.
returns_end :
    (a b c : Bool) (state : Map Str ℕ) (e f : CheckpointError) (rest : Parsed)
    → rest ≢ out_of_fuel
    → (if a then parsed state else if b then refused e else if c then refused f else rest)
      ≢ out_of_fuel
returns_end true b c state e f rest ends = λ h. cc
returns_end false true c state e f rest ends = λ h. cc
returns_end false false true state e f rest ends = λ h. cc
returns_end false false false state e f rest ends = ends

-- Each round leaves a shorter text.
parse_loop_ends :
    (fuel : ℕ) (state : Map Str ℕ) (text : Str)
    → length text < fuel
    → parse_loop fuel state text ≢ out_of_fuel
unfolding parse_loop
parse_loop_ends zero state text enough = absurd (omega arith)
parse_loop_ends (suc fuel) state text enough = elim (Option-cases (find_char 34 text)) [
  | inl no_quote ↦ rw (no_quote, parse_loop) (λ h. cc)
  | inr (start, quoted) ↦
      let from_key : Str = drop (suc start) text in
      elim (Option-cases (find_char 34 from_key)) [
        | inl open_end ↦ rw (quoted, open_end, parse_loop) (λ h. cc)
        | inr (key_length, closed) ↦
            let from_quote : Str = drop key_length from_key in
            elim (Option-cases (find_char b':' from_quote)) [
              | inl no_colon ↦ rw (quoted, closed, no_colon, parse_loop) (λ h. cc)
              | inr (colon, at_colon) ↦
                  let number : Str = skip_blanks (drop (suc colon) from_quote) in
                  let key : Str = take key_length from_key in
                  rw (quoted, closed, at_colon, parse_loop)
                    (returns_end (closes_before (find_char b'}' from_quote) colon)
                      (length (take_digits number) == 0)
                      (leb u64_mod (dec_value 0 (take_digits number))) state (non_numeric key)
                      (invalid_number key)
                      (parse_loop fuel (insert key (dec_value 0 (take_digits number)) state)
                        (drop_digits number))
                      (parse_loop_ends fuel (insert key (dec_value 0 (take_digits number)) state)
                        (drop_digits number)
                        (omega (
                          arith,
                          drop_digits-length number,
                          skip_blanks-length (drop (suc colon) from_quote),
                          length-drop {A = ℕ} (suc colon) from_quote,
                          length-drop {A = ℕ} key_length from_key,
                          length-drop {A = ℕ} (suc start) text,
                          found_nonempty 34 text start quoted,
                        ))))
            ]
      ]
]

parse_ends : (content : Str) → parse content ≢ out_of_fuel
unfolding parse
parse_ends content = elim (Option-cases (find_str shards_key content)) [
  | inl no_key ↦ rw (no_key, parse) (λ h. cc)
  | inr (shards, found) ↦ elim (Option-cases (find_char b'{' (drop shards content))) [
    | inl no_brace ↦ rw (found, no_brace, parse) (λ h. cc)
    | inr (brace, at) ↦
        rw (found, at, parse)
          (parse_loop_ends (suc (length content)) [] (drop (suc brace) (drop shards content)) (
            omega (
              arith,
              length-drop {A = ℕ} (suc brace) (drop shards content),
              length-drop {A = ℕ} shards content,
            )))
  ]
]

-- What load makes of the parser's answer.
abbrev answer :
    SequenceNumberTracker → Bool → Parsed → Option (SequenceNumberTracker × CheckpointResult)
answer tracker opens p = if not opens then some (tracker, failure not_opened) else elim p [
  | parsed state ↦ some (restore_state tracker state, success)
  | refused e ↦ some (tracker, failure e)
  | out_of_fuel ↦ none
]

answer_ends :
    (tracker : SequenceNumberTracker) (opens : Bool) (p : Parsed)
    → p ≢ out_of_fuel
    → answer tracker opens p ≢ none
answer_ends tracker false p ends = λ h. cc
answer_ends tracker true (parsed state) ends = λ h. cc
answer_ends tracker true (refused e) ends = λ h. cc
answer_ends tracker true out_of_fuel ends = λ h. ends refl

-- Whatever stands in the checkpoint file, load ends: the rounds that the model allows for, one more
-- than the text has bytes, are never used up.
pub load_ends :
    (tracker : SequenceNumberTracker) (opens : Bool) (disk : Disk) → load tracker opens disk ≢ none
unfolding load
load_ends tracker opens disk = elim (Option-cases disk.checkpoint) [
  | inl fresh ↦ rw (fresh, load) (λ h. cc)
  | inr (content, there) ↦
      rw (there, load) (answer_ends tracker opens (parse content) (parse_ends content))
]
