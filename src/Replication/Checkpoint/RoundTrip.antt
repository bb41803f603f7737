-- ===== src/Replication/Checkpoint/RoundTrip.antt =====
-- What save writes, load reads back.
use open_arango_dbcore.Prelude.{
  ℕ, zero, suc, ◌≤◌, ◌<◌, ◌≡◌, ◌≢◌, refl, sym, ap, subst, ◌∙◌, Bool, true, false, Option, none,
  some, [], ◌∷◌, ◌++◌, leb, ◌==◌, length, take, drop, length-append, Str, str_key, Map, find,
  insert, find_char, find_str, starts_with, Lacks, find-insert, str_eq, str_eq_iff,
  find_char-append, take-length, drop-length, drop-length-suc, to_string, dec_value,
  dec_value-to_string, pow10, AllDigits, to_string-AllDigits, to_string-length_pos, u64_mod, inl,
  inr, Bool-cases, Option-cases, arith,
}
use open_arango_dbcore.Replication.Checkpoint.{
  render_entry, render_entries, render, header, footer, skip_blanks, take_digits, drop_digits,
  is_digit, parsed, closes_before, parse_loop, parse, save, load, Disk, Faults, success, failure,
  CheckpointError,
}
use open_arango_dbcore.Replication.Sequence.{SequenceNumberTracker, get_state, restore_state}
use open_arango_dbcore.Replication.Checkpoint.Saving.{save_replaces}

-- What can stand behind a number: nothing, or a byte that is no digit.
abbrev NoDigit : Str → Type 0
NoDigit [] = Unit {0}
NoDigit (c ∷ rest) = is_digit c ≡ false

take_digits-append : (ds rest : Str) → AllDigits ds → NoDigit rest → take_digits (ds ++ rest) ≡ ds
unfolding take_digits
take_digits-append [] [] h n = refl
take_digits-append [] (c ∷ rest) h n = rw n (refl)
take_digits-append (d ∷ ds) rest h n = ground (arith, take_digits-append ds rest)

drop_digits-append : (ds rest : Str) → AllDigits ds → NoDigit rest → drop_digits (ds ++ rest) ≡ rest
unfolding drop_digits
drop_digits-append [] [] h n = refl
drop_digits-append [] (c ∷ rest) h n = rw n (refl)
drop_digits-append (d ∷ ds) rest h n = ground (arith, drop_digits-append ds rest)

below_pow10 : (n : ℕ) → n < u64_mod → n < pow10 20
unfolding pow10
below_pow10 n h = omega arith

some_digits : (n : ℕ) → 0 < n → (n == 0) ≡ false
some_digits n h = ground arith

small_enough : (n : ℕ) → n < u64_mod → leb u64_mod n ≡ false
small_enough n h = ground arith

-- One blank in front of a number.
skip_blank :
    (ds rest : Str) → AllDigits ds → 0 < length ds → skip_blanks (b' ' ∷ (ds ++ rest)) ≡ ds ++ rest
unfolding skip_blanks
skip_blank [] rest h some_digit = absurd (omega arith)
skip_blank (d ∷ ds) rest h some_digit = ground arith

-- The parts of the text that one round looks at.
abbrev behind_quote : Str → ℕ → Str
behind_quote text start = drop (suc start) text

abbrev number_part : Str → ℕ → ℕ → ℕ → Str
number_part text start key_length colon =
    skip_blanks (drop (suc colon) (drop key_length (behind_quote text start)))

-- One round, from what its searches find.
parse_loop_round :
    (fuel : ℕ) (state : Map Str ℕ) (text : Str) (start key_length colon : ℕ)
    → find_char 34 text ≡ some start
    → find_char 34 (behind_quote text start) ≡ some key_length
    → find_char b':' (drop key_length (behind_quote text start)) ≡ some colon
    → closes_before (find_char b'}' (drop key_length (behind_quote text start))) colon ≡ false
    → (length (take_digits (number_part text start key_length colon)) == 0) ≡ false
    → leb u64_mod (dec_value 0 (take_digits (number_part text start key_length colon))) ≡ false
    → parse_loop (suc fuel) state text
      ≡ parse_loop fuel
          (insert
            (take key_length (behind_quote text start))
            (dec_value 0 (take_digits (number_part text start key_length colon)))
            state)
          (drop_digits (number_part text start key_length colon))
unfolding parse_loop
parse_loop_round fuel state text start key_length colon a b c d e f =
    rw (a, b, c, d, e, f, parse_loop) (refl)

-- Behind a name: the quote, the colon, a blank and the number.
colon_next :
    (t : Str)
    → (find_char b':' (34 ∷ b':' ∷ t) ≡ some 1)
      × (closes_before (find_char b'}' (34 ∷ b':' ∷ t)) 1 ≡ false)
unfolding find_char closes_before
colon_next t = elim (Option-cases (find_char b'}' t)) [
  | inl absent ↦ (refl, rw absent (refl))
  | inr (i, at) ↦ (refl, rw at (ground arith))
]

-- One entry is read: its shard's name has no quote, and its number is a 64-bit one.
parse_loop-entry :
    (fuel : ℕ) (state : Map Str ℕ) (separator shard_id rest : Str) (seq : ℕ)
    → Lacks 34 separator
    → Lacks 34 shard_id
    → seq < u64_mod
    → NoDigit rest
    → parse_loop
        (suc fuel)
        state
        (separator ++ 34 ∷ (shard_id ++ 34 ∷ b':' ∷ b' ' ∷ (to_string seq ++ rest)))
      ≡ parse_loop fuel (insert shard_id seq state) rest
parse_loop-entry fuel state separator shard_id rest seq plain quote_free fits no_digit =
    let digits : Str = to_string seq in
    let from_quote : Str = 34 ∷ b':' ∷ b' ' ∷ (digits ++ rest) in
    let (at_colon, open_still) = colon_next (b' ' ∷ (digits ++ rest)) in
    let value : dec_value 0 digits ≡ seq = dec_value-to_string seq (below_pow10 seq fits) in
    let text : Str = separator ++ 34 ∷ (shard_id ++ from_quote) in
    let start : ℕ = length separator in
    let key_length : ℕ = length shard_id in
    let from_key : behind_quote text start ≡ shard_id ++ from_quote =
      drop-length-suc 34 separator (shard_id ++ from_quote) in
    let quote : drop key_length (behind_quote text start) ≡ from_quote =
      ap (drop key_length) from_key ∙ drop-length shard_id from_quote in
    let number : number_part text start key_length 1 ≡ digits ++ rest =
      ap (λ (t : Str). skip_blanks (drop 2 t)) quote
      ∙ skip_blank digits rest (to_string-AllDigits seq) (to_string-length_pos seq) in
    let taken : take_digits (number_part text start key_length 1) ≡ digits =
      ap take_digits number ∙ take_digits-append digits rest (to_string-AllDigits seq) no_digit in
    let left : drop_digits (number_part text start key_length 1) ≡ rest =
      ap drop_digits number ∙ drop_digits-append digits rest (to_string-AllDigits seq) no_digit in
    let key : take key_length (behind_quote text start) ≡ shard_id =
      ap (take key_length) from_key ∙ take-length shard_id from_quote in
    let read : dec_value 0 (take_digits (number_part text start key_length 1)) ≡ seq =
      ap (dec_value 0) taken ∙ value in
    parse_loop_round fuel state text start key_length 1
      (find_char-append 34 separator (shard_id ++ from_quote) plain)
      (ap (find_char 34) from_key
        ∙ find_char-append 34 shard_id (b':' ∷ b' ' ∷ (digits ++ rest)) quote_free)
      (ap (find_char b':') quote ∙ at_colon)
      (ap (λ (t : Str). closes_before (find_char b'}' t) 1) quote ∙ open_still)
      (ap (λ (t : Str). length t == 0) taken
        ∙ some_digits (length digits) (to_string-length_pos seq))
      (ap (λ (v : ℕ). leb u64_mod v) read ∙ small_enough seq fits)
    ∙ (λ i. parse_loop fuel (insert (key i) (read i) state) (left i))

-- state[key] = seq, for each entry.
unfoldable pub insert_all : Map Str ℕ → Map Str ℕ → Map Str ℕ
insert_all state [] = state
insert_all state ((shard_id, seq) ∷ rest) = insert_all (insert shard_id seq state) rest

-- Names without a quote, 64-bit numbers, and no name twice.
abbrev pub Storable : Map Str ℕ → Type 0
Storable [] = Unit {0}
Storable ((shard_id, seq) ∷ rest) =
    Lacks 34 shard_id × (seq < u64_mod) × (find shard_id rest ≡ none) × Storable rest

render_entries-NoDigit : (state : Map Str ℕ) → NoDigit (render_entries false state footer)
unfolding render_entries
render_entries-NoDigit [] = refl
render_entries-NoDigit ((shard_id, seq) ∷ rest) = refl

parse_loop-footer :
    (fuel : ℕ) (state : Map Str ℕ) → parse_loop (suc fuel) state footer ≡ parsed state
unfolding parse_loop find_char
parse_loop-footer fuel state = refl

parse_loop-render_entries :
    (fuel : ℕ) (first : Bool) (state entries : Map Str ℕ)
    → length entries < fuel
    → Storable entries
    → parse_loop fuel state (render_entries first entries footer)
      ≡ parsed (insert_all state entries)
unfolding render_entries insert_all
parse_loop-render_entries zero first state entries enough plain = absurd (omega arith)
parse_loop-render_entries (suc fuel) first state [] enough plain = parse_loop-footer fuel state
parse_loop-render_entries (suc fuel) true state ((shard_id, seq) ∷ rest) enough plain =
    parse_loop-entry fuel state (10 ∷ b' ' ∷ b' ' ∷ b' ' ∷ b' ' ∷ []) shard_id
      (render_entries false rest footer) seq (refl, (refl, (refl, (refl, (refl, tt))))) plain.0
      plain.1 (render_entries-NoDigit rest)
    ∙ parse_loop-render_entries fuel false (insert shard_id seq state) rest (omega arith) plain.3
parse_loop-render_entries (suc fuel) false state ((shard_id, seq) ∷ rest) enough plain =
    parse_loop-entry fuel state (b',' ∷ 10 ∷ b' ' ∷ b' ' ∷ b' ' ∷ b' ' ∷ []) shard_id
      (render_entries false rest footer) seq (refl, (refl, (refl, (refl, (refl, (refl, tt))))))
      plain.0 plain.1 (render_entries-NoDigit rest)
    ∙ parse_loop-render_entries fuel false (insert shard_id seq state) rest (omega arith) plain.3

length-render_entries :
    (first : Bool) (state : Map Str ℕ) → length state ≤ length (render_entries first state footer)
unfolding render_entries render_entry
length-render_entries first [] = omega arith
length-render_entries true ((shard_id, seq) ∷ rest) = omega (
  arith,
  length-append shard_id (34 ∷ b':' ∷ b' ' ∷ (to_string seq ++ render_entries false rest footer)),
  length-append (to_string seq) (render_entries false rest footer),
  length-render_entries false rest,
)
length-render_entries false ((shard_id, seq) ∷ rest) = omega (
  arith,
  length-append shard_id (34 ∷ b':' ∷ b' ' ∷ (to_string seq ++ render_entries false rest footer)),
  length-append (to_string seq) (render_entries false rest footer),
  length-render_entries false rest,
)

-- The parser finds the entries behind the header.
parse-header :
    (text : Str) → parse (header ++ text) ≡ parse_loop (suc (length (header ++ text))) [] text
unfolding parse find_str starts_with find_char
parse-header text = refl

-- What is found, or else what was there.
abbrev or_else : Option ℕ → Option ℕ → Option ℕ
or_else o d = elim o [ none ↦ d | some seq ↦ some seq ]

find-insert_all :
    (shard : Str) (state entries : Map Str ℕ)
    → Storable entries
    → find shard (insert_all state entries) ≡ or_else (find shard entries) (find shard state)
unfolding insert_all find
find-insert_all shard state [] plain = refl
find-insert_all shard state ((k, v) ∷ rest) plain =
    let later : find shard (insert_all (insert k v state) rest)
        ≡ or_else (find shard rest) (find shard (insert k v state)) =
      find-insert_all shard (insert k v state) rest plain.3 in
    elim (Bool-cases (str_eq k shard)) [
      | inl same ↦
          let absent : find shard rest ≡ none =
            subst (λ s. find s rest ≡ none) ((str_eq_iff k shard).0 same) plain.2 in
          rw same (later ∙ rw absent (find-insert k shard v state ∙ rw same (refl)))
      | inr other ↦
          rw other
            (later ∙ ap (or_else (find shard rest)) (find-insert k shard v state ∙ rw other (refl)))
    ]

or_else-none : (o : Option ℕ) → or_else o none ≡ o
or_else-none none = refl
or_else-none (some seq) = refl

success_ne_failure : (e : CheckpointError) → success ≢ failure e
success_ne_failure e h = cc

parse-render :
    (state : Map Str ℕ) → Storable state → parse (render state) ≡ parsed (insert_all [] state)
unfolding render
parse-render state plain =
    parse-header (render_entries true state footer)
    ∙ parse_loop-render_entries (suc (length (header ++ render_entries true state footer))) true []
        state
        (omega (
          arith,
          length-append header (render_entries true state footer),
          length-render_entries true state,
        ))
        plain

load-render :
    (other : SequenceNumberTracker) (state : Map Str ℕ) (temporary : Option Str)
    → Storable state
    → load other true (record { checkpoint = some (render state); temporary = temporary })
      ≡ some (record { last_applied = insert_all [] state }, success)
unfolding load restore_state
load-render other state temporary plain = rw (parse-render state plain, load) (refl)

-- A saved checkpoint is read back: if the tracker's shard names have no quote and its numbers are
-- 64-bit ones, then after a save that succeeds, on whatever disk, load succeeds for any tracker and
-- leaves it with the same last sequence of every shard, and none for a shard that had none.
pub load-save :
    (tracker other : SequenceNumberTracker) (faults : Faults) (disk : Disk)
    → Storable tracker.last_applied
    → (save tracker faults disk).1 ≡ success
    → (restored : SequenceNumberTracker) × (load other true (save tracker faults disk).0
        ≡ some (restored, success))
      × ((shard : Str) → find shard restored.last_applied ≡ find shard tracker.last_applied)
unfolding get_state find
load-save tracker other faults disk plain saved = elim (save_replaces tracker faults disk) [
  | inl (ok, replaced) ↦ (
    record { last_applied = insert_all [] tracker.last_applied },
    ap (load other true) replaced ∙ load-render other tracker.last_applied none plain,
    λ shard.
        find-insert_all shard [] tracker.last_applied plain
        ∙ or_else-none (find shard tracker.last_applied),
  )
  | inr (e, failed, _) ↦ absurd (success_ne_failure e (sym saved ∙ failed))
]
