-- ===== src/Replication/Batching/Keeping.antt =====
-- MessageBatcher.cpp loses no entry and keeps their order.
use open_arango_dbcore.Prelude.{
  ℕ, zero, suc, ◌<◌, ◌≡◌, ◌⊎◌, refl, sym, ap, ◌∙◌, subst, Option, none, some, inl, inr, List, [],
  ◌∷◌, ◌++◌, append_assoc, append_nil, leb, length, length-append, Bool-cases, arith,
}
use open_arango_dbcore.Replication.Tailing.{WalEntry}
use open_arango_dbcore.Replication.Batching.{
  Surroundings, MessageBatch, MessageBatcher, seal, add, flush,
}

list_cases :
    (p : List WalEntry) → (p ≡ []) ⊎ ((e : WalEntry) × (rest : List WalEntry) × (p ≡ e ∷ rest))
list_cases [] = inl refl
list_cases (e ∷ rest) = inr (e, rest, refl)

-- What a step gives to the transport, as a list.
abbrev pub batches : Option MessageBatch → List MessageBatch
batches none = []
batches (some batch) = batch ∷ []

unfoldable pub entries_of : List MessageBatch → List WalEntry
entries_of [] = []
entries_of (batch ∷ rest) = batch.entries ++ entries_of rest

pub entries_of-append :
    (a b : List MessageBatch) → entries_of (a ++ b) ≡ entries_of a ++ entries_of b
unfolding entries_of
entries_of-append [] b = refl
entries_of-append (batch ∷ a) b =
    ap (λ t. batch.entries ++ t) (entries_of-append a b)
    ∙ sym (append_assoc batch.entries (entries_of a) (entries_of b))

unfoldable pub AllSized : ℕ → List MessageBatch → Type 0
AllSized n [] = Unit {0}
AllSized n (batch ∷ rest) = (length batch.entries ≡ n) × AllSized n rest

AllSized-append :
    (n : ℕ) (a b : List MessageBatch) → AllSized n a → AllSized n b → AllSized n (a ++ b)
unfolding AllSized
AllSized-append n [] b ha hb = hb
AllSized-append n (batch ∷ a) b ha hb = (ha.0, AllSized-append n a b ha.1 hb)

-- The next `count` numbers of the sequence, if nothing else takes any.
module _ {W : Type 0} (around : Surroundings W) where
  unfoldable pub numbers : ℕ → W → List ℕ
  numbers zero w = []
  numbers (suc count) w =
      let (after, number) = around.sequence_provider (around.now w).0 in
      number ∷ numbers count after

  -- Entries added one after the other, with the batches that come out.
  unfoldable pub add_all :
      List WalEntry → W → MessageBatcher → W × MessageBatcher × List MessageBatch
  add_all [] w b = (w, b, [])
  add_all (e ∷ rest) w b =
      let (after, grown, sealed) = add around w b e in
      let (last, finally, more) = add_all rest after grown in
      (last, finally, batches sealed ++ more)

unfoldable pub numbers_of : List MessageBatch → List ℕ
numbers_of [] = []
numbers_of (batch ∷ rest) = batch.sequence_number ∷ numbers_of rest

module _ {W : Type 0} (around : Surroundings W) where
  pub add-keeps :
      (w : W) (b : MessageBatcher) (e : WalEntry)
      → (entries_of (batches (add around w b e).2) ++ (add around w b e).1.pending
          ≡ b.pending ++ e ∷ [])
        × ((add around w b e).1.batch_size ≡ b.batch_size)
  unfolding add seal entries_of
  add-keeps w b e = elim (Bool-cases (leb b.batch_size (length (b.pending ++ e ∷ [])))) [
    | inl full ↦
        rw (full, add)
          (append_nil ((b.pending ++ e ∷ []) ++ []) ∙ append_nil (b.pending ++ e ∷ []), refl)
    | inr room ↦ rw (room, add) (refl, refl)
  ]

  pub add-sized :
      (w : W) (b : MessageBatcher) (e : WalEntry)
      → length b.pending < b.batch_size
      → AllSized b.batch_size (batches (add around w b e).2)
        × (length (add around w b e).1.pending < b.batch_size)
  unfolding add seal AllSized
  add-sized w b e h = elim (Bool-cases (leb b.batch_size (length (b.pending ++ e ∷ [])))) [
    | inl full ↦
        rw (full, add)
          ((ground (arith, full, h, length-append b.pending (e ∷ [])), tt), omega (arith, h))
    | inr room ↦ rw (room, add) (tt, ground (arith, room))
  ]

  -- A flush sends all that is pending, if anything is.
  pub flush-keeps :
      (w : W) (b : MessageBatcher)
      → (entries_of (batches (flush around w b).2) ++ (flush around w b).1.pending ≡ b.pending)
        × ((flush around w b).1.pending ≡ [])
        × ((flush around w b).1.batch_size ≡ b.batch_size)
  unfolding flush seal entries_of
  flush-keeps w b = elim (list_cases b.pending) [
    | inl empty ↦ rw (empty, flush) (empty, empty, refl)
    | inr (e, rest, full) ↦
        rw (full, flush) (append_nil (b.pending ++ []) ∙ append_nil b.pending ∙ full, refl, refl)
  ]

  -- The batches that come out of any run of additions and what stays pending are together what was
  -- pending and the added entries, in order.
  pub add_all-keeps :
      (added : List WalEntry) (w : W) (b : MessageBatcher)
      → entries_of (add_all around added w b).2 ++ (add_all around added w b).1.pending
        ≡ b.pending ++ added
  unfolding add_all entries_of
  add_all-keeps [] w b = sym (append_nil b.pending)
  add_all-keeps (e ∷ rest) w b =
      let (after, grown, sealed) = add around w b e in
      let (last, finally, more) = add_all around rest after grown in
      ap (λ t. t ++ finally.pending) (entries_of-append (batches sealed) more)
      ∙ append_assoc (entries_of (batches sealed)) (entries_of more) finally.pending
      ∙ ap (λ t. entries_of (batches sealed) ++ t) (add_all-keeps rest after grown)
      ∙ sym (append_assoc (entries_of (batches sealed)) grown.pending rest)
      ∙ ap (λ t. t ++ rest) (add-keeps w b e).0
      ∙ append_assoc b.pending (e ∷ []) rest

  -- If fewer entries than the batch size are pending, every batch that additions send out has that
  -- size exactly, and fewer than that are pending again.
  pub add_all-sized :
      (added : List WalEntry) (w : W) (b : MessageBatcher)
      → length b.pending < b.batch_size
      → AllSized b.batch_size (add_all around added w b).2
        × (length (add_all around added w b).1.pending < b.batch_size)
        × ((add_all around added w b).1.batch_size ≡ b.batch_size)
  unfolding add_all AllSized
  add_all-sized [] w b h = (tt, h, refl)
  add_all-sized (e ∷ rest) w b h =
      let (after, grown, sealed) = add around w b e in
      let same : grown.batch_size ≡ b.batch_size = (add-keeps w b e).1 in
      let sized = add-sized w b e h in
      let later = add_all-sized rest after grown (rw same sized.1) in
      (
        AllSized-append b.batch_size (batches sealed) (add_all around rest after grown).2 sized.0
            (subst (λ n. AllSized n (add_all around rest after grown).2) same later.0),
        subst (λ n. length (add_all around rest after grown).1.pending < n) same later.1,
        later.2 ∙ same,
      )

  -- The batches that a run of additions sends out carry the next numbers of the sequence, one each
  -- and in order: the numbers that as many calls of the provider give, each after a clock reading.
  pub add_all-numbers :
      (added : List WalEntry) (w : W) (b : MessageBatcher)
      → numbers_of (add_all around added w b).2
        ≡ numbers around (length (add_all around added w b).2) w
  unfolding add_all numbers_of numbers add seal
  add_all-numbers [] w b = refl
  add_all-numbers (e ∷ rest) w b =
      let grown : MessageBatcher = record b { pending = b.pending ++ e ∷ [] } in
      elim (Bool-cases (leb b.batch_size (length (b.pending ++ e ∷ [])))) [
        | inl full ↦
            let after : W = (around.sequence_provider (around.now w).0).0 in
            rw (full, add)
              (ap (λ t. (around.sequence_provider (around.now w).0).1 ∷ t)
                (add_all-numbers rest after (record b { pending = [] })))
        | inr room ↦ rw (room, add) (add_all-numbers rest w grown)
      ]
