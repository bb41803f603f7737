-- ===== src/Cluster/FollowerReads/RoundRobin.antt =====
-- The round robin of ReadFromFollower.cpp: `chooseReplica` called again and again, and the loop of
-- `getResponsibleServersReadFromFollower`.
use open_arango_dbcore.Prelude.{
  ℕ, zero, suc, ◌+◌, ◌-◌, ◌%◌, ◌<◌, ◌≤◌, ◌≡◌, refl, sym, ap, ◌∙◌, true, false, List, [], ◌∷◌, ◌++◌,
  Str, str_key, length, take, drop, get_or, drop-get_or, take_all, length-drop, u64_mod, ◌==◌,
  if◌then◌else◌, arith,
}
use native.Mathlib.Nat.{suc-mod, mod-eq_of_lt, mod_self, mod-add-mod, mod-lt}
use open_arango_dbcore.Cluster.FollowerReads.{ReplicaSelection, choose_replica}

-- All replicas of a shard, the leader first.
abbrev pub replicas : Str → List Str → List Str
replicas leader followers = leader ∷ followers

-- The servers that consecutive calls choose.
unfoldable pub picks : ℕ → ℕ → Str → List Str → List Str
picks zero counter leader followers = []
picks (suc k) counter leader followers =
    let (next, selection) = choose_replica counter leader followers in
    selection.server_id ∷ picks k next leader followers

by_index :
    (i : ℕ) (leader : Str) (followers : List Str)
    → ReplicaSelection.server_id (
        if i == 0
        then record { server_id = leader; is_follower = false }
        else record { server_id = get_or followers (i - 1) []; is_follower = true })
      ≡ get_or (leader ∷ followers) i []
by_index zero leader followers = refl
by_index (suc i) leader followers =
    let back : suc i - 1 ≡ i = omega arith in
    let later : (suc i == 0) ≡ false = ground arith in rw (later, back) refl

-- The selection is the replica at the counter's place, and is a follower exactly if it is not the
-- first of them.
chosen :
    (counter : ℕ) (leader f : Str) (rest : List Str)
    → ((choose_replica counter leader (f ∷ rest)).1.server_id
        ≡ get_or (leader ∷ f ∷ rest) (counter % (1 + length (f ∷ rest))) [])
      × ((choose_replica counter leader (f ∷ rest)).0 ≡ (counter + 1) % u64_mod)
unfolding choose_replica
chosen counter leader f rest =
    (by_index (counter % (1 + length (f ∷ rest))) leader (f ∷ rest), refl)

next_counter : (counter n i : ℕ) → counter % n ≡ i → suc i < n → suc counter % n ≡ suc i
next_counter counter n i at small = suc-mod counter n ∙ ap (λ j. suc j % n) at ∙ mod-eq_of_lt small

picks-suc :
    (k counter : ℕ) (leader f : Str) (rest : List Str)
    → counter + 1 < u64_mod
    → picks (suc k) counter leader (f ∷ rest)
      ≡ get_or (leader ∷ f ∷ rest) (counter % (1 + length (f ∷ rest))) []
        ∷ picks k (suc counter) leader (f ∷ rest)
unfolding picks
picks-suc k counter leader f rest small =
    let (server, next) = chosen counter leader f rest in
    let stepped : (choose_replica counter leader (f ∷ rest)).0 ≡ suc counter =
      next ∙ omega (arith, small) in
    rw (server, stepped) refl

picks-append :
    (a b counter : ℕ) (leader f : Str) (rest : List Str)
    → counter + a < u64_mod
    → picks (a + b) counter leader (f ∷ rest)
      ≡ picks a counter leader (f ∷ rest) ++ picks b (counter + a) leader (f ∷ rest)
unfolding picks
picks-append zero b counter leader f rest small =
    let none_yet : counter + 0 ≡ counter = omega arith in
    let same : 0 + b ≡ b = omega arith in rw (none_yet, same, picks) refl
picks-append (suc a) b counter leader f rest small =
    let later : suc counter + a ≡ counter + suc a = omega arith in
    let split : suc a + b ≡ suc (a + b) = omega arith in
    ap (λ n. picks n counter leader (f ∷ rest)) split
    ∙ picks-suc (a + b) counter leader f rest (omega (arith, small))
    ∙ ap (λ t. get_or (leader ∷ f ∷ rest) (counter % (1 + length (f ∷ rest))) [] ∷ t)
        (picks-append a b (suc counter) leader f rest (omega (arith, small)))
    ∙ ap
        (λ c.
          get_or (leader ∷ f ∷ rest) (counter % (1 + length (f ∷ rest))) []
          ∷ (picks a (suc counter) leader (f ∷ rest) ++ picks b c leader (f ∷ rest)))
        later
    ∙ ap (λ t. t ++ picks b (counter + suc a) leader (f ∷ rest))
        (sym (picks-suc a counter leader f rest (omega (arith, small))))

-- As long as the counter does not pass the end of the replicas, the calls choose them in order.
picks-take :
    (k counter i : ℕ) (leader f : Str) (rest : List Str)
    → counter % (1 + length (f ∷ rest)) ≡ i
    → i + k ≤ 1 + length (f ∷ rest)
    → counter + k < u64_mod
    → picks k counter leader (f ∷ rest) ≡ take k (drop i (leader ∷ f ∷ rest))
unfolding picks
picks-take zero counter i leader f rest at fits small = refl
picks-take (suc zero) counter i leader f rest at fits small =
    picks-suc zero counter leader f rest small
    ∙ rw (at, drop-get_or i (leader ∷ f ∷ rest) [] (omega (arith, fits))) refl
picks-take (suc (suc k)) counter i leader f rest at fits small =
    picks-suc (suc k) counter leader f rest (omega (arith, small))
    ∙ ap (λ t. get_or (leader ∷ f ∷ rest) (counter % (1 + length (f ∷ rest))) [] ∷ t)
        (picks-take (suc k) (suc counter) (suc i) leader f rest
          (next_counter counter (1 + length (f ∷ rest)) i at (omega (arith, fits)))
          (omega (arith, fits)) (omega (arith, small)))
    ∙ rw (at, drop-get_or i (leader ∷ f ∷ rest) [] (omega (arith, fits))) refl

rotates_many :
    (n counter : ℕ) (leader f : Str) (rest : List Str)
    → n ≡ length (leader ∷ f ∷ rest)
    → counter + n < u64_mod
    → picks n counter leader (f ∷ rest)
      ≡ drop (counter % n) (leader ∷ f ∷ rest) ++ take (counter % n) (leader ∷ f ∷ rest)
rotates_many n counter leader f rest whole small =
    let size : 1 + length (f ∷ rest) ≡ n = omega (arith, whole) in
    let i : ℕ = counter % n in
    let below : i < n = mod-lt counter (omega (arith, whole)) in
    let at : counter % (1 + length (f ∷ rest)) ≡ i = ap (λ m. counter % m) size in
    let left : ℕ = n - i in
    let restart : (counter + left) % (1 + length (f ∷ rest)) ≡ 0 =
      ap (λ m. (counter + left) % m) size
      ∙ sym (mod-add-mod counter n left)
      ∙ ap (λ m. m % n) (omega (arith, below))
      ∙ mod_self n in
    ap (λ m. picks m counter leader (f ∷ rest)) (omega (arith, below))
    ∙ picks-append left i counter leader f rest (omega (arith, small, below))
    ∙ ap (λ t. t ++ picks i (counter + left) leader (f ∷ rest))
        (picks-take left counter i leader f rest at (omega (arith, below, size))
            (omega (arith, small, below))
          ∙ take_all left (drop i (leader ∷ f ∷ rest))
              (omega (arith, length-drop i (leader ∷ f ∷ rest), whole)))
    ∙ ap (λ t. drop i (leader ∷ f ∷ rest) ++ t)
        (picks-take i (counter + left) 0 leader f rest restart (omega (arith, below, size))
          (omega (arith, small, below)))

-- As many consecutive calls as there are replicas choose each replica once: the list of replicas
-- from the counter's place on, then those before it. The counter must not pass the end of its word
-- meanwhile.
pub choose_replica_rotates :
    (counter : ℕ) (leader : Str) (followers : List Str)
    → counter + length (leader ∷ followers) < u64_mod
    → picks (length (leader ∷ followers)) counter leader followers
      ≡ drop (counter % length (leader ∷ followers)) (leader ∷ followers)
        ++ take (counter % length (leader ∷ followers)) (leader ∷ followers)
unfolding picks choose_replica
choose_replica_rotates counter leader [] small =
    let alone : counter % 1 ≡ 0 = omega arith in rw alone refl
choose_replica_rotates counter leader (f ∷ rest) small =
    rotates_many (length (leader ∷ f ∷ rest)) counter leader f rest refl small
