-- ===== src/Cluster/FollowerReads/Routing.antt =====
-- Where `getResponsibleServersReadFromFollower` (ReadFromFollower.cpp) sends the reads of a shard.
use open_arango_dbcore.Prelude.{
  ℕ, zero, suc, ◌+◌, ◌-◌, ◌%◌, ◌<◌, ◌≡◌, refl, sym, ◌∙◌, subst, Bool, true, false, ◌||◌, List, [],
  ◌∷◌, Option, none, some, inl, inr, Str, str_key, str_eq, str_eq_iff, Map, find, insert,
  find-insert, length, get_or, Bool-cases, Option-cases, ltb, ◌==◌, count, arith,
}
use native.Mathlib.Nat.{mod-lt}
use open_arango_dbcore.Cluster.FollowerReads.{
  choose_replica, followers_of, responsible_loop, get_responsible_servers,
}

get_or-member : (i : ℕ) (s : List Str) → i < length s → 0 < count (get_or s i []) s
unfolding count
get_or-member i [] h = absurd (omega (arith, h))
get_or-member zero (x ∷ s) h = ground (arith, str_eq_iff x x)
get_or-member (suc i) (x ∷ s) h = ground (arith, get_or-member i s (omega (arith, h)))

count-grow : (x y : Str) (s : List Str) → 0 < count x s → 0 < count x (y ∷ s)
unfolding count
count-grow x y s h = ground (arith, h)

choose_replica-member :
    (counter : ℕ) (leader : Str) (followers : List Str)
    → 0 < count (choose_replica counter leader followers).1.server_id (leader ∷ followers)
unfolding choose_replica
choose_replica-member counter leader [] = get_or-member 0 (leader ∷ []) (omega arith)
choose_replica-member counter leader (f ∷ rest) =
    elim (Bool-cases (counter % (1 + length (f ∷ rest)) == 0)) [
      | inl first ↦ rw (first, choose_replica) (get_or-member 0 (leader ∷ f ∷ rest) (omega arith))
      | inr later ↦
          rw (later, choose_replica)
            (count-grow (get_or (f ∷ rest) (counter % (1 + length (f ∷ rest)) - 1) []) leader
              (f ∷ rest)
              (get_or-member (counter % (1 + length (f ∷ rest)) - 1) (f ∷ rest)
                (omega (arith, mod-lt counter {m = 1 + length (f ∷ rest)} (omega arith)))))
    ]

-- What the result holds for a shard, by whether the request names it: nothing, also if its leader
-- is not known, or else one of its replicas.
pub data Route (leaders : Map Str Str) (followers : Map Str (List Str)) (shard : Str)
    : Bool → Option Str → Type 0 where
  not_asked : Route leaders followers shard false none
  no_leader : (asked : Bool) → find shard leaders ≡ none → Route leaders followers shard asked none
  served :
      (leader server : Str)
      → find shard leaders ≡ some leader
      → 0 < count server (leader ∷ followers_of shard followers)
      → Route leaders followers shard true (some server)

skipped :
    (leaders : Map Str Str) (followers : Map Str (List Str)) (shard : Str) (asked : Bool)
    (o : Option Str)
    → find shard leaders ≡ none
    → Route leaders followers shard asked o
    → Route leaders followers shard true o
skipped leaders followers shard asked o missing not_asked = no_leader true missing
skipped leaders followers shard asked o missing (no_leader _ h) = no_leader true missing
skipped leaders followers shard asked o missing (served l s h m) =
    absurd (ground (arith, missing, h))

inserted :
    (leaders : Map Str Str) (followers : Map Str (List Str)) (shard j leader server : Str)
    (asked : Bool) (result : Map Str Str)
    → find j leaders ≡ some leader
    → 0 < count server (leader ∷ followers_of j followers)
    → Route leaders followers shard asked (find shard result)
    → Route leaders followers shard (asked || str_eq j shard) (find shard (insert j server result))
inserted leaders followers shard j leader server asked result known replica before =
    elim (Bool-cases (str_eq j shard)) [
      | inl here ↦
          let same : j ≡ shard = (str_eq_iff j shard).0 here in
          subst (λ o. Route leaders followers shard (asked || str_eq j shard) o)
            (sym (find-insert j shard server result ∙ rw here refl))
            (subst (λ b. Route leaders followers shard b (some server)) (ground (arith, here))
              (served leader server (rw (sym same) known) (rw (sym same) replica)))
      | inr other ↦
          subst (λ o. Route leaders followers shard (asked || str_eq j shard) o)
            (sym (find-insert j shard server result ∙ rw other refl))
            (subst (λ b. Route leaders followers shard b (find shard result))
              (ground (arith, other)) before)
    ]

passed :
    (leaders : Map Str Str) (followers : Map Str (List Str)) (shard j : Str) (asked : Bool)
    (o : Option Str)
    → find j leaders ≡ none
    → Route leaders followers shard asked o
    → Route leaders followers shard (asked || str_eq j shard) o
passed leaders followers shard j asked o missing before = elim (Bool-cases (str_eq j shard)) [
  | inl here ↦
      let same : j ≡ shard = (str_eq_iff j shard).0 here in
      subst (λ b. Route leaders followers shard b o) (ground (arith, here))
        (skipped leaders followers shard asked o (rw (sym same) missing) before)
  | inr other ↦ subst (λ b. Route leaders followers shard b o) (ground (arith, other)) before
]

responsible_loop-Route :
    (shards : List Str) (counter : ℕ) (result : Map Str Str) (leaders : Map Str Str)
    (followers : Map Str (List Str)) (shard : Str) (asked : Bool)
    → Route leaders followers shard asked (find shard result)
    → Route leaders followers shard
        (asked || ltb 0 (count shard shards))
        (find shard (responsible_loop shards counter result leaders followers).1)
unfolding responsible_loop count
responsible_loop-Route [] counter result leaders followers shard asked before =
    subst (λ b. Route leaders followers shard b (find shard result)) (ground arith) before
responsible_loop-Route (j ∷ shards) counter result leaders followers shard asked before =
    let flag : (asked || str_eq j shard) || ltb 0 (count shard shards)
        ≡ asked || ltb 0 (count shard (j ∷ shards)) =
      ground arith in
    elim (Option-cases (find j leaders)) [
      | inl missing ↦
          subst
            (λ b.
              Route leaders followers shard b
                (find shard (responsible_loop (j ∷ shards) counter result leaders followers).1))
            flag
            (rw (missing, responsible_loop)
              (responsible_loop-Route shards counter result leaders followers shard
                (asked || str_eq j shard)
                (passed leaders followers shard j asked (find shard result) missing before)))
      | inr (leader, known) ↦
          let (next, selection) = choose_replica counter leader (followers_of j followers) in
          subst
            (λ b.
              Route leaders followers shard b
                (find shard (responsible_loop (j ∷ shards) counter result leaders followers).1))
            flag
            (rw (known, responsible_loop)
              (responsible_loop-Route shards next (insert j selection.server_id result) leaders
                followers shard (asked || str_eq j shard)
                (inserted leaders followers shard j leader selection.server_id asked result known
                  (choose_replica-member counter leader (followers_of j followers)) before)))
    ]

-- Whatever the counter and whatever the result map held before, a shard that is not asked for has
-- no entry afterwards, nor has one without a known leader, and every other has one of its
-- replicas: its leader or a follower.
pub get_responsible_servers_routes :
    (shards : List Str) (counter : ℕ) (result leaders : Map Str Str)
    (followers : Map Str (List Str)) (shard : Str)
    → Route leaders followers shard
        (ltb 0 (count shard shards))
        (find shard (get_responsible_servers shards counter result leaders followers).1)
unfolding get_responsible_servers find
get_responsible_servers_routes shards counter result leaders followers shard =
    responsible_loop-Route shards counter [] leaders followers shard false not_asked
