-- ===== src/Ratelimit/Eviction.antt =====
-- Which buckets the cleanup of src/ratelimit.rs drops.
use mesh_supervisor.Prelude.{
  Option-cases, nat_eq, length, ◌+◌, ◌≤◌, ◌<◌, ◌≡◌, subst, ◌≢◌, inl, inr, none, some, [], ◌∷◌,
  arith,
}
use mesh_supervisor.Map.Laws.{lookup-remove}
use mesh_supervisor.Map.{lookup, remove}
use mesh_supervisor.Map.Size.{length-remove_old}
use mesh_supervisor.Proto.{EndpointId}
use mesh_supervisor.Ratelimit.{remove_entry, Bucket, Buckets, oldest, evict_lru}

-- The oldest entry is one of the map.
lookup-oldest :
    (buckets : Buckets) (p : EndpointId) (b : Bucket)
    → oldest buckets ≡ some (p, b)
    → lookup p buckets ≢ none
unfolding oldest lookup
lookup-oldest [] p b e gone = cc
lookup-oldest ((q, c) ∷ rest) p b e gone = elim (Option-cases (oldest rest)) [
  | inl alone ↦ ground (arith, alone)
  | inr ((r, f), older_one) ↦
      let below = lookup-oldest rest r f older_one in ground (arith, older_one, below)
]

oldest-cons : (x : EndpointId × Bucket) (rest : Buckets) → oldest (x ∷ rest) ≢ none
unfolding oldest
oldest-cons x rest e = cc

-- It was last used no later than any entry of the map.
oldest-le :
    (buckets : Buckets) (p q : EndpointId) (b c : Bucket)
    → oldest buckets ≡ some (p, b)
    → lookup q buckets ≡ some c
    → b.last_used ≤ c.last_used
unfolding oldest lookup
oldest-le [] p q b c e at = cc
oldest-le ((r, f) ∷ []) p q b c e at = ground arith
oldest-le ((r, f) ∷ x ∷ rest) p q b c e at = elim (Option-cases (oldest (x ∷ rest))) [
  | inl alone ↦ absurd (oldest-cons x rest alone)
  | inr ((s, g), older_one) ↦ ground (arith, older_one, oldest-le (x ∷ rest) s q g c older_one)
]

-- What a full table loses is an entry that was used the longest time ago: every entry that is left
-- was there before, with the same bucket, and was last used no earlier than the one that went.
pub evict_lru-oldest :
    (buckets : Buckets) (p q : EndpointId) (b c : Bucket)
    → oldest buckets ≡ some (p, b)
    → lookup q (evict_lru buckets) ≡ some c
    → (b.last_used ≤ c.last_used) × (lookup q buckets ≡ some c)
unfolding evict_lru
evict_lru-oldest buckets p q b c e at =
    let was = still_there (subst (λ o. lookup q (remove_entry o buckets) ≡ some c) e at) in
    (oldest-le buckets p q b c e was, was)
  where
    still_there : lookup q (remove p buckets) ≡ some c → lookup q buckets ≡ some c
    still_there h = ground (arith, lookup-remove p q buckets)

-- The eviction of a map that is not empty makes it smaller.
pub length-evict_lru :
    (buckets : Buckets) → 0 < length buckets → length (evict_lru buckets) + 1 ≤ length buckets
unfolding evict_lru
length-evict_lru [] h = absurd (omega arith)
length-evict_lru (x ∷ rest) h = elim (Option-cases (oldest (x ∷ rest))) [
  | inl e ↦ absurd (oldest-cons x rest e)
  | inr ((p, b), e) ↦ elim (Option-cases (lookup p (x ∷ rest))) [
    | inl gone ↦ absurd (lookup-oldest (x ∷ rest) p b e gone)
    | inr (c, at) ↦ rw e (length-remove_old p c (x ∷ rest) at)
  ]
]
