-- ===== src/Ratelimit/Rate.antt =====
-- How many requests the token bucket of src/ratelimit.rs admits.
use mesh_supervisor.Prelude.{
  nat_beq, if◌then◌else◌, nat_beq_iff, Bool-cases, nat_eq, ℕ, suc, ◌+◌, ◌-◌, ◌*◌, ◌≤◌, ◌≡◌, refl,
  sym, subst, ◌∙◌, ◌≢◌, inl, inr, Bool, true, ◌&&◌, some, List, [], ◌∷◌, arith,
}
use mesh_supervisor.Map.{lookup}
use mesh_supervisor.Map.Laws.{lookup-eq_key, lookup-insert_self, lookup-insert_ne}
use mesh_supervisor.Proto.{EndpointId}
use mesh_supervisor.Config.{RateLimiterConfig}
use mesh_supervisor.Ratelimit.{
  Bucket, Buckets, one_token, refilled, take_token, full_bucket, or_insert_with, admit,
}

-- A request at `now` on a bucket that stays in the map.
abbrev pub serve : RateLimiterConfig → ℕ → Bucket → Bucket × Bool
serve cfg now b = take_token (refilled cfg now b)

-- A sequence of requests: the bucket after it, the number admitted.
unfoldable pub serve_all : RateLimiterConfig → List ℕ → Bucket → Bucket × ℕ
serve_all cfg [] b = (b, 0)
serve_all cfg (now ∷ later) b =
    let (b', allowed) = serve cfg now b in
    let (b'', n) = serve_all cfg later b' in (b'', if allowed then suc n else n)

-- The instants rise, from the bucket's last use on.
abbrev pub Rising : ℕ → List ℕ → Type 0
Rising from [] = Unit {0}
Rising from (now ∷ later) = (from ≤ now) × Rising now later

abbrev pub last : ℕ → List ℕ → ℕ
last from [] = from
last from (now ∷ later) = last now later

-- The time from the first instant to the last.
abbrev pub span : List ℕ → ℕ
span [] = 0
span (now ∷ later) = last now later - now

le-last : (from : ℕ) (times : List ℕ) → Rising from times → from ≤ last from times
le-last from [] h = omega arith
le-last from (now ∷ later) h = omega (arith, h.0, le-last now later h.1)

-- The refill of two adjacent intervals is that of the whole.
refill_splits : (a b c r : ℕ) → a ≤ b → b ≤ c → (b - a) * r + (c - b) * r ≡ (c - a) * r
refill_splits a b c r h k =
    let whole : c - a ≡ (b - a) + (c - b) = omega arith in rw whole (omega arith)

module _ (cfg : RateLimiterConfig) where
  serve-last_used : (now : ℕ) (b : Bucket) → (serve cfg now b).0.last_used ≡ now
  unfolding refilled take_token
  serve-last_used now b = ground arith

  serve-spends :
      (now : ℕ) (b : Bucket)
      → (serve cfg now b).0.tokens + (if (serve cfg now b).1 then one_token else 0)
        ≤ b.tokens + (now - b.last_used) * cfg.refill
  unfolding refilled take_token
  serve-spends now b = ground arith

  -- After a refill there is never more than the burst, to be kept or spent.
  serve-caps :
      (now : ℕ) (b : Bucket)
      → (serve cfg now b).0.tokens + (if (serve cfg now b).1 then one_token else 0) ≤ cfg.burst
  unfolding refilled take_token
  serve-caps now b = ground arith

  -- Over any rising instants, the tokens of the admitted requests and those left in the bucket are
  -- at most what the bucket held and what the elapsed time refills.
  pub serve_all-rate :
      (times : List ℕ) (b : Bucket)
      → Rising b.last_used times
      → (serve_all cfg times b).0.tokens + (serve_all cfg times b).1 * one_token
        ≤ b.tokens + (last b.last_used times - b.last_used) * cfg.refill
  unfolding serve_all
  serve_all-rate [] b h = omega arith
  serve_all-rate (now ∷ later) b h =
      let b' = (serve cfg now b).0 in
      let used = serve-last_used now b in
      let ih = serve_all-rate later b' (subst (λ t. Rising t later) (sym used) h.1) in
      ground (
        arith,
        used,
        ih,
        serve-spends now b,
        refill_splits b.last_used now (last now later) cfg.refill h.0 (le-last now later h.1),
      )

  serve_all-burst :
      (times : List ℕ) (b : Bucket)
      → Rising b.last_used times
      → (serve_all cfg times b).1 * one_token ≤ cfg.burst + span times * cfg.refill
  unfolding serve_all
  serve_all-burst [] b h = omega arith
  serve_all-burst (now ∷ later) b h =
      let b' = (serve cfg now b).0 in
      let used = serve-last_used now b in
      let rest = serve_all-rate later b' (subst (λ t. Rising t later) (sym used) h.1) in
      ground (arith, used, rest, serve-caps now b)

  -- A peer whose bucket holds a token, or would after the time it has waited, is admitted, if the
  -- burst is at least one token.
  pub serve-admits :
      (now : ℕ) (b : Bucket)
      → one_token ≤ cfg.burst
      → one_token ≤ b.tokens + (now - b.last_used) * cfg.refill
      → (serve cfg now b).1 ≡ true
  unfolding refilled take_token
  serve-admits now b room waited = ground arith

  -- A request of one peer neither reads nor changes the bucket of another.
  admit-other :
      (buckets : Buckets) (p q : EndpointId) (now : ℕ)
      → p ≢ q
      → lookup q (admit cfg buckets p now).0 ≡ lookup q buckets
  unfolding admit
  admit-other buckets p q now ne = lookup-insert_ne p q _ buckets ne

  admit-serve :
      (buckets : Buckets) (p : EndpointId) (now : ℕ)
      → let b = or_insert_with (lookup p buckets) (full_bucket cfg now) in
        (lookup p (admit cfg buckets p now).0 ≡ some (serve cfg now b).0)
        × ((admit cfg buckets p now).1 ≡ (serve cfg now b).1)
  unfolding admit
  admit-serve buckets p now = (lookup-insert_self p _ buckets, refl)

  admit_known :
      (buckets : Buckets) (p : EndpointId) (now : ℕ) (b : Bucket)
      → lookup p buckets ≡ some b
      → (lookup p (admit cfg buckets p now).0 ≡ some (serve cfg now b).0)
        × ((admit cfg buckets p now).1 ≡ (serve cfg now b).1)
  admit_known buckets p now b at =
      subst
        (λ o.
          (lookup p (admit cfg buckets p now).0
            ≡ some (serve cfg now (or_insert_with o (full_bucket cfg now))).0)
          × ((admit cfg buckets p now).1
              ≡ (serve cfg now (or_insert_with o (full_bucket cfg now))).1))
        at (admit-serve buckets p now)

  -- Requests of many peers, with no cleanup among them: how many of `peer`'s are admitted.
  unfoldable pub admitted : EndpointId → Buckets → List (EndpointId × ℕ) → ℕ
  admitted peer buckets [] = 0
  admitted peer buckets ((p, now) ∷ later) =
      let n = admitted peer (admit cfg buckets p now).0 later in
      if nat_beq p peer && (admit cfg buckets p now).1 then suc n else n

  abbrev pub times_of : EndpointId → List (EndpointId × ℕ) → List ℕ
  times_of peer [] = []
  times_of peer ((p, now) ∷ later) =
      let ts = times_of peer later in if nat_beq p peer then now ∷ ts else ts

  admitted-serve_all :
      (peer : EndpointId) (buckets : Buckets) (b : Bucket) (reqs : List (EndpointId × ℕ))
      → lookup peer buckets ≡ some b
      → admitted peer buckets reqs ≡ (serve_all cfg (times_of peer reqs) b).1
  unfolding admitted serve_all
  admitted-serve_all peer buckets b [] at = refl
  admitted-serve_all peer buckets b ((p, now) ∷ later) at = elim (Bool-cases (nat_beq p peer)) [
    | inl same ↦
        let (now_at, verdict) =
          admit_known buckets p now b
            (subst (λ k. lookup k buckets ≡ some b) (sym ((nat_beq_iff p peer).0 same)) at) in
        let ih =
          admitted-serve_all peer (admit cfg buckets p now).0 (serve cfg now b).0 later
            (lookup-eq_key p peer (some (serve cfg now b).0) _ now_at same) in
        rw (same, verdict, ih) (ground arith)
    | inr other ↦ rw other (
        admitted-serve_all peer (admit cfg buckets p now).0 b later
          (admit-other buckets p peer now (λ e. cc (other, (nat_beq_iff p peer).1 e)) ∙ at))
  ]

  -- Among the requests of any peers, at rising instants and with no cleanup between them, the
  -- admitted requests of one peer are worth at most the tokens in its bucket and what the time
  -- from the bucket's last use to the peer's last request refills: one peer cannot use another's
  -- tokens. They are worth at most the burst, too, and what the time from the peer's first of these
  -- requests to its last refills, however long its bucket was idle before. Tokens are exact here.
  pub admitted-rate :
      (peer : EndpointId) (buckets : Buckets) (b : Bucket) (reqs : List (EndpointId × ℕ))
      → lookup peer buckets ≡ some b
      → Rising b.last_used (times_of peer reqs)
      → (admitted peer buckets reqs * one_token
          ≤ b.tokens + (last b.last_used (times_of peer reqs) - b.last_used) * cfg.refill)
        × (admitted peer buckets reqs * one_token
            ≤ cfg.burst + span (times_of peer reqs) * cfg.refill)
  admitted-rate peer buckets b reqs at rising = rw (admitted-serve_all peer buckets b reqs at) (
    omega (arith, serve_all-rate (times_of peer reqs) b rising),
    serve_all-burst (times_of peer reqs) b rising,
  )
