-- ===== src/Telemetry/Signed.antt =====
-- What a signature on a tick of src/telemetry.rs is worth.
use mesh_supervisor.Prelude.{
  option_ok, >>=-eq-ok, option_ok-eq-ok, ok, ℕ, ◌≡◌, refl, subst, true, some, List, arith,
}
use mesh_supervisor.Proto.{ProcInfo}
use mesh_supervisor.Proto.Frame.{Bytes}
use mesh_supervisor.Telemetry.{Tick, Crypto, IsCrypto, codec, sign_tick, verified, open_tick}

module _ (c : Crypto) where
  verified-ok :
      (t u : Tick) (signed : Bytes × c.Signature)
      → verified c t signed ≡ ok u
      → (c.verify t.from signed.0 signed.1 ≡ true) × (t ≡ u)
  unfolding verified
  verified-ok t u (body, sig) h = ground arith

  -- A tick that is opened came with a signature over its very bytes that verifies under the id in
  -- its own `from`.
  pub open_tick-authentic :
      (content : Bytes) (t : Tick)
      → open_tick c content ≡ ok t
      → (signed : Bytes × c.Signature) × (c.signed.from_bytes content ≡ some signed)
        × (c.tick.from_bytes signed.0 ≡ some t)
        × (c.verify t.from signed.0 signed.1 ≡ true)
  unfolding open_tick
  open_tick-authentic content t h =
      let (signed, p, q) = >>=-eq-ok (option_ok codec (c.signed.from_bytes content)) _ h in
      let (u, p', q') = >>=-eq-ok (option_ok codec (c.tick.from_bytes signed.0)) _ q in
      let (valid, same) = verified-ok u t signed q' in
      (
        signed,
        option_ok-eq-ok codec _ p,
        subst (λ x. c.tick.from_bytes signed.0 ≡ some x) same (option_ok-eq-ok codec _ p'),
        subst (λ (x : Tick). c.verify x.from signed.0 signed.1 ≡ true) same valid,
      )

  -- A signed tick is opened as the tick that was signed, under the signer's id.
  pub open_tick-sign_tick :
      (secret : c.SecretKey) (now seq : ℕ) (stats : List ProcInfo) (content : Bytes)
      → IsCrypto c
      → sign_tick c secret now seq stats ≡ ok content
      → open_tick c content
        ≡ ok (record { from = c.public secret; ts = now; seq = seq; stats = stats })
  unfolding sign_tick open_tick
  open_tick-sign_tick secret now seq stats content laws h =
      let tick : Tick = record { from = c.public secret; ts = now; seq = seq; stats = stats } in
      let (body, p, q) = >>=-eq-ok (option_ok codec (c.tick.to_allocvec tick)) _ h in
      let outer =
        laws.signed.decodes (body, c.sign secret body) content (option_ok-eq-ok codec _ q) in
      let inner = laws.tick.decodes tick body (option_ok-eq-ok codec _ p) in
      rw (outer, inner, laws.verifies secret body) refl
