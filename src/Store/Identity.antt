-- ===== src/Store/Identity.antt =====
-- The node's secret key in src/store.rs: made once, and the same after every later operation.
use mesh_supervisor.Prelude.{
  nat_eq, string_eq, option_ok, >>=-eq-ok, ok-injective, ok, ◌≡◌, refl, sym, ap, subst, ◌∙◌, Option,
  none, some, [], ◌∷◌, arith,
}
use mesh_supervisor.Store.Reload.{get_meta-eq}
use mesh_supervisor.Map.Laws.{lookup-insert_self, lookup-insert}
use mesh_supervisor.Map.{lookup}
use mesh_supervisor.Proto.{Handle, ProcState}
use mesh_supervisor.Proto.Frame.{Bytes}
use mesh_supervisor.Process.Record.{with_status, Record}
use mesh_supervisor.Store.Database.{decode, encode, Disk, IsDisk, apply_all, put_meta}
use mesh_supervisor.Store.{key_step, key_secret, secret_key, get_meta, put, set_status, update_row}
use mesh_supervisor.Store

-- The operations that the process manager calls, one after the other.
pub data Changes (d : Disk) (db : d.Db) : d.Db → Type 0 where
  here : Changes d db db
  puts :
      {a b : d.Db} (h : Handle) (rec : Record)
      → Changes d db a
      → put d a h rec ≡ ok b
      → Changes d db b
  removes : {a b : d.Db} (h : Handle) → Changes d db a → Store.remove d a h ≡ ok b → Changes d db b
  sets :
      {a b : d.Db} (h : Handle) (s : ProcState)
      → Changes d db a
      → set_status d a h s ≡ ok b
      → Changes d db b

abbrev pub key_row : (d : Disk) → d.Db → Option Bytes
key_row d db = lookup key_secret (d.contents db).meta

module _ (d : Disk) (laws : IsDisk d) where
  key_row-put :
      (db db' : d.Db) (h : Handle) (rec : Record)
      → put d db h rec ≡ ok db'
      → key_row d db' ≡ key_row d db
  unfolding put apply_all
  key_row-put db db' h rec e =
      let (bytes, p, q) = >>=-eq-ok (option_ok encode (d.codec.to_allocvec rec)) _ e in
      simp ((laws.commits db db' _ q).meta key_secret, lookup-insert)

  key_row-remove :
      (db db' : d.Db) (h : Handle) → Store.remove d db h ≡ ok db' → key_row d db' ≡ key_row d db
  unfolding Store.remove apply_all
  key_row-remove db db' h e = (laws.commits db db' _ e).meta key_secret

  key_row-update_row :
      (db db' : d.Db) (h : Handle) (s : ProcState) (o : Option Bytes)
      → update_row d db h s o ≡ ok db'
      → key_row d db' ≡ key_row d db
  unfolding update_row apply_all
  key_row-update_row db db' h s none e = ap (key_row d) (sym (ok-injective e))
  key_row-update_row db db' h s (some old) e =
      let (rec, p, q) = >>=-eq-ok (option_ok decode (d.codec.from_bytes old)) _ e in
      let (bytes, p', q') =
        >>=-eq-ok (option_ok encode (d.codec.to_allocvec (with_status s rec))) _ q in
      (laws.commits db db' _ q').meta key_secret

  key_row-set_status :
      (db db' : d.Db) (h : Handle) (s : ProcState)
      → set_status d db h s ≡ ok db'
      → key_row d db' ≡ key_row d db
  unfolding set_status
  key_row-set_status db db' h s e =
      let (t, p, q) = >>=-eq-ok (d.open_tables db) _ e in
      key_row-update_row db db' h s (lookup h t.records) q

  key_row-Changes : {db db' : d.Db} → Changes d db db' → key_row d db' ≡ key_row d db
  key_row-Changes here = refl
  key_row-Changes (puts {a = a} {b = b} h rec r e) = key_row-put a b h rec e ∙ key_row-Changes r
  key_row-Changes (removes {a = a} {b = b} h r e) = key_row-remove a b h e ∙ key_row-Changes r
  key_row-Changes (sets {a = a} {b = b} h s r e) = key_row-set_status a b h s e ∙ key_row-Changes r

  -- A stored key of the right length is returned, and nothing is written.
  secret_key_stored :
      (db : d.Db) (k g : Bytes) (r : Bytes × d.Db)
      → key_row d db ≡ some k
      → secret_key d db g ≡ ok r
      → (r.0 ≡ k) × (r.1 ≡ db)
  unfolding secret_key
  secret_key_stored db k g r there e =
      let (found, p, q) = >>=-eq-ok (get_meta d db key_secret) _ e in
      stored found (get_meta-eq d laws db key_secret found p ∙ there) q
    where
      stored :
          (found : Option Bytes)
          → found ≡ some k
          → key_step d db g found ≡ ok r
          → (r.0 ≡ k) × (r.1 ≡ db)
      stored none f q = cc
      stored (some b) f q = ground arith

  secret_key_row :
      (db : d.Db) (g : Bytes) (r : Bytes × d.Db)
      → secret_key d db g ≡ ok r
      → key_row d r.1 ≡ some r.0
  unfolding secret_key apply_all
  secret_key_row db g r e =
      let (found, p, q) = >>=-eq-ok (get_meta d db key_secret) _ e in
      row found (sym (get_meta-eq d laws db key_secret found p)) q
    where
      row :
          (found : Option Bytes)
          → key_row d db ≡ found
          → key_step d db g found ≡ ok r
          → key_row d r.1 ≡ some r.0
      row none f q =
          let (db', p', q') = >>=-eq-ok (d.commit db (put_meta key_secret g ∷ [])) _ q in
          let now =
            (laws.commits db db' _ p').meta key_secret ∙ lookup-insert_self key_secret g _ in
          subst (λ (x : Bytes × d.Db). key_row d x.1 ≡ some x.0) (ok-injective q') now
      row (some b) f q = ground arith

  -- The key that a successful first call returns, generated or stored, is what every later
  -- successful call returns, whatever records were put, removed or updated in between and whatever
  -- key would be generated then; and the later call writes nothing.
  pub secret_key-stable :
      (db db' db'' : d.Db) (key generated generated' : Bytes) (r : Bytes × d.Db)
      → secret_key d db generated ≡ ok (key, db')
      → Changes d db' db''
      → secret_key d db'' generated' ≡ ok r
      → (r.0 ≡ key) × (r.1 ≡ db'')
  secret_key-stable db db' db'' key g g' r first between again =
      secret_key_stored db'' key g' r
        (key_row-Changes between ∙ secret_key_row db g (key, db') first) again
