-- ===== src/Store/Reload.antt =====
-- What `load` of src/store.rs brings back, and why a reloaded counter is safe.
use mesh_supervisor.Prelude.{
  nat_beq, if◌then◌else◌, Bool-cases, nat_eq, string_eq, option_ok, >>=-eq-ok, option_ok-eq-ok,
  ok-injective, ok, ℕ, ◌≤◌, max, String, ◌≡◌, sym, ap, subst, ◌∙◌, inl, inr, Option, some, List, [],
  ◌∷◌, arith,
}
use mesh_supervisor.Map.{lookup}
use mesh_supervisor.Proto.{Handle}
use mesh_supervisor.Proto.Frame.{Bytes}
use mesh_supervisor.Process.Record.{Record}
use mesh_supervisor.Store.Sort.{sort_by_key, Ascending, sort_by_key-Ascending, lookup-sort_by_key}
use mesh_supervisor.Store.Counter.{from_le_bytes}
use mesh_supervisor.Store.Database.{Tables, Disk, IsDisk, decode}
use mesh_supervisor.Store.Laws.{decoded, record_at, put_lem}
use mesh_supervisor.Store.{
  get_meta, Loaded, max_key, decode_records, load, put, key_next, counter_of,
}

lookup-decode_records :
    (f : Bytes → Option Record) (rows : List (Handle × Bytes)) (recs : List (Handle × Record))
    → decode_records f rows ≡ ok recs
    → (k : Handle) → lookup k recs ≡ decoded f (lookup k rows)
unfolding decode_records lookup
lookup-decode_records f [] recs e k = ground arith
lookup-decode_records f ((h, b) ∷ rows) recs e k =
    let (rec, p, e') = >>=-eq-ok (option_ok decode (f b)) _ e in
    let (rest, q, e'') = >>=-eq-ok (decode_records f rows) _ e' in
    head_and_tail rec rest (option_ok-eq-ok decode (f b) p) (ground (arith, e''))
      (lookup-decode_records f rows rest q k)
  where
    head_and_tail :
        (rec : Record) (rest : List (Handle × Record))
        → f b ≡ some rec
        → recs ≡ (h, rec) ∷ rest
        → lookup k rest ≡ decoded f (lookup k rows)
        → lookup k recs ≡ decoded f (lookup k ((h, b) ∷ rows))
    head_and_tail rec rest p shape ih = ground arith

le-max_key :
    (k : Handle) (rec : Record) (recs : List (Handle × Record))
    → lookup k recs ≡ some rec
    → k ≤ max_key recs
unfolding lookup max_key
le-max_key k rec [] e = cc
le-max_key k rec ((h, r) ∷ recs) e = ground (arith, le-max_key k rec recs)

-- What a load promises, of the records and of the counter.
pub record IsLoadOf (d : Disk) (db : d.Db) (l : Loaded) : Type 0 where
  pub finds : (h : Handle) → lookup h l.records ≡ record_at d db h
  pub ascending : Ascending 0 l.records
  pub above : (h : Handle) (rec : Record) → record_at d db h ≡ some rec → h ≤ l.next_handle
  pub above_counter :
      (b : Bytes) → lookup key_next (d.contents db).meta ≡ some b → from_le_bytes b ≤ l.next_handle

counter_of-some : (b : Bytes) (n : ℕ) → counter_of (some b) ≡ ok n → n ≡ from_le_bytes b
unfolding counter_of
counter_of-some b n e = ground arith

module _ (d : Disk) (laws : IsDisk d) where
  pub get_meta-eq :
      (db : d.Db) (k : String) (o : Option Bytes)
      → get_meta d db k ≡ ok o
      → o ≡ lookup k (d.contents db).meta
  unfolding get_meta
  get_meta-eq db k o e =
      let (t, p, q) = >>=-eq-ok (d.open_tables db) _ e in
      let same = ap (λ (x : Tables). lookup k x.meta) (laws.reads db t p) in
      sym (ok-injective q) ∙ same

  parts-IsLoadOf :
      (db : d.Db) (rows : List (Handle × Record)) (found : Option Bytes) (stored : ℕ)
      → decode_records d.codec.from_bytes (d.contents db).records ≡ ok rows
      → found ≡ lookup key_next (d.contents db).meta
      → counter_of found ≡ ok stored
      → IsLoadOf d db (record {
        records = sort_by_key rows;
        next_handle = max stored (max_key (sort_by_key rows));
      })
  parts-IsLoadOf db rows found stored p q r = record {
    finds = finds;
    ascending = sort_by_key-Ascending rows;
    above = λ h rec at. omega (arith, le-max_key h rec (sort_by_key rows) (finds h ∙ at));
    above_counter = λ b at.
        omega (arith, counter_of-some b stored (subst (λ x. counter_of x ≡ ok stored) (q ∙ at) r));
  }
    where
      finds : (h : Handle) → lookup h (sort_by_key rows) ≡ record_at d db h
      finds h =
          lookup-sort_by_key h rows
          ∙ lookup-decode_records d.codec.from_bytes (d.contents db).records rows p h

  -- A successful `load` finds the record of every handle and no other, in ascending order of the
  -- handles, and its counter is at least every handle on disk and at least the stored counter.
  pub load-IsLoadOf : (db : d.Db) (l : Loaded) → load d db ≡ ok l → IsLoadOf d db l
  unfolding load
  load-IsLoadOf db l e =
      let (t, p, q) = >>=-eq-ok (d.open_tables db) _ e in
      let (rows, p', q') = >>=-eq-ok (decode_records d.codec.from_bytes t.records) _ q in
      let (found, p2, q2) = >>=-eq-ok (get_meta d db key_next) _ q' in
      let (stored, p3, q3) = >>=-eq-ok (counter_of found) _ q2 in
      let there =
        subst (λ x. decode_records d.codec.from_bytes x.records ≡ ok rows) (laws.reads db t p) p' in
      subst (IsLoadOf d db) (ok-injective q3)
        (parts-IsLoadOf db rows found stored there (get_meta-eq db key_next found p2) p3)

  -- What `put` wrote is what a later `load` finds under the handle, the other records are as
  -- before, and the handle is not above the counter, also where a relaunch wrote a handle that is
  -- not the highest.
  pub load-put :
      (db db' : d.Db) (h : Handle) (rec : Record) (l : Loaded)
      → put d db h rec ≡ ok db'
      → load d db' ≡ ok l
      → ((j : Handle) → lookup j l.records ≡ (if nat_beq h j then some rec else record_at d db j))
        × (h ≤ l.next_handle)
        × ((j : Handle) (r : Record) → record_at d db j ≡ some r → j ≤ l.next_handle)
  load-put db db' h rec l e k =
      (at, v.above h rec (ground (arith, written h)), λ j r was. still j r was)
    where
      v : IsLoadOf d db' l
      v = load-IsLoadOf db' l k

      written :
          (j : Handle) → record_at d db' j ≡ (if nat_beq h j then some rec else record_at d db j)
      written = (put_lem d laws db db' h rec e).0

      at : (j : Handle) → lookup j l.records ≡ (if nat_beq h j then some rec else record_at d db j)
      at j = v.finds j ∙ written j

      still : (j : Handle) (r : Record) → record_at d db j ≡ some r → j ≤ l.next_handle
      still j r was = elim (Bool-cases (nat_beq h j)) [
        | inl same ↦ v.above j rec (ground (arith, written j))
        | inr other ↦ v.above j r (ground (arith, written j))
      ]
