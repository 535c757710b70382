-- ===== src/Store/Laws.antt =====
-- What the operations of src/store.rs do to the records on disk, each read through postcard.
use mathlib.Core.Option
use mesh_supervisor.Prelude.{
  nat_beq, if◌then◌else◌, nat_eq, string_eq, option_ok, >>=-eq-ok, option_ok-eq-ok, ok, ◌≡◌, sym,
  ap, Option, none, some, arith,
}
use mesh_supervisor.Proto.Frame.{Bytes}
use mesh_supervisor.Map.Laws.{lookup-insert, lookup-remove}
use mesh_supervisor.Map.{lookup}
use mesh_supervisor.Proto.{Handle, ProcState}
use mesh_supervisor.Process.Record.{Record, with_status}
use mesh_supervisor.Store.Counter.{to_le_bytes}
use mesh_supervisor.Store.Database.{Disk, IsDisk, decode, encode, Tables, apply_all}
use mesh_supervisor.Store.{rewrite_status, update_row, key_next, put, set_status}
use mesh_supervisor.Store

-- A row read through postcard.
abbrev pub decoded : (Bytes → Option Record) → Option Bytes → Option Record
decoded from_bytes none = none
decoded from_bytes (some b) = from_bytes b

module _ (d : Disk) where
  -- The record of a handle: its row, decoded.
  abbrev pub record_at : d.Db → Handle → Option Record
  record_at db h = decoded d.codec.from_bytes (lookup h (d.contents db).records)

module _ (d : Disk) (laws : IsDisk d) where
  -- A successful `put` makes the record that of the handle, leaves the records of other handles
  -- alone, and sets the counter to the handle.
  pub put_lem :
      (db db' : d.Db) (h : Handle) (rec : Record)
      → put d db h rec ≡ ok db'
      → ((j : Handle) → record_at d db' j ≡ (if nat_beq h j then some rec else record_at d db j))
        × (lookup key_next (d.contents db').meta ≡ some (to_le_bytes 8 h))
  unfolding put apply_all
  put_lem db db' h rec e =
      let (bytes, p, q) = >>=-eq-ok (option_ok encode (d.codec.to_allocvec rec)) _ e in
      let encoded = option_ok-eq-ok encode (d.codec.to_allocvec rec) p in
      let a = laws.commits db db' _ q in
      (
        λ j.
            simp (a.records j, lookup-insert)
              (ground (arith, laws.inverse.decodes rec bytes encoded)),
        simp (a.meta key_next, lookup-insert),
      )

  -- A successful `remove` forgets the record of its handle, and no other.
  pub remove_lem :
      (db db' : d.Db) (h j : Handle)
      → Store.remove d db h ≡ ok db'
      → record_at d db' j ≡ (if nat_beq h j then none else record_at d db j)
  unfolding Store.remove apply_all
  remove_lem db db' h j e = simp ((laws.commits db db' _ e).records j, lookup-remove) (ground arith)

  rewrite_status-at :
      (db db' : d.Db) (h j : Handle) (s : ProcState) (old : Bytes)
      → lookup h (d.contents db).records ≡ some old
      → rewrite_status d db h s old ≡ ok db'
      → record_at d db' j
        ≡ (if nat_beq h j then Option.map (with_status s) (record_at d db j) else record_at d db j)
  unfolding rewrite_status apply_all
  rewrite_status-at db db' h j s old found e =
      let (rec, p, e') = >>=-eq-ok (option_ok decode (d.codec.from_bytes old)) _ e in
      let (bytes, q, e'') =
        >>=-eq-ok (option_ok encode (d.codec.to_allocvec (with_status s rec))) _ e' in
      let decoded = option_ok-eq-ok decode (d.codec.from_bytes old) p in
      let encoded = option_ok-eq-ok encode (d.codec.to_allocvec (with_status s rec)) q in
      simp ((laws.commits db db' _ e'').records j, lookup-insert)
        (ground (arith, laws.inverse.decodes (with_status s rec) bytes encoded, decoded, found))

  update_row-at :
      (db db' : d.Db) (h j : Handle) (s : ProcState) (o : Option Bytes)
      → lookup h (d.contents db).records ≡ o
      → update_row d db h s o ≡ ok db'
      → record_at d db' j
        ≡ (if nat_beq h j then Option.map (with_status s) (record_at d db j) else record_at d db j)
  unfolding update_row
  update_row-at db db' h j s none gone e = ground (arith, gone)
  update_row-at db db' h j s (some old) found e = rewrite_status-at db db' h j s old found e

  -- A successful `set_status` changes the status of its handle's record, if there is one, and
  -- neither anything else of it nor another record.
  pub set_status_lem :
      (db db' : d.Db) (h j : Handle) (s : ProcState)
      → set_status d db h s ≡ ok db'
      → record_at d db' j
        ≡ (if nat_beq h j then Option.map (with_status s) (record_at d db j) else record_at d db j)
  unfolding set_status
  set_status_lem db db' h j s e =
      let (t, p, e') = >>=-eq-ok (d.open_tables db) _ e in
      let same = ap (λ (x : Tables). lookup h x.records) (laws.reads db t p) in
      update_row-at db db' h j s (lookup h t.records) (sym same) e'
