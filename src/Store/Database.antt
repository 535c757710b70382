-- ===== src/Store/Database.antt =====
-- The redb database under src/store.rs, as a parameter: its two tables, transactions, and what the
-- code relies on.
use mesh_supervisor.Prelude.{nat_eq, string_eq, Result, ok, String, ◌≡◌, List, [], ◌∷◌}
use mesh_supervisor.Map.{Map, lookup, insert, remove}
use mesh_supervisor.Proto.{Handle}
use mesh_supervisor.Proto.Frame.{Bytes, Codec, IsInverse}
use mesh_supervisor.Process.Record.{Record}

pub data StoreError : Type 0 where
  database permissions decode encode bad_counter wrong_length : StoreError

pub record Tables : Type 0 where
  pub records : Map Handle Bytes
  pub meta : Map String Bytes

-- One write of a transaction.
pub data Write : Type 0 where
  put_record : Handle → Bytes → Write
  drop_record : Handle → Write
  put_meta : String → Bytes → Write

unfoldable pub apply : Write → Tables → Tables
apply (put_record h b) t = record t { records = insert h b t.records }
apply (drop_record h) t = record t { records = remove h t.records }
apply (put_meta k b) t = record t { meta = insert k b t.meta }

unfoldable pub apply_all : List Write → Tables → Tables
unfolding apply
apply_all [] t = t
apply_all (w ∷ ws) t = apply_all ws (apply w t)

-- `open_tables` stands for `begin_read` or `begin_write` with `open_table`, `commit` for a write
-- transaction from its first write to its commit.
pub record Disk : Type 1 where
  pub Db : Type 0
  pub contents : Db → Tables
  pub open_tables : Db → Result StoreError Tables
  pub commit : Db → List Write → Result StoreError Db
  pub codec : Codec Record

-- Two states of the tables that no lookup tells apart.
pub record Agree (s t : Tables) : Type 0 where
  pub records : (h : Handle) → lookup h s.records ≡ lookup h t.records
  pub meta : (k : String) → lookup k s.meta ≡ lookup k t.meta

-- A transaction reads what the database holds, a commit makes exactly its writes, and postcard
-- decodes what it encoded. Any of the calls may fail.
pub record IsDisk (d : Disk) : Type 0 where
  pub reads : (db : d.Db) (t : Tables) → d.open_tables db ≡ ok t → t ≡ d.contents db
  pub commits :
      (db db' : d.Db) (ws : List Write)
      → d.commit db ws ≡ ok db'
      → Agree (d.contents db') (apply_all ws (d.contents db))
  pub inverse : IsInverse d.codec
