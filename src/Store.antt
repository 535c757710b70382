-- ===== src/Store.antt =====
-- src/store.rs: process records and the node's key in a redb file. The database and postcard are
-- parameters, `Disk`; an operation returns the database after it.
pub mod Counter
pub mod Sort
pub mod Database
pub mod Laws
pub mod Reload
pub mod Identity
pub mod Files
use mesh_supervisor.Prelude.{
  nat_beq, if◌then◌else◌, nat_eq, string_eq, length, Result, option_ok, ◌>>=◌, ok, err, ℕ, max,
  String, Option, none, some, List, [], ◌∷◌,
}
use mesh_supervisor.Map.{lookup}
use mesh_supervisor.Proto.{Handle, ProcState}
use mesh_supervisor.Proto.Frame.{Bytes}
use mesh_supervisor.Process.Record.{Record, with_status}
use mesh_supervisor.Store.Database.{
  Disk, StoreError, decode, encode, bad_counter, wrong_length, put_record, drop_record, put_meta,
}
use mesh_supervisor.Store.Counter.{to_le_bytes, from_le_bytes}
use mesh_supervisor.Store.Sort.{sort_by_key}

abbrev pub key_secret : String
key_secret = "secret_key"

abbrev pub key_next : String
key_next = "next_handle"

pub record Loaded : Type 0 where
  pub records : List (Handle × Record)
  pub next_handle : ℕ

-- `records.iter().map(|(h, _)| *h).max().unwrap_or(0)`
unfoldable pub max_key : List (Handle × Record) → ℕ
max_key [] = 0
max_key ((h, rec) ∷ rs) = max h (max_key rs)

-- `<[u8; 32]>::try_from`
unfoldable pub try_into_key : Bytes → Result StoreError Bytes
try_into_key b = if nat_beq (length b) 32 then ok b else err wrong_length

unfoldable pub counter_of : Option Bytes → Result StoreError ℕ
counter_of none = ok 0
counter_of (some b) = if nat_beq (length b) 8 then ok (from_le_bytes b) else err bad_counter

unfoldable pub decode_records :
    (Bytes → Option Record) → List (Handle × Bytes) → Result StoreError (List (Handle × Record))
decode_records from_bytes [] = ok []
decode_records from_bytes ((h, b) ∷ rows) = do
  rec ← option_ok decode (from_bytes b)
  rest ← decode_records from_bytes rows
  ok ((h, rec) ∷ rest)

module _ (d : Disk) where
  -- `get_meta`
  unfoldable pub get_meta : d.Db → String → Result StoreError (Option Bytes)
  get_meta db key = do t ← d.open_tables db; ok (lookup key t.meta)

  -- The rest of `secret_key`, at what `get_meta` found.
  unfoldable pub key_step : d.Db → Bytes → Option Bytes → Result StoreError (Bytes × d.Db)
  unfolding try_into_key
  key_step db generated (some bytes) = do key ← try_into_key bytes; ok (key, db)
  key_step db generated none = do
    db' ← d.commit db (put_meta key_secret generated ∷ [])
    ok (generated, db')

  -- `secret_key`: the key, and the database after it; `generated` is what `SecretKey::generate`
  -- returns.
  unfoldable pub secret_key : d.Db → Bytes → Result StoreError (Bytes × d.Db)
  unfolding get_meta key_step
  secret_key db generated = do found ← get_meta db key_secret; key_step db generated found

  -- `load`
  unfoldable pub load : d.Db → Result StoreError Loaded
  unfolding get_meta counter_of
  load db = do
    t ← d.open_tables db
    rows ← decode_records d.codec.from_bytes t.records
    let records = sort_by_key rows
    found ← get_meta db key_next
    stored ← counter_of found
    ok (record { records = records; next_handle = max stored (max_key records) })

  -- `put`: the record and the counter, in one transaction.
  unfoldable pub put : d.Db → Handle → Record → Result StoreError d.Db
  put db handle rec = do
    bytes ← option_ok encode (d.codec.to_allocvec rec)
    d.commit db (put_record handle bytes ∷ put_meta key_next (to_le_bytes 8 handle) ∷ [])

  -- `remove`
  unfoldable pub remove : d.Db → Handle → Result StoreError d.Db
  remove db handle = d.commit db (drop_record handle ∷ [])

  -- The rest of `set_status`, at a record that is there.
  unfoldable pub rewrite_status : d.Db → Handle → ProcState → Bytes → Result StoreError d.Db
  rewrite_status db handle status old = do
    rec ← option_ok decode (d.codec.from_bytes old)
    bytes ← option_ok encode (d.codec.to_allocvec (with_status status rec))
    d.commit db (put_record handle bytes ∷ [])

  unfoldable pub update_row : d.Db → Handle → ProcState → Option Bytes → Result StoreError d.Db
  unfolding rewrite_status
  update_row db handle status none = ok db
  update_row db handle status (some old) = rewrite_status db handle status old

  -- `set_status`: nothing is written if the record is gone.
  unfoldable pub set_status : d.Db → Handle → ProcState → Result StoreError d.Db
  set_status db handle status = do
    t ← d.open_tables db
    update_row db handle status (lookup handle t.records)
