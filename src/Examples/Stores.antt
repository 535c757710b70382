-- ===== src/Examples/Stores.antt =====
-- The theorems on src/store.rs, at a database in memory.
use mesh_supervisor.Prelude.{
  nat_beq, if◌then◌else◌, nat_eq, string_eq, ok, ℕ, ◌≤◌, ◌≡◌, refl, some, [], ◌∷◌,
}
use mesh_supervisor.Store.Sort.{insert_by_key, sort_by_key}
use mesh_supervisor.Store.Counter.{from_le_bytes, to_le_bytes}
use mesh_supervisor.Examples.Data.{mem_disk-IsDisk, mem_disk, web}
use mesh_supervisor.Store.Database.{Tables, apply_all}
use mesh_supervisor.Proto.Frame.{Bytes}
use mesh_supervisor.Store.Laws.{record_at}
use mesh_supervisor.Store.Reload.{load-put, load-IsLoadOf, IsLoadOf}
use mesh_supervisor.Proto.{running, Handle}
use mesh_supervisor.Process.Record.{Record}
use mesh_supervisor.Map.{lookup, insert}
use mesh_supervisor.Store.{max_key, decode_records, key_secret, key_next, load, Loaded, put}

abbrev row : ℕ → Bytes
row pid = pid ∷ []

-- Handles 1 and 3 have a record, and the counter is at 3.
abbrev two_rows : Tables
two_rows = record {
  records = (3, row 703) ∷ (1, row 701) ∷ [];
  meta = (key_next, to_le_bytes 8 3) ∷ [];
}

abbrev loaded : Loaded
loaded = record { records = (1, web 701 running) ∷ (3, web 703 running) ∷ []; next_handle = 3 }

load_works : load mem_disk two_rows ≡ ok loaded
unfolding load lookup to_le_bytes from_le_bytes decode_records sort_by_key insert_by_key max_key
load_works = refl

load-IsLoadOf_example : IsLoadOf mem_disk two_rows loaded
load-IsLoadOf_example = load-IsLoadOf mem_disk mem_disk-IsDisk two_rows loaded load_works

-- A relaunch writes handle 1 again, and sets the counter back to it.
abbrev after_put : Tables
after_put = record {
  records = (3, row 703) ∷ (1, row 800) ∷ [];
  meta = (key_next, to_le_bytes 8 1) ∷ [];
}

put_works : put mem_disk two_rows 1 (web 800 running) ≡ ok after_put
unfolding put apply_all insert to_le_bytes
put_works = refl

abbrev reloaded_after : Loaded
reloaded_after = record {
  records = (1, web 800 running) ∷ (3, web 703 running) ∷ [];
  next_handle = 3;
}

second_load_works : load mem_disk after_put ≡ ok reloaded_after
unfolding load lookup to_le_bytes from_le_bytes decode_records sort_by_key insert_by_key max_key
second_load_works = refl

load-put_example :
    ((j : Handle)
      → lookup j reloaded_after.records
        ≡ (if nat_beq 1 j then some (web 800 running) else record_at mem_disk two_rows j))
    × (1 ≤ reloaded_after.next_handle)
    × ((j : Handle) (r : Record)
        → record_at mem_disk two_rows j ≡ some r
        → j ≤ reloaded_after.next_handle)
load-put_example =
    load-put mem_disk mem_disk-IsDisk two_rows after_put 1 (web 800 running) reloaded_after
      put_works second_load_works

-- Thirty-two bytes.
abbrev pub a_key : Bytes
a_key =
    1 ∷ 2 ∷ 3 ∷ 4 ∷ 5 ∷ 6 ∷ 7 ∷ 8 ∷ 1 ∷ 2 ∷ 3 ∷ 4 ∷ 5 ∷ 6 ∷ 7 ∷ 8 ∷ 1 ∷ 2 ∷ 3 ∷ 4 ∷ 5 ∷ 6 ∷ 7 ∷ 8
    ∷ 1 ∷ 2 ∷ 3 ∷ 4 ∷ 5 ∷ 6 ∷ 7 ∷ 8 ∷ []

abbrev pub with_key : Tables
with_key = record { records = []; meta = (key_secret, a_key) ∷ [] }

abbrev pub no_rows : Tables
no_rows = record { records = []; meta = [] }

abbrev pub key_and_row : Tables
key_and_row = record {
  records = (1, row 701) ∷ [];
  meta = (key_secret, a_key) ∷ (key_next, to_le_bytes 8 1) ∷ [];
}

pub row_put : put mem_disk with_key 1 (web 701 running) ≡ ok key_and_row
unfolding put apply_all insert to_le_bytes
row_put = refl
