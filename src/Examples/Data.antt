-- ===== src/Examples/Data.antt =====
-- The data of the tests: a database in memory, codecs and keys that satisfy what src/store.rs,
-- src/proto.rs and src/telemetry.rs rely on, and a few values of each type.
use mesh_supervisor.Process.State.{fresh_manager, Launched, ProcEntry, Manager, pipe, channel}
use mesh_supervisor.Prelude.{
  if◌then◌else◌, Bool-cases, ◌==◌, nat_eq, string_eq, ok-injective, ok, pos, negsuc, ℕ, String, ◌≡◌,
  refl, sym, ap, subst, inl, inr, true, false, Option, none, some, List, [], ◌∷◌,
}
use mesh_supervisor.Process.Record.{Record}
use mesh_supervisor.Proto.Frame.{Codec, IsInverse, Bytes}
use mesh_supervisor.Proto.{on_failure, Spec, exited, stale, running, ProcState}
use mesh_supervisor.Store.Database.{apply_all, Agree, Tables, IsDisk, Disk}
use mathlib.Core.Option
use mathlib.Core.Option.{some-injective}
use text.Mathlib.TextEquality.{eq_iff}

-- A state's bytes tell it by their number.
abbrev pub state_bytes : ProcState → Bytes
state_bytes running = []
state_bytes stale = 0 ∷ []
state_bytes (exited none) = 0 ∷ 0 ∷ []
state_bytes (exited (some (pos n))) = n ∷ 0 ∷ 0 ∷ []
state_bytes (exited (some (negsuc n))) = n ∷ 0 ∷ 0 ∷ 0 ∷ []

abbrev pub state_of : Bytes → Option ProcState
state_of [] = some running
state_of (a ∷ []) = some stale
state_of (a ∷ b ∷ []) = some (exited none)
state_of (n ∷ b ∷ c ∷ []) = some (exited (some (pos n)))
state_of (n ∷ b ∷ c ∷ e ∷ rest) = some (exited (some (negsuc n)))

state_of-state_bytes : (s : ProcState) → state_of (state_bytes s) ≡ some s
state_of-state_bytes running = refl
state_of-state_bytes stale = refl
state_of-state_bytes (exited none) = refl
state_of-state_bytes (exited (some (pos n))) = refl
state_of-state_bytes (exited (some (negsuc n))) = refl

abbrev pub web : ℕ → ProcState → Record
web pid s = record { cmd = "web"; args = []; env = []; pid = pid; status = s }

-- Only commands without arguments or environment are encoded.
abbrev pub encode_rest : List String → List (String × String) → ℕ → ProcState → Option Bytes
encode_rest [] [] pid s = some (pid ∷ state_bytes s)
encode_rest (a ∷ args) env pid s = none
encode_rest [] (v ∷ env) pid s = none

abbrev pub decode_web : Bytes → Option Record
decode_web [] = none
decode_web (pid ∷ bytes) = Option.map (web pid) (state_of bytes)

abbrev pub web_codec : Codec Record
web_codec = record {
  to_allocvec =
      λ rec. if rec.cmd == "web" then encode_rest rec.args rec.env rec.pid rec.status else none;
  from_bytes = decode_web;
}

decode-encode_rest :
    (args : List String) (env : List (String × String)) (pid : ℕ) (s : ProcState) (b : Bytes)
    → encode_rest args env pid s ≡ some b
    → decode_web b ≡ some (record { cmd = "web"; args = args; env = env; pid = pid; status = s })
decode-encode_rest [] [] pid s b e =
    subst (λ x. decode_web x ≡ some (web pid s)) (some-injective _ _ e)
      (ap (Option.map (web pid)) (state_of-state_bytes s))
decode-encode_rest (a ∷ args) env pid s b e = cc
decode-encode_rest [] (v ∷ env) pid s b e = cc

pub web_codec-IsInverse : IsInverse web_codec
web_codec-IsInverse = record { decodes = decodes }
  where
    at_web :
        (cmd : String) (args : List String) (env : List (String × String)) (pid : ℕ) (s : ProcState)
        (b : Bytes)
        → cmd ≡ "web"
        → encode_rest args env pid s ≡ some b
        → decode_web b ≡ some (record { cmd = cmd; args = args; env = env; pid = pid; status = s })
    at_web cmd args env pid s b same e = rw same (decode-encode_rest args env pid s b e)

    decodes :
        (rec : Record) (b : Bytes)
        → web_codec.to_allocvec rec ≡ some b
        → web_codec.from_bytes b ≡ some rec
    decodes rec b e = elim (Bool-cases (rec.cmd == "web")) [
      | inl same ↦
          at_web rec.cmd rec.args rec.env rec.pid rec.status b ((eq_iff rec.cmd "web").0 same)
            (rw same at e)
      | inr other ↦ absurd (no_bytes (rw other at e))
    ]
      where
        no_bytes : none ≡ some b → ⊥
        no_bytes h = cc

-- A database in memory.
abbrev pub mem_disk : Disk
mem_disk = record {
  Db = Tables;
  contents = λ t. t;
  open_tables = λ t. ok t;
  commit = λ t ws. ok (apply_all ws t);
  codec = web_codec;
}

pub mem_disk-IsDisk : IsDisk mem_disk
mem_disk-IsDisk = record {
  reads = λ db t e. ok-injective (sym e);
  commits = λ db db' ws e.
      subst (λ t. Agree t (apply_all ws db)) (ok-injective e)
        (record { records = λ h. refl; meta = λ k. refl });
  inverse = web_codec-IsInverse;
}

abbrev pub sleep_spec : Spec
sleep_spec = record {
  cmd = "sleep";
  args = "60" ∷ [];
  env = ("LANG", "C") ∷ ("PATH", "/opt/bin") ∷ [];
  limits = record { memory = none; pids = some 16; cpu = none };
  policy = on_failure;
  max_retries = 2;
  isolate = false;
}

abbrev pub entry_with : ProcState → ℕ → ProcEntry
entry_with s pid = record {
  pid = pid;
  status = s;
  stdin = pipe pid;
  stdout = channel pid;
  restarts = 0;
  armed = true;
}

-- A running, an exited and a stale process.
abbrev pub three : Manager mem_disk
three = record (fresh_manager mem_disk) {
  procs =
      (2, entry_with running 702)
      ∷ (3, entry_with (exited (some (pos 1))) 703)
      ∷ (4, entry_with stale 704)
      ∷ [];
  next = 4;
}

abbrev pub started : Launched
started = record { child = 1; pid = 705; stdin = pipe 705; stdout = channel 705 }
