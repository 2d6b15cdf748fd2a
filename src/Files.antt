-- ===== src/Files.antt =====
-- What src/cache.rs uses of `std::fs`, inside the one directory of the cache: a file is known by its
-- name there. Each operation may fail, as the state says beforehand: a failed write may leave any
-- part of its bytes behind, and a rename happens as a whole or not at all.
use wasm_runtime.Base.{
  ℕ, ◌+◌, ◌%◌, ◌^◌, Bool, true, false, Option, none, some, List, [], ◌∷◌, Bytes, take, equal,
  if◌then◌else◌,
}
use wasm_runtime.Failure.Stateful.{Stateful}
use wasm_runtime.Failure.{Message, text, Error, io, ok, err}
pub use wasm_runtime.Failure.Stateful.{continue, ◌>>=◌, ◌>>◌, lift, continue-eq-ok}

pub record File : Type 0 where
  pub contents : Bytes
  -- Whether the mode is 0600.
  pub private : Bool

pub data Fault : Type 0 where
  refused : Message → Fault
  interrupted : Message → ℕ → Fault

pub record Files : Type 0 where
  pub entries : Bytes → Option File
  -- What happens to the operations to come; they succeed behind the end of the list.
  pub faults : List (Option Fault)
  -- `TEMP_SEQUENCE`
  pub temp_sequence : ℕ

abbrev pub Io : Type 0 → Type 0
Io A = Stateful Files A

-- What befalls the next operation, and the state behind it.
abbrev pub head_fault : List (Option Fault) → Option Fault
head_fault [] = none
head_fault (f ∷ faults) = f

abbrev pub tail_faults : List (Option Fault) → List (Option Fault)
tail_faults [] = []
tail_faults (f ∷ faults) = faults

abbrev pub fault_of : Files → Option Fault
fault_of s = head_fault s.faults

abbrev pub passed : Files → Files
passed s = record s { faults = tail_faults s.faults }

abbrev pub reason : Fault → Message
reason (refused m) = m
reason (interrupted m n) = m

abbrev pub not_found : Message
not_found = text "No such file or directory (os error 2)" ∷ []

abbrev pub stored : (Bytes → Option File) → Bytes → Option File → Bytes → Option File
stored entries name file other = if equal name other then file else entries other

abbrev pub exists : Bytes → Files → Bool
exists name s = elim (s.entries name) [ none ↦ false | some f ↦ true ]

-- `fs::read`, with its `map_err`.
unfoldable pub read : (Message → Error) → Bytes → Io Bytes
read to_error name s = elim (fault_of s) [
  | some f ↦ (err (to_error (reason f)), passed s)
  | none ↦ elim (s.entries name) [
    | none ↦ (err (to_error not_found), passed s)
    | some f ↦ (ok f.contents, passed s)
  ]
]

-- A new file is not private; an old one keeps its mode.
abbrev pub overwritten : Option File → Bytes → File
overwritten none bytes = record { contents = bytes; private = false }
overwritten (some f) bytes = record f { contents = bytes }

abbrev pub with_file : Bytes → Option File → Files → Files
with_file name file s = record s { entries = stored s.entries name file }

-- `fs::write`
unfoldable pub write : Bytes → Bytes → Io (Unit {0})
write name bytes s = elim (fault_of s) [
  | none ↦ (ok tt, with_file name (some (overwritten (s.entries name) bytes)) (passed s))
  | some f ↦ elim f [
    | refused m ↦ (err (io m), passed s)
    | interrupted m n ↦
        (err (io m), with_file name (some (overwritten (s.entries name) (take n bytes))) (passed s))
  ]
]

-- `set_private_file`, on Unix.
unfoldable pub set_private_file : Bytes → Io (Unit {0})
set_private_file name s = elim (fault_of s) [
  | some f ↦ (err (io (reason f)), passed s)
  | none ↦ elim (s.entries name) [
    | none ↦ (err (io not_found), passed s)
    | some f ↦ (ok tt, with_file name (some (record f { private = true })) (passed s))
  ]
]

-- `fs::rename`
unfoldable pub rename : Bytes → Bytes → Io (Unit {0})
rename from to s = elim (fault_of s) [
  | some f ↦ (err (io (reason f)), passed s)
  | none ↦ elim (s.entries from) [
    | none ↦ (err (io not_found), passed s)
    | some f ↦ (ok tt, with_file to (some f) (with_file from none (passed s)))
  ]
]

-- `create_dir_all` and `set_private_directory`, which touch no file.
unfoldable pub on_directory : Io (Unit {0})
on_directory s = elim (fault_of s) [
  | some f ↦ (err (io (reason f)), passed s)
  | none ↦ (ok tt, passed s)
]

-- `TEMP_SEQUENCE.fetch_add(1)`
unfoldable pub fetch_add : Io ℕ
fetch_add s = (ok s.temp_sequence, record s { temp_sequence = (s.temp_sequence + 1) % 2 ^ 64 })
