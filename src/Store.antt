-- ===== src/Store.antt =====
-- internal/store/store.go: the claimed subdomains, in memory and in a JSON file.
pub mod Document
pub mod Save
pub mod Claims
pub mod Holding
pub mod Restarts
pub mod Listing
use lotun.Base.{ℕ, ◌+◌, Bool, true, false, List, [], ◌∷◌, Option, none, some, if◌then◌else◌}
use lotun.Base.Bytes.{Bytes, bytes_eq}
use lotun.Base.Sort.{sort_strings}
use lotun.Dict.{Dict, lookup, insert, delete, keys}
use lotun.Json.{Json, Fields, JsonText, null, bool, obj, end, field}

-- The `names` of a FileStore; `none` is a nil map.
pub record FileStore : Type 0 where
  pub names : Option (Dict Bytes Bool)

-- The file at the store's path, and how many temporary files lie beside it.
pub record Disk : Type 0 where
  pub file : Option Bytes
  pub strays : ℕ

-- The errors that the operating system gives during one `save`, and whether os.Remove succeeds.
pub record Faults : Type 0 where
  pub create : Option Bytes
  pub write : Option Bytes
  pub close : Option Bytes
  pub rename : Option Bytes
  pub removes : Bool

pub data StoreError : Type 0 where
  already_claimed : StoreError
  system : Bytes → StoreError

-- How a mutating call ends: nil, an error, or a panic.
pub data Outcome : Type 0 where
  done : Outcome
  failed : StoreError → Outcome
  panics : Outcome

-- A read of a nil map finds nothing.
abbrev pub entries : FileStore → Dict Bytes Bool
entries s = elim s.names [ none ↦ [] | some m ↦ m ]

-- json.Marshal of a map[string]bool: the keys in order.
unfoldable pub to_fields : Dict Bytes Bool → List Bytes → Fields
to_fields m [] = end
to_fields m (k ∷ ks) = elim (lookup k m) [
  | none ↦ to_fields m ks
  | some b ↦ field k (bool b) (to_fields m ks)
]

unfoldable pub marshal_names : Option (Dict Bytes Bool) → Json
unfolding to_fields
marshal_names none = null
marshal_names (some m) = obj (to_fields m (sort_strings (keys m)))

-- json.Unmarshal into a map[string]bool, field by field; null leaves a new entry at false.
unfoldable pub from_fields : Dict Bytes Bool → Fields → Option (Dict Bytes Bool)
from_fields m end = some m
from_fields m (field k (bool b) fs) = from_fields (insert k b m) fs
from_fields m (field k null fs) = from_fields (insert k false m) fs
from_fields m (field k _ fs) = none

-- A document that is null makes the map nil; `none` is an error.
unfoldable pub unmarshal_names : Json → Option (Option (Dict Bytes Bool))
unfolding from_fields
unmarshal_names null = some none
unmarshal_names (obj fs) = elim (from_fields [] fs) [ none ↦ none | some m ↦ some (some m) ]
unmarshal_names _ = none

-- os.Remove of a temporary file.
unfoldable pub remove_temp : Faults → Disk → Disk
remove_temp f d = if f.removes then d else record d { strays = d.strays + 1 }

abbrev pub held : Option Bool → Bool
held none = false
held (some b) = b

-- IsClaimed(name): a missing key reads as false.
unfoldable pub is_claimed : FileStore → Bytes → Bool
is_claimed s name = held (lookup name (entries s))

module _ (json : JsonText) where
  -- save(): a temporary file, then a rename over the store's path.
  unfoldable pub save : FileStore → Faults → Disk → Outcome × Disk
  unfolding remove_temp
  save s f d = elim f.create [
    | some e ↦ (failed (system e), d)
    | none ↦ elim f.write [
      | some e ↦ (failed (system e), remove_temp f d)
      | none ↦ elim f.close [
        | some e ↦ (failed (system e), remove_temp f d)
        | none ↦ elim f.rename [
          | some e ↦ (failed (system e), record d { strays = d.strays + 1 })
          | none ↦ (done, record d { file = some (json.print (marshal_names s.names)) })
        ]
      ]
    ]
  ]

  -- Open(path): `unreadable` is an error of os.ReadFile other than that the file is missing.
  unfoldable pub open_store : Bool → Disk → Option FileStore
  open_store unreadable d = if unreadable then none else elim d.file [
    | none ↦ some (record { names = some [] })
    | some text ↦ elim (json.parse text) [
      | none ↦ none
      | some j ↦ elim (unmarshal_names j) [ none ↦ none | some m ↦ some (record { names = m }) ]
    ]
  ]

  -- Claim(name). An assignment to a nil map panics.
  unfoldable pub claim : Bytes → Faults → FileStore × Disk → Outcome × FileStore × Disk
  claim name f (s, d) = if is_claimed s name then (failed already_claimed, s, d) else elim s.names [
    | none ↦ (panics, s, d)
    | some m ↦
        let s' : FileStore = record { names = some (insert name true m) } in
        let (outcome, d') = save s' f d in (outcome, s', d')
  ]

  -- Release(name). Deleting from a nil map does nothing.
  unfoldable pub release : Bytes → Faults → FileStore × Disk → Outcome × FileStore × Disk
  release name f (s, d) =
      let s' : FileStore = record {
        names = elim s.names [ none ↦ none | some m ↦ some (delete name m) ];
      } in
      let (outcome, d') = save s' f d in (outcome, s', d')

-- List()
unfoldable pub list_names : FileStore → List Bytes
list_names s = sort_strings (keys (entries s))
