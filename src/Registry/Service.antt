-- ===== src/Registry/Service.antt =====
-- internal/registry/registry.go: the handlers of the service, over the store. A reply is a status of
-- gRPC or what the call returns.
pub mod Upload
use belady.Common.{
  ℕ, zero, suc, Bool, true, false, Option, none, some, List, [], ◌∷◌, ◌++◌, length, take, leb, ◌==◌,
  if◌then◌else◌,
}
use belady.Registry.Stream.{
  ModelMeta, Message, ReceiveError, transport, Received, ok, err, receive, model_messages,
}
use belady.Registry.Store.{
  Dir, read, Store, Faults, Outcome, published, exists, failed, model_path, meta_path, publish,
}
use belady.Registry.Store.Names.{NameError, valid_version, InvalidModel, validate, versions}

pub data Reply (A : Type 0) : Type 0 where
  reply : A → Reply A
  invalid_argument : Reply A
  already_exists : Reply A
  not_found : Reply A
  internal : Reply A
  broken_off : Reply A

-- `errors.Is(err, errMalformed)`
unfoldable pub is_malformed : ReceiveError → Bool
is_malformed transport = false
is_malformed _ = true

-- The time of the upload stands in for a missing one.
unfoldable pub stamped : ℕ → ModelMeta → ModelMeta
stamped now m = if m.created_unix == 0 then record m { created_unix = now } else m

unfoldable pub publish_reply : ModelMeta → Outcome → Reply ModelMeta
publish_reply m published = reply m
publish_reply m exists = already_exists
publish_reply m failed = internal

module _ (digest : List ℕ → List ℕ) (marshal : ModelMeta → List ℕ) where
  unfoldable pub publish_received :
      Faults → ℕ → Received (ModelMeta × List ℕ) → Store → Store × Reply ModelMeta
  publish_received f now (err e) s = (s, if is_malformed e then invalid_argument else broken_off)
  publish_received f now (ok (m, body)) s = elim (validate m body) [
    | some e ↦ (s, invalid_argument)
    | none ↦
        let (s', outcome) = publish marshal f (stamped now m) body s in
        (s', publish_reply (stamped now m) outcome)
  ]

  unfoldable pub publish_model : Faults → ℕ → List Message → Store → Store × Reply ModelMeta
  publish_model f now ms s = publish_received f now (receive digest ms) s

-- `unmarshal` is `proto.Unmarshal`; the store's `meta` fails on a missing file or unreadable bytes.
module _ (unmarshal : List ℕ → Option ModelMeta) where
  unfoldable pub meta_of : List ℕ → Dir → Reply ModelMeta
  meta_of version d = elim (read (meta_path version) d) [
    | none ↦ not_found
    | some raw ↦ elim (unmarshal raw) [ none ↦ internal | some m ↦ reply m ]
  ]

  -- `newStore` on a directory: the newest model on the disk is the latest.
  unfoldable pub last_version : List (List ℕ) → Option (List ℕ)
  last_version [] = none
  last_version (v ∷ vs) = elim (last_version vs) [ none ↦ some v | some w ↦ some w ]

  unfoldable pub new_store : Dir → Option Store
  new_store d = elim (last_version (versions d)) [
    | none ↦ some (record { latest = none; changed = 0; closed = []; dir = d })
    | some v ↦ elim (meta_of v d) [
      | reply m ↦ some (record { latest = some m; changed = 0; closed = []; dir = d })
      | _ ↦ none
    ]
  ]

  -- `ListModels`, whose limit of 0 or less, or above their number, stands for all.
  unfoldable pub newest_first : List (List ℕ) → List (List ℕ)
  newest_first [] = []
  newest_first (v ∷ vs) = newest_first vs ++ (v ∷ [])

  unfoldable pub readable : List (List ℕ) → Dir → List ModelMeta
  readable [] d = []
  readable (v ∷ vs) d =
      let rest = readable vs d in elim (meta_of v d) [ reply m ↦ m ∷ rest | _ ↦ rest ]

  unfoldable pub list_models : ℕ → Dir → List ModelMeta
  list_models limit d =
      let vs = newest_first (versions d) in readable (if limit == 0 then vs else take limit vs) d

  -- The version that `GetModel` serves.
  unfoldable pub requested : List ℕ → Store → Reply (List ℕ)
  requested version s =
      if length version == 0
      then elim s.latest [ none ↦ not_found | some m ↦ reply m.version ]
      else elim (valid_version version) [ some e ↦ invalid_argument | none ↦ reply version ]
