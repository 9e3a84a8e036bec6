-- ===== src/Tests/Registries.antt =====
-- A model of three bytes on its way from the trainer to a node, with sums in place of SHA-256.
use belady.Common.{
  ℕ, pos, Option, ◌+◌, ◌*◌, ◌≡◌, ◌↔◌, refl, true, false, none, some, List, [], ◌∷◌, All, arith,
}
use belady.Registry.Stream.{ModelMeta, Message, receive, model_messages}
use belady.Registry.Stream
use belady.Registry.Stream.Whole.{concat, as_chunks, IsWhole, receive-ok}
use belady.Registry.Stream.Transfer.{receive-model_messages}
use belady.Registry.Store
use belady.Registry.Store.{
  Store, Faults, fine, write_fails, meta_path, read, publish, watch_round, Watch, after, newer,
  make_visible,
}
use belady.Registry.Store.Names
use belady.Registry.Store.Names.{model_format, validate, IsAcceptable, validate_iff}
use belady.Registry.Store.Published.{Published, publish-Published}
use belady.Registry.Store.Immutable.{SameVersion, publish_all, publish_all-SameVersion}
use belady.Registry.Store.Watching
use belady.Registry.Store.Watching.{Event, publishing, turning, run_watch, watch_turn, arrived}
use belady.Registry.Store.Watching.Wakes.{
  Ascends, last_seen, run_watch-Ascends, run_watch-watch_turn,
}
use belady.Registry.Service
use belady.Registry.Service.{publish_model, reply}
use belady.Registry.Service.Upload.{Uploaded, publish_model-Uploaded}
use belady.Registry.Watcher.{watch, backoffs, second}
use belady.Registry.Watcher.Laws.{Runs, empty, InRange, backoffs-InRange, watch-Runs}

abbrev sum_of : List ℕ → List ℕ
sum_of [] = []
sum_of (b ∷ bs) = (b + 1) ∷ sum_of bs

abbrev body : List ℕ
body = 1 ∷ 2 ∷ 3 ∷ []

unfoldable meta : List ℕ → ModelMeta
meta v = record {
  version = v;
  size_bytes = 3;
  sha256 = sum_of body;
  format = model_format;
  feature_count = 14;
  boundary_seconds = 600;
  created_unix = 1;
}

abbrev v1 : List ℕ
v1 = b'1' ∷ []

abbrev v2 : List ℕ
v2 = b'2' ∷ []

body-IsWhole : IsWhole sum_of (meta v1) body
unfolding meta
body-IsWhole = record { size = refl; limit = omega arith; sum = refl }

receive-model_messages_example :
    receive sum_of (model_messages (meta v1) body) ≡ Stream.ok (meta v1, body)
receive-model_messages_example = receive-model_messages sum_of (meta v1) body body-IsWhole

receive-ok_example :
    (receive sum_of (model_messages (meta v1) body) ≡ Stream.ok (meta v1, body)) ↔ (
      (cs : List (List ℕ)) × (model_messages (meta v1) body ≡ Stream.meta (meta v1) ∷ as_chunks cs)
      × (body ≡ concat cs)
      × IsWhole sum_of (meta v1) body)
receive-ok_example = receive-ok sum_of (model_messages (meta v1) body) (meta v1) body

validate_iff_example : (validate (meta v1) body ≡ none) ↔ IsAcceptable (meta v1) body
validate_iff_example = validate_iff (meta v1) body

abbrev no_models : Store
no_models = record { latest = none; changed = 0; closed = []; dir = [] }

abbrev no_faults : Faults
no_faults = record { stat = false; body = fine; encoding = false; metadata = fine }

abbrev full_disk : Faults
full_disk = record { stat = false; body = fine; encoding = false; metadata = write_fails (9 ∷ []) }

abbrev marshal : ModelMeta → List ℕ
marshal m = m.version

publish-Published_example :
    Published marshal
      (meta v1)
      body
      no_models
      (publish marshal full_disk (meta v1) body no_models).0
      (publish marshal full_disk (meta v1) body no_models).1
publish-Published_example = publish-Published marshal full_disk (meta v1) body no_models

abbrev one_model : Store
one_model = (publish marshal no_faults (meta v1) body no_models).0

one_model-there : read (meta_path v1) one_model.dir ≡ some v1
unfolding read publish Store.publish_body Store.write_atomic Store.publish_meta make_visible newer
    Store.with_dir Store.write Store.same_file Store.same_extension meta_path Stream.same_bytes meta
one_model-there = refl

publish_all-SameVersion_example :
    SameVersion v1 one_model.dir
      (publish_all marshal
        ((no_faults, meta v1, []) ∷ (full_disk, meta v2, body) ∷ [])
        one_model).dir
publish_all-SameVersion_example =
    publish_all-SameVersion marshal ((no_faults, meta v1, []) ∷ (full_disk, meta v2, body) ∷ [])
      one_model v1 v1 one_model-there

-- A watcher blocks on the empty store, and a version is published.
abbrev events : List Event
events = turning ∷ publishing no_faults (meta v1) body ∷ []

run_watch-Ascends_example :
    let x = (run_watch marshal events no_models (arrived [])).1 in
    Ascends [] x.sent × (x.seen ≡ last_seen [] x.sent)
run_watch-Ascends_example = run_watch-Ascends marshal [] events no_models

v1-latest : (run_watch marshal events no_models (arrived [])).0.latest ≡ some (meta v1)
unfolding run_watch watch_turn Watching.watched arrived Watching.is_closed Store.watch_round
    Store.snapshot publish Store.publish_body Store.write_atomic Store.publish_meta make_visible
    newer Store.with_dir Store.write Store.discard Store.same_file Store.same_extension meta_path
    Store.model_path Stream.same_bytes meta after read
v1-latest = refl

v1-later : after (meta v1).version (run_watch marshal events no_models (arrived [])).1.seen ≡ true
unfolding run_watch watch_turn Watching.watched arrived Watching.is_closed Store.watch_round
    Store.snapshot publish Store.publish_body Store.write_atomic Store.publish_meta make_visible
    newer Store.with_dir Store.write Store.discard Store.same_file Store.same_extension meta_path
    Store.model_path Stream.same_bytes meta after read
v1-later = refl

run_watch-watch_turn_example :
    let (t, x) = run_watch marshal events no_models (arrived []) in
    watch_turn t x
    ≡ some (record { seen = (meta v1).version; blocked = none; sent = meta v1 ∷ x.sent })
run_watch-watch_turn_example =
    run_watch-watch_turn marshal [] events no_models (meta v1) v1-latest v1-later

backoffs-InRange_example : All InRange (backoffs (0 ∷ 0 ∷ 40 * second ∷ 0 ∷ []) second)
backoffs-InRange_example =
    backoffs-InRange (0 ∷ 0 ∷ 40 * second ∷ 0 ∷ []) second (omega arith, omega arith)

-- A model is its number of features; the registry serves the body for every version.
abbrev fourteen : List ℕ → Option ℕ
fourteen b = some 14

watch-Runs_example :
    Runs
      (λ n. pos n)
      14
      (λ v. some (meta v, body))
      fourteen
      (600 * second)
      (watch
        (λ n. pos n)
        14
        (λ v. some (meta v, body))
        fourteen
        (600 * second)
        (none ∷ some (meta v1) ∷ [])
        none)
watch-Runs_example =
    watch-Runs (λ n. pos n) 14 (λ v. some (meta v, body)) fourteen (600 * second)
      (none ∷ some (meta v1) ∷ []) none empty

upload_answered :
    (publish_model sum_of marshal no_faults 5 (model_messages (meta v1) body) no_models).1
    ≡ reply (meta v1)
unfolding publish_model Service.publish_received receive model_messages meta Stream.receive_body
    Stream.chunks_of Stream.finish Stream.same_bytes validate Names.valid_version Names.contains_any
    Names.is_separator Names.validate_fields model_format Service.publish_reply publish
    Service.is_malformed Service.stamped after Store.discard make_visible meta_path Store.model_path
    newer Store.publish_body Store.publish_meta read Store.same_extension Store.same_file
    Store.with_dir Store.write Store.write_atomic
upload_answered = refl

publish_model-Uploaded_example :
    Uploaded sum_of marshal 5
      (model_messages (meta v1) body)
      (meta v1)
      (publish_model sum_of marshal no_faults 5 (model_messages (meta v1) body) no_models).0
publish_model-Uploaded_example =
    publish_model-Uploaded sum_of marshal no_faults 5 (model_messages (meta v1) body) no_models
      (meta v1) upload_answered
