-- ===== src/Tests/Races.antt =====
-- Two updates of the settings side by side, and the theorems at them.
use mathlib.Core.List.{map}
use vbus2mqtt.Prelude.{
  ℕ, ◌+◌, ◌%◌, ◌^◌, ◌≡◌, ◌≢◌, refl, true, false, ◌⊎◌, List, [], ◌∷◌, ◌++◌, none, some, get_or,
  arith,
}
use vbus2mqtt.Config.{Config}
use vbus2mqtt.Config.Store.{Store, write_failed, rename_failed, to_persisted}
use vbus2mqtt.Config.Store.Calls.{
  emptied, whole, broken, Files, Stage, change, returned, Shared, Answer, interleave, proceed,
  save_part, rename_tmp, open_tmp, set_content,
}
use vbus2mqtt.Config.Store.Calls.Alone.{run_parts, run_parts_atomic}
use vbus2mqtt.Config.Store.Calls.Outcomes.{
  all_to_count, good, overtaking, emptying, file_of, interleave-version, interleave-overtaking,
  interleave-emptying,
}
use vbus2mqtt.Tests.Samples.{stroke_durations, sample_config}

abbrev store : Store
store = record { cfg = sample_config; path = "/data/config.json"; version = 3 }

abbrev no_files : Files
no_files = record { content = λ i. broken; next = 0; main = none; tmp = none }

abbrev shared : Shared
shared = record { store = store; files = no_files }

abbrev to_debug : Config → Config
to_debug c = record c { log_level = "debug" }

abbrev to_text : Config → Config
to_text c = record c { log_format = "text" }

abbrev calls : List Stage
calls = change to_debug ∷ change to_text ∷ []

-- The first call fails to make its directory, the second one runs to its end.
abbrev uneven : List (ℕ × Answer)
uneven =
    map good (0 ∷ 0 ∷ 0 ∷ 1 ∷ 1 ∷ [])
    ++ (0, record { ok = false; left = emptied }) ∷ map good (1 ∷ 1 ∷ 1 ∷ 1 ∷ [])

interleave-version_example :
    let (cs', w') = interleave stroke_durations uneven calls shared in
    (w'.store.version + all_to_count cs') % 2 ^ 64 ≡ (3 + all_to_count calls) % 2 ^ 64
interleave-version_example = interleave-version stroke_durations uneven calls shared

path_ne : store.path ≢ ""
path_ne = cc

interleave-overtaking_example :
    let (cs, w) = interleave stroke_durations overtaking calls shared in
    (cs ≡ returned (some rename_failed) ∷ returned none ∷ [])
    × (w.store.cfg ≡ to_text (to_debug sample_config))
    × (file_of w.files ≡ some (whole (to_persisted stroke_durations (to_debug sample_config))))
interleave-overtaking_example =
    interleave-overtaking stroke_durations to_debug to_text store no_files path_ne

interleave-emptying_example :
    let (cs, w) = interleave stroke_durations emptying calls shared in
    (get_or cs 1 (change to_debug) ≡ returned none) × (file_of w.files ≡ some emptied)
interleave-emptying_example =
    interleave-emptying stroke_durations to_debug to_text store no_files path_ne

-- A file of an earlier configuration, and a call whose write fails halfway.
abbrev old_file : Files
old_file = record {
  content = λ i. whole (to_persisted stroke_durations sample_config);
  next = 1;
  main = some 0;
  tmp = none;
}

abbrev success : Answer
success = record { ok = true; left = broken }

abbrev failing_write : List Answer
failing_write =
    success ∷ success ∷ success ∷ success ∷ success ∷ record { ok = false; left = broken } ∷ []

abbrev good_call : List Answer
good_call = success ∷ success ∷ success ∷ success ∷ success ∷ success ∷ success ∷ []

run_parts_atomic_example :
    let (c, w) =
      run_parts stroke_durations failing_write
        (change to_debug)
        (record { store = store; files = old_file }) in
    (c ≢ returned none) × (file_of w.files ≡ file_of old_file)
    ⊎ (c ≡ returned none)
      × (file_of w.files ≡ some (whole (to_persisted stroke_durations (to_debug sample_config))))
run_parts_atomic_example =
    run_parts_atomic stroke_durations failing_write to_debug store old_file path_ne (omega arith)

-- The failed write is reported, and seven parts that succeed end the call.
run_parts-runs :
    ((run_parts stroke_durations failing_write
        (change to_debug)
        (record { store = store; files = old_file })).0
      ≡ returned (some write_failed))
    × ((run_parts stroke_durations good_call
          (change to_debug)
          (record { store = store; files = old_file })).0
        ≡ returned none)
unfolding run_parts proceed save_part rename_tmp open_tmp set_content
run_parts-runs = (refl, refl)
