-- ===== src/Config/Store/Files.antt =====
-- `saveFile` and `Update` of internal/config/store.go, whatever the file system answers.
use text.Mathlib.TextEquality.{eq_iff}
use vbus2mqtt.Prelude.{◌+◌, ◌%◌, ◌^◌, ◌≡◌, ◌≢◌, ◌⊎◌, none, arith}
use vbus2mqtt.Config.{Config, Durations}
use vbus2mqtt.Config.Store.{holds, missing, Disk, Store, Answers, to_persisted, save_file, update}

module _ (t : Durations) where
  -- The file is never half written: either `saveFile` reports no error, and the file holds the whole
  -- configuration with no temporary file beside it, or it reports an error, and the file is as it was.
  pub save_file_atomic :
      (a : Answers) (cfg : Config) (disk : Disk)
      → ((save_file t a cfg disk).1 ≡ none)
          × ((save_file t a cfg disk).0
              ≡ record { main = holds (to_persisted t cfg); tmp = missing })
        ⊎ ((save_file t a cfg disk).1 ≢ none) × ((save_file t a cfg disk).0.main ≡ disk.main)
  unfolding save_file
  save_file_atomic a cfg disk = ground arith

  -- `Update` applies the function to the shared configuration and counts the version up, modulo
  -- 2 ^ 64, whether or not the file could be written. With no path it reports no error and writes
  -- nothing; with a path it reports no error and the file holds the new configuration, or it reports
  -- an error and the file is as it was.
  pub update_lem :
      (a : Answers) (fn : Config → Config) (s : Store) (disk : Disk)
      → let (s', disk', result) = update t a fn s disk in
        (s' ≡ record { cfg = fn s.cfg; path = s.path; version = (s.version + 1) % 2 ^ 64 })
        × ((s.path ≡ "") × (result ≡ none) × (disk' ≡ disk)
            ⊎ ((s.path ≢ "") × (result ≡ none) × (disk'.main ≡ holds (to_persisted t (fn s.cfg)))
                ⊎ (s.path ≢ "") × (result ≢ none) × (disk'.main ≡ disk.main)))
  unfolding update
  update_lem a fn s disk = ground (arith, eq_iff s.path "", save_file_atomic a (fn s.cfg) disk)
