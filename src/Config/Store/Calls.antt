-- ===== src/Config/Store/Calls.antt =====
-- `Update` of internal/config/store.go in the parts between which another call may run: the change
-- under the lock, the counter, the copy that `saveFile` takes under the read lock, and the system calls
-- of its file operations. `os.WriteFile` opens the file, which empties it, and then writes to what it
-- opened, under whatever name that is by then.
pub mod Alone
pub mod Outcomes
use Prim.Native.String.{String}
use text.Mathlib.Text.{◌==◌ as str_eq}
use vbus2mqtt.Prelude.{
  ℕ, zero, suc, ◌+◌, ◌%◌, ◌^◌, Bool, List, [], ◌∷◌, Option, none, some, ◌==◌, if◌then◌else◌,
}
use vbus2mqtt.Config.{Config, Durations}
use vbus2mqtt.Config.Store.{
  Persisted, Store, Result, mkdir_failed, write_failed, rename_failed, to_persisted,
}

-- What a file holds: nothing, a whole configuration, or anything else.
pub data Content : Type 0 where
  emptied : Content
  whole : Persisted → Content
  broken : Content

-- The files by number, the number of the next one, and the numbers under the two paths of the store.
pub record Files : Type 0 where
  pub content : ℕ → Content
  pub next : ℕ
  pub main : Option ℕ
  pub tmp : Option ℕ

pub record Shared : Type 0 where
  pub store : Store
  pub files : Files

-- What a call does next.
pub data Stage : Type 0 where
  change : (Config → Config) → Stage
  count_up : Stage
  copy : Stage
  make_directory : Config → Stage
  open_file : Config → Stage
  write : Config → ℕ → Stage
  rename : Stage
  returned : Result → Stage

-- How the system answers one call: whether it succeeds, and what a write leaves where it fails or
-- meets a file that another call has written to.
pub record Answer : Type 0 where
  pub ok : Bool
  pub left : Content

unfoldable pub set_content : ℕ → Content → Files → Files
set_content i c f = record f { content = λ j. if j == i then c else f.content j }

-- `O_CREATE | O_TRUNC` on the temporary path: its file, or a new one, emptied.
unfoldable pub open_tmp : Option ℕ → Files → ℕ × Files
open_tmp (some i) f = (i, set_content i emptied f)
open_tmp none f =
    (f.next, set_content f.next emptied (record f { next = f.next + 1; tmp = some f.next }))

-- A write from the start of a file.
unfoldable pub written : Answer → Persisted → Content → Content
written a p emptied = if a.ok then whole p else a.left
written a p _ = a.left

-- `os.Rename` of the temporary file, which needs one.
unfoldable pub rename_tmp : Answer → Option ℕ → Files → Stage × Files
rename_tmp a none f = (returned (some rename_failed), f)
rename_tmp a (some i) f =
    if a.ok
    then (returned none, record f { main = some i; tmp = none })
    else (returned (some rename_failed), f)

module _ (t : Durations) (a : Answer) where
  -- One part of `saveFile` behind its copy of the configuration.
  unfoldable pub save_part : Stage → Files → Stage × Files
  save_part (make_directory cfg) f =
      (if a.ok then open_file cfg else returned (some mkdir_failed), f)
  save_part (open_file cfg) f =
      if a.ok
      then (let (i, f') = open_tmp f.tmp f in (write cfg i, f'))
      else (returned (some write_failed), f)
  save_part (write cfg i) f = (
    if a.ok then rename else returned (some write_failed),
    set_content i (written a (to_persisted t cfg) (f.content i)) f,
  )
  save_part rename f = rename_tmp a f.tmp f
  save_part c f = (c, f)

  -- One part of a call.
  unfoldable pub proceed : Stage → Shared → Stage × Shared
  proceed (change fn) w = (count_up, record w { store = record w.store { cfg = fn w.store.cfg } })
  proceed count_up w = (
    if str_eq w.store.path "" then returned none else copy,
    record w { store = record w.store { version = (w.store.version + 1) % 2 ^ 64 } },
  )
  proceed copy w = (make_directory w.store.cfg, w)
  proceed c w = let (c', f) = save_part c w.files in (c', record w { files = f })

module _ (t : Durations) where
  -- The call of a number takes its next part.
  unfoldable pub proceed_nth : Answer → ℕ → List Stage → Shared → List Stage × Shared
  proceed_nth a n [] w = ([], w)
  proceed_nth a zero (c ∷ cs) w = let (c', w') = proceed t a c w in (c' ∷ cs, w')
  proceed_nth a (suc n) (c ∷ cs) w = let (cs', w') = proceed_nth a n cs w in (c ∷ cs', w')

  -- Calls side by side, in the order of a schedule that also has the answer to each part.
  unfoldable pub interleave : List (ℕ × Answer) → List Stage → Shared → List Stage × Shared
  interleave [] cs w = (cs, w)
  interleave ((n, a) ∷ ns) cs w = let (cs', w') = proceed_nth a n cs w in interleave ns cs' w'
