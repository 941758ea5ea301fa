-- ===== src/Guard/Watch.antt =====
-- crates/daimon-guard/src/kill_switch.rs: the tasks that `spawn_watchers` starts, the file watcher and
-- the handler of SIGUSR1, which run interleaved at their `await`s.
pub mod Rounds
use daimon.Common.{◌≡◌, Bool, true, false, Option, none, some, List, [], ◌∷◌, ◌++◌}
use daimon.Common.Text.{Text, codes, trim}
use daimon.Guard.Kill.{KillState, new, engage, release}

-- The file, which may not be readable as a text.
pub data File : Type 0 where
  absent unreadable : File
  holding : Text → File

-- Where the watcher stands: before the next tick, after `try_exists`, after `read_to_string`.
pub data Watcher : Type 0 where
  waiting : Watcher
  saw : (exists : Bool) → Watcher
  read : (reason : Text) → Watcher

-- Where the handler stands: before the next signal, after the write.
pub data Handler : Type 0 where
  listening written : Handler

pub record Switch : Type 0 where
  pub file : File
  pub kill : KillState
  pub last : Bool
  pub watcher : Watcher
  pub handler : Handler

unfoldable pub spawn_watchers : File → Switch
unfolding new
spawn_watchers file = record {
  file = file;
  kill = new;
  last = false;
  watcher = waiting;
  handler = listening;
}

unfoldable pub exists_file : File → Bool
exists_file absent = false
exists_file _ = true

unfoldable pub read_file : File → Text
read_file (holding t) = t
read_file _ = codes "file present"

unfoldable pub or_present : Text → Text → Text
or_present path [] = codes "KILL file present at " ++ path
or_present path (c ∷ t) = c ∷ t

unfoldable pub reason_of : Text → File → Text
unfolding trim read_file or_present
reason_of path file = or_present path (trim (read_file file))

-- After `try_exists`, given `last`.
unfoldable pub compare_last : Text → Bool → Bool → Switch → Switch
unfolding reason_of release
compare_last path true false s = record s { watcher = read (reason_of path s.file) }
compare_last path false true s = record s { kill = release s.kill; last = false; watcher = waiting }
compare_last path _ _ s = record s { watcher = waiting }

-- From one `await` of the watcher to the next.
unfoldable pub watcher_step : Text → Watcher → Switch → Switch
unfolding exists_file compare_last engage
watcher_step path waiting s = record s { watcher = saw (exists_file s.file) }
watcher_step path (saw exists) s = compare_last path exists s.last s
watcher_step path (read reason) s = record s {
  kill = engage reason s.kill;
  last = true;
  watcher = waiting;
}

-- A signal arrives and the file is written, if it can be.
unfoldable pub signal : Bool → Switch → Switch
signal true s = record s {
  file = holding (codes "engaged via SIGUSR1" ++ 10 ∷ []);
  handler = written;
}
signal false s = record s { handler = written }

unfoldable pub engage_handler : Switch → Switch
unfolding engage
engage_handler s = record s { kill = engage (codes "SIGUSR1 received") s.kill; handler = listening }

-- One step of a task or of an operator, who may write or remove the file at any time.
pub data Step (path : Text) : Switch → Switch → Type 0 where
  watches : (s : Switch) → Step path s (watcher_step path s.watcher s)
  probe_fails : (s : Switch) → s.watcher ≡ waiting → Step path s (record s { watcher = saw false })
  signals : (ok : Bool) → (s : Switch) → s.handler ≡ listening → Step path s (signal ok s)
  handles : (s : Switch) → s.handler ≡ written → Step path s (engage_handler s)
  operates : (file : File) → (s : Switch) → Step path s (record s { file = file })

pub data Reach (path : Text) : Switch → Type 0 where
  starts : (file : File) → Reach path (spawn_watchers file)
  goes : {s t : Switch} → Reach path s → Step path s t → Reach path t
