-- ===== src/Registry.antt =====
-- rocketcat_shell/registry.py: `BotRegistry.save`, which writes two files or none, with `write_json` of
-- rocketcat_shell/settings.py. Files are a dictionary from paths to contents; what JSON makes of the
-- bots is a parameter, and so is the path of the temporary file.
mod Atomic
mod Tests
use rocket_cat_shell_linux.Base.{Bool, true, false, Option, none, some, if◌then◌else◌}
use rocket_cat_shell_linux.Base.Dict.{Dict, get, put, remove}
use rocket_cat_shell_linux.Base.Text.{Text, text_key}

abbrev pub Files : Type 0
Files = Dict Text Text

-- Where a write raises: before the temporary file is opened, while it is written, with what it has by
-- then, or when it takes the place of the file.
pub data Fault : Type 0 where
  no_fault before_opening at_replace : Fault
  while_writing : Text → Fault

-- `_restore_snapshot`
unfoldable pub restore_snapshot : Text → Option Text → Files → Files
restore_snapshot path none files = remove files path
restore_snapshot path (some payload) files = put files path payload

-- The handler of the exception: both files, from what was read before.
unfoldable pub roll_back : Text → Text → Files → Files → Files
unfolding restore_snapshot
roll_back path transport_path previous files =
    restore_snapshot transport_path (get previous transport_path)
      (restore_snapshot path (get previous path) files)

module _ (temp_path : Text → Text) where
  -- `true`: it raised.
  unfoldable pub write_json : Fault → Text → Text → Files → Bool × Files
  write_json no_fault path content files =
      (false, put (remove (put files (temp_path path) content) (temp_path path)) path content)
  write_json before_opening path content files = (true, files)
  write_json (while_writing part) path content files = (true, put files (temp_path path) part)
  write_json at_replace path content files = (true, put files (temp_path path) content)

  -- `save`, with the faults of the two writes and the contents of the two files.
  unfoldable pub save : Text → Text → Fault → Fault → Text → Text → Files → Bool × Files
  unfolding write_json roll_back
  save path transport_path first second registry transports files =
      let one = write_json first path registry files in
      let two = write_json second transport_path transports one.1 in
      if one.0
      then (true, roll_back path transport_path files one.1)
      else if two.0
      then (true, roll_back path transport_path files two.1)
      else (false, two.1)
