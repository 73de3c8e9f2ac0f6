-- ===== src/Journal.antt =====
-- The journal file of rocketcat_shell/bridge/hot_storage.py: `_write_record` appends a frame, a
-- 32-bit little-endian length and the pickled record; `iter_records` reads the frames back.
pub mod Frame
pub mod Crash
mod Tests
use rocket_cat_shell_linux.Base.{
  ℕ, zero, suc, ◌+◌, ◌*◌, ◌/◌, ◌%◌, ◌<◌, ◌≡◌, Bool, true, false, Option, none, some, List, [], ◌∷◌,
  ◌++◌, ltb, if◌then◌else◌, length, take, drop,
}
use rocket_cat_shell_linux.Base.Result.{Result, ok, raise, ◌>>=◌}

abbrev pub Bytes : Type 0
Bytes = List ℕ

-- Python's `pickle`, which is not part of the program: what is loaded from a dumped record is that
-- record, and a dump is not empty.
pub record Pickle : Type 1 where
  pub Object : Type 0
  pub is_dict : Object → Bool
  pub dumps : Object → Bytes
  pub loads : Bytes → Option Object
  pub loads-dumps : (o : Object) → loads (dumps o) ≡ some o
  pub dumps_pos : (o : Object) → 0 < length (dumps o)

pub data Error : Type 0 where
  struct_error : Error

-- `struct.pack("<I", n)`
unfoldable pub pack : ℕ → Result Error Bytes
pack n =
    if ltb n 4294967296
    then ok (n % 256 ∷ n / 256 % 256 ∷ n / 65536 % 256 ∷ n / 16777216 ∷ [])
    else raise struct_error

-- `struct.unpack("<I", header)` of four bytes
pub unpack : Bytes → ℕ
unpack (a ∷ b ∷ c ∷ d ∷ _) = a + b * 256 + c * 65536 + d * 16777216
unpack _ = 0

-- Why the reading of a journal ends.
pub data Stop : Type 0 where
  end_of_file : Stop
  truncated_header invalid_size truncated_payload undecodable not_a_dict : Stop
  out_of_fuel : Stop

module _ (p : Pickle) where
  open p use {Object, is_dict, dumps, loads}

  -- The file after `_write_record`, or the exception, raised before anything is written.
  unfoldable pub write_record : Bytes → Object → Result Error Bytes
  unfolding pack
  write_record journal o = do header ← pack (length (dumps o)); ok (journal ++ (header ++ dumps o))

  pub record Reading : Type 0 where
    pub records : List Object
    pub stop : Stop

  abbrev pub with_record : Object → Reading → Reading
  with_record o r = record { records = o ∷ r.records; stop = r.stop }

  abbrev pub stopped : Stop → Reading
  stopped s = record { records = []; stop = s }

  -- What is made of a complete payload; `rest` is the reading of what follows.
  pub take_payload : Bytes → Reading → Reading
  take_payload payload rest = elim (loads payload) [
    | none ↦ stopped undecodable
    | some o ↦ if is_dict o then with_record o rest else stopped not_a_dict
  ]

  -- What follows a header that gives `size`.
  pub take_frame : ℕ → Bytes → Reading → Reading
  unfolding take_payload
  take_frame size body rest =
      let payload = take size body in
      if ltb 0 size
      then (if ltb (length payload) size
          then stopped truncated_payload
          else take_payload payload rest)
      else stopped invalid_size

  -- The loop of `iter_records` over what is left of the file. Each round takes at least a byte of
  -- it, so its length is fuel enough.
  pub iter_from : ℕ → Bytes → Reading
  iter_from fuel [] = stopped end_of_file
  iter_from zero (b ∷ s) = stopped out_of_fuel
  iter_from (suc fuel) (b ∷ s) =
      let header = take 4 (b ∷ s) in
      let body = drop 4 (b ∷ s) in
      let rest = iter_from fuel (drop (unpack header) body) in
      if ltb (length header) 4
      then stopped truncated_header
      else take_frame (unpack header) body rest

  -- `none`: there is no journal file.
  pub iter_records : Option Bytes → Reading
  unfolding iter_from
  iter_records none = stopped end_of_file
  iter_records (some journal) = iter_from (length journal) journal

  -- The writer's calls for a list of records.
  unfoldable pub write_records : Bytes → List Object → Result Error Bytes
  unfolding write_record
  write_records journal [] = ok journal
  write_records journal (o ∷ l) = do next ← write_record journal o; write_records next l
