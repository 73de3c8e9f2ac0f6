-- ===== src/Engine/Recover.antt =====
-- What is recovered from the journal of an engine when the process ended at any moment.
use rocket_cat_shell_linux.Base.{
  ℕ, ◌≤◌, ◌<◌, ◌≡◌, refl, ap, ◌∙◌, String, Option, some, List, [], ◌∷◌, map, take, length, All,
}
use rocket_cat_shell_linux.Base.Result.{ok}
use rocket_cat_shell_linux.Engine.{Engine}
use rocket_cat_shell_linux.Engine.Records.{Record, records, apply_records, Call, execute_all}
use rocket_cat_shell_linux.Engine.Replay.{IsReplayed, replay-execute_all}
use rocket_cat_shell_linux.Engine.Trim.{IsValid}
use rocket_cat_shell_linux.Journal.{Bytes, Pickle, iter_records, write_record, write_records}
use rocket_cat_shell_linux.Journal.Crash.{iter_records-torn}
use rocket_cat_shell_linux.Journal.Frame.{IsRecord}

-- The dict that stands for a record, and what is read of a dict.
pub record Encoding (p : Pickle) : Type 0 where
  pub encode : Record → p.Object
  pub decode : p.Object → Record

module _ (strip : String → String) (decimal : ℕ → String) (p : Pickle) (enc : Encoding p) where
  -- `replay_journal`
  unfoldable pub replay_journal : Option Bytes → Engine → Engine
  replay_journal journal s =
      apply_records strip decimal (records (map enc.decode (iter_records p journal).records)) s

  -- A record that is read as it was.
  abbrev pub IsReadBack : Record → Type 0
  IsReadBack r = enc.decode (enc.encode r) ≡ r

  decode_each : (l : List Record) → All IsReadBack l → map enc.decode (map enc.encode l) ≡ l
  decode_each [] h = refl
  decode_each (r ∷ l) h = rw h.0 (ap (◌∷◌ r) (decode_each l h.1))

  -- The writer has written the records of some calls to an empty journal, in order, and the file then
  -- ends anywhere within the next record, or at its beginning. Replaying it in the valid
  -- state before the calls gives the state after them. The calls allocate, put, bind, rebuild the
  -- messages for active mappings or rebuild the window, not the calls that write no record; they name
  -- their sources, and no user of the numbering that was given up. The records are read as they were,
  -- from dicts with dumps below 2^32 bytes.
  pub recover-torn :
      (l : List Call) (s : Engine) (next_record : Record) (journal longer : Bytes) (n : ℕ)
      → IsValid s
      → All IsReplayed l
      → All IsReadBack (execute_all strip decimal l s).0
      → All (IsRecord p) (map enc.encode (execute_all strip decimal l s).0)
      → IsRecord p (enc.encode next_record)
      → write_records p [] (map enc.encode (execute_all strip decimal l s).0) ≡ ok journal
      → write_record p journal (enc.encode next_record) ≡ ok longer
      → length journal ≤ n
      → n < length longer
      → replay_journal (some (take n longer)) s ≡ (execute_all strip decimal l s).1
  unfolding replay_journal
  recover-torn l s r journal longer n valid current read good last written more low high =
      let wrote : List Record = (execute_all strip decimal l s).0 in
      ap (λ (q : List p.Object). apply_records strip decimal (records (map enc.decode q)) s)
        (iter_records-torn p (map enc.encode wrote) good journal written (enc.encode r) longer n
          last more low high)
      ∙ ap (λ (q : List Record). apply_records strip decimal (records q) s) (decode_each wrote read)
      ∙ replay-execute_all strip decimal l s valid current
