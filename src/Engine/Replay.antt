-- ===== src/Engine/Replay.antt =====
-- The replay of what calls have written gives the state that the calls gave.
use rocket_cat_shell_linux.Base.{
  string_key, ℕ, ◌≡◌, refl, ap, ◌∙◌, String, List, [], ◌∷◌, ◌++◌, All, arith,
}
use rocket_cat_shell_linux.Engine.{Engine, trim_message_window}
use rocket_cat_shell_linux.Engine.Records.{
  Record, batch, records, apply_record, apply_records, Call, allocates, puts, binds_private,
  binds_context, rebuilds, rebuilds_window, resizes, purges, replaces_private,
  rebuild_message_window, execute, execute_all,
}
use rocket_cat_shell_linux.Engine.Trim.{IsValid, trim_loop-fits}
use rocket_cat_shell_linux.Engine.Window.{KeepsSize, execute-IsValid}
use rocket_cat_shell_linux.Engine.Written.{IsCurrent, replayed, replay-execute}

-- Such a call, or a rebuild of the window.
abbrev pub IsReplayed : Call → Type 0
IsReplayed rebuilds_window = Unit
IsReplayed c = IsCurrent c

module _ (strip : String → String) (decimal : ℕ → String) where
  apply_records-append :
      (l r : List Record) (s : Engine)
      → apply_records strip decimal (records (l ++ r)) s
        ≡ apply_records strip decimal (records r) (apply_records strip decimal (records l) s)
  unfolding apply_record
  apply_records-append [] r s = refl
  apply_records-append (q ∷ l) r s = apply_records-append l r (apply_record strip decimal q s)

  replay-rest :
      (c : Call) (l : List Call) (s : Engine)
      → apply_records strip decimal (records (execute strip decimal c s).0) s
        ≡ (execute strip decimal c s).1
      → apply_records strip decimal
          (records (execute_all strip decimal l (execute strip decimal c s).1).0)
          (execute strip decimal c s).1
        ≡ (execute_all strip decimal l (execute strip decimal c s).1).1
      → apply_records strip decimal (records (execute_all strip decimal (c ∷ l) s).0) s
        ≡ (execute_all strip decimal (c ∷ l) s).1
  unfolding execute_all
  replay-rest c l s first rest =
      let mid : Engine = (execute strip decimal c s).1 in
      apply_records-append (execute strip decimal c s).0 (execute_all strip decimal l mid).0 s
      ∙ ap (apply_records strip decimal (records (execute_all strip decimal l mid).0)) first
      ∙ rest

  -- The calls that may be made through a batch, in any state.
  pub replay-batched :
      (l : List Call) (s : Engine)
      → All IsCurrent l
      → apply_records strip decimal (records (execute_all strip decimal l s).0) s
        ≡ (execute_all strip decimal l s).1
  unfolding execute_all apply_record
  replay-batched [] s h = refl
  replay-batched (c ∷ l) s h =
      replay-rest c l s (replay-execute strip decimal c s h.0)
        (replay-batched l (execute strip decimal c s).1 h.1)

  -- A window that is not exceeded is left as it is by its rebuild.
  rebuild-none : (s : Engine) → IsValid s → execute strip decimal rebuilds_window s ≡ ([], s)
  unfolding execute rebuild_message_window trim_message_window
  rebuild-none s v =
      let same = trim_loop-fits strip decimal s.message_order s refl v.within in
      rw same (ground arith)

  replay-valid :
      (c : Call) (s : Engine)
      → IsValid s
      → IsReplayed c
      → apply_records strip decimal (records (execute strip decimal c s).0) s
        ≡ (execute strip decimal c s).1
  unfolding apply_record
  replay-valid rebuilds_window s v h =
      replayed strip decimal rebuilds_window s (rebuild-none s v) refl
  replay-valid (allocates ns source) s v h = replay-execute strip decimal (allocates ns source) s h
  replay-valid (puts e) s v h = replay-execute strip decimal (puts e) s h
  replay-valid (binds_private user n r) s v h =
      replay-execute strip decimal (binds_private user n r) s h
  replay-valid (binds_context e) s v h = replay-execute strip decimal (binds_context e) s h
  replay-valid (rebuilds active) s v h = replay-execute strip decimal (rebuilds active) s h
  replay-valid (resizes n) s v h = absurd h
  replay-valid purges s v h = absurd h
  replay-valid (replaces_private bindings) s v h = absurd h

  -- Replaying in order the records of a sequence of calls, in the valid state before the first, gives
  -- the state after the last. The calls allocate, put, bind, rebuild the messages for active mappings
  -- or rebuild the window: none sets the window's size, purges the state of the old users or replaces
  -- the bindings of private rooms, which write no record. They name their sources, and no user of the
  -- numbering that was given up.
  pub replay-execute_all :
      (l : List Call) (s : Engine)
      → IsValid s
      → All IsReplayed l
      → apply_records strip decimal (records (execute_all strip decimal l s).0) s
        ≡ (execute_all strip decimal l s).1
  unfolding execute_all apply_record
  replay-execute_all [] s v h = refl
  replay-execute_all (c ∷ l) s v h = replay-rest c l s (replay-valid c s v h.0) (
      replay-execute_all l (execute strip decimal c s).1
        (execute-IsValid strip decimal c s (sized c h.0) v) h.1)
    where
      sized : (q : Call) → IsReplayed q → KeepsSize q
      sized (allocates ns source) k = tt
      sized (puts e) k = tt
      sized (binds_private user n q) k = tt
      sized (binds_context e) k = tt
      sized (rebuilds active) k = tt
      sized rebuilds_window k = tt
      sized (resizes n) k = absurd k
      sized purges k = absurd k
      sized (replaces_private bindings) k = absurd k

  -- A batch is what its records are one by one.
  pub apply-batch :
      (l : List Record) (s : Engine)
      → apply_record strip decimal (batch (records l)) s ≡ apply_records strip decimal (records l) s
  unfolding apply_record
  apply-batch l s = refl
