-- ===== src/Engine/Batch.antt =====
-- A batch that is committed, and a window that was made smaller.
use rocket_cat_shell_linux.Base.{
  ℕ, ◌≡◌, ◌<◌, Option, none, some, arith, refl, sym, ap, ◌∙◌, String, false, List, [], ◌∷◌, ◌++◌,
  All,
}
use rocket_cat_shell_linux.Engine.{Engine, trim_message_window, trim_loop}
use rocket_cat_shell_linux.Engine.Queries.{MutationBatch, begin_batch, batch_call, commit}
use rocket_cat_shell_linux.Engine.Control.{set_message_window_size}
use rocket_cat_shell_linux.Base.Int.{ℤ, pos, negsuc}
use rocket_cat_shell_linux.IdMap.{normalize_message_window_size}
use rocket_cat_shell_linux.Engine.Records.{
  Record, records, apply_record, apply_records, Call, execute, execute_all, rebuild_message_window,
}
use rocket_cat_shell_linux.Engine.Replay.{replay-batched}
use rocket_cat_shell_linux.Engine.Written.{IsCurrent}
use rocket_cat_shell_linux.Engine.Trim.{IsWithin, IsValid, trim_loop-IsWithin, trim_loop-window}
use mathlib.Core.Path.{subst}
use mathlib.Core.List.{append_assoc, append-nil}

module _ (strip : String → String) (decimal : ℕ → String) where
  -- The calls of a translator, through one batch.
  pub batch_all : List Call → MutationBatch → Engine → MutationBatch × Engine
  unfolding batch_call
  batch_all [] b s = (b, s)
  batch_all (c ∷ l) b s =
      let (next, after) = batch_call strip decimal c b s in batch_all l next after

  batch_all-execute_all :
      (l : List Call) (b : MutationBatch) (s : Engine)
      → batch_all l b s ≡ (
        record b { mutations = b.mutations ++ (execute_all strip decimal l s).0 },
        (execute_all strip decimal l s).1,
      )
  unfolding batch_all batch_call execute_all
  batch_all-execute_all [] b s =
      ap (λ (m : List Record). (record b { mutations = m }, s)) (sym (append-nil b.mutations))
  batch_all-execute_all (c ∷ l) b s =
      let first : List Record × Engine = execute strip decimal c s in
      batch_all-execute_all l (record b { mutations = b.mutations ++ first.0 }) first.1
      ∙ ap
          (λ (m : List Record).
            (record b { mutations = m }, (execute_all strip decimal l first.1).1))
          (append_assoc b.mutations first.0 (execute_all strip decimal l first.1).0)

  commit-replay :
      (m : List Record) (s : Engine)
      → apply_records strip decimal
          (records (commit (record { mutations = m; committed = false })).0)
          s
        ≡ apply_records strip decimal (records m) s
  unfolding commit apply_record
  commit-replay [] s = refl
  commit-replay (r ∷ m) s = refl

  -- The one record that the batch of some calls writes when it is committed gives, replayed in the
  -- state before them, the state after them. The calls are those that may be made through a batch; they
  -- name their sources, and no user of the numbering that was given up.
  pub replay-commit :
      (l : List Call) (s : Engine)
      → All IsCurrent l
      → apply_records strip decimal (records (commit (batch_all l begin_batch s).0).0) s
        ≡ (batch_all l begin_batch s).1
  unfolding begin_batch
  replay-commit l s h =
      let e = batch_all-execute_all l begin_batch s in
      ap (λ (q : MutationBatch × Engine). apply_records strip decimal (records (commit q.0).0) s) e
      ∙ commit-replay (execute_all strip decimal l s).0 s
      ∙ replay-batched strip decimal l s h
      ∙ sym (ap (λ (q : MutationBatch × Engine). q.1) e)

  pos-normalize : (n : Option ℤ) → 0 < normalize_message_window_size n
  unfolding normalize_message_window_size
  pos-normalize none = omega arith
  pos-normalize (some (pos n)) = ground arith
  pos-normalize (some (negsuc n)) = omega arith

  -- Whatever the size of a valid engine's window is set to, after the rebuild the engine is valid for
  -- that size as it is normalised, and this is not 0.
  pub rebuild_message_window-IsValid :
      (n : Option ℤ) (s : Engine)
      → IsValid s
      → IsValid (rebuild_message_window strip decimal (set_message_window_size n s)).1
        × ((rebuild_message_window strip decimal
              (set_message_window_size n s)).1.message_window_size
            ≡ normalize_message_window_size n)
        × (0 < normalize_message_window_size n)
  unfolding rebuild_message_window set_message_window_size trim_message_window
  rebuild_message_window-IsValid n s v =
      let size : ℕ = normalize_message_window_size n in
      let sized : Engine = record s { message_window_size = size } in
      let same = trim_loop-window strip decimal size s.message_order sized in
      (
        subst (λ (b : ℕ). IsWithin b (trim_loop strip decimal size s.message_order sized))
            (sym same)
            (trim_loop-IsWithin strip decimal size s.message_order sized v.consistent v.ordered
              (omega arith)),
        same,
        pos-normalize n,
      )
