-- ===== src/Engine/Queries.antt =====
-- What is read of the engine, and the batches of mutations.
use rocket_cat_shell_linux.Base.{
  ℕ, ◌-◌, String, Bool, true, false, ◌&&◌, not, Option, none, some, List, [], ◌∷◌, ◌++◌, ltb,
  if◌then◌else◌, nat_key, string_key, pair_key,
}
use rocket_cat_shell_linux.Base.Dict.{get}
use rocket_cat_shell_linux.IdMap.{Namespace, table}
use rocket_cat_shell_linux.Storage.{MessageEntry, Fragment, ContextEntry, text_if_set}
use rocket_cat_shell_linux.Engine.{Engine}
use rocket_cat_shell_linux.Engine.Records.{Record, batch, records, Call, execute}

pub get_source : Namespace → ℕ → Engine → Option String
get_source ns n s = get (table s.tables ns).reverse n

pub get_surrogate : Namespace → String → Engine → Option ℕ
get_surrogate ns source s = get (table s.tables ns).forward source

pub get_message_by_source : String → Engine → Option MessageEntry
get_message_by_source source s = get s.messages.by_source source

pub get_message_by_surrogate : ℕ → Engine → Option MessageEntry
get_message_by_surrogate n s = get s.messages.by_surrogate n

pub get_room_by_user_source : String → Engine → Option String
get_room_by_user_source user s = get s.private_rooms.by_user_source user

pub get_room_by_user_surrogate : ℕ → Engine → Option String
get_room_by_user_surrogate n s = get s.private_rooms.by_user_surrogate n

pub get_context_room_by_source : String → Engine → Option ContextEntry
get_context_room_by_source source s = get s.context_rooms.by_context_source source

pub get_context_room_by_surrogate : ℕ → Engine → Option ContextEntry
get_context_room_by_surrogate n s = get s.context_rooms.by_context_surrogate n

-- The greatest age, if there is one, and the time now.
pub get_latest_context_entry : String → String → Option ℕ → ℕ → Engine → Option Fragment
get_latest_context_entry context sender age now s = elim (get s.messages.latest (context, sender)) [
  | none ↦ none
  | some fragment ↦ elim age [
    | none ↦ some fragment
    | some seconds ↦
        if ltb 0 fragment.timestamp && ltb seconds (now - fragment.timestamp)
        then none
        else some fragment
  ]
]

abbrev pub field_if_set : (Fragment → String) → (String → String) → Option Fragment → Option String
field_if_set field strip none = none
field_if_set field strip (some f) = text_if_set (strip (field f))

module _ (strip : String → String) (decimal : ℕ → String) where
  pub get_latest_room_by_context_sender : String → String → Option ℕ → ℕ → Engine → Option String
  unfolding get_latest_context_entry
  get_latest_room_by_context_sender context sender age now s =
      field_if_set (λ f. f.room_source_id) strip (get_latest_context_entry context sender age now s)

  pub get_latest_thread_by_context_sender : String → String → Option ℕ → ℕ → Engine → Option String
  unfolding get_latest_context_entry
  get_latest_thread_by_context_sender context sender age now s =
      field_if_set (λ f. f.thread_source_id) strip
        (get_latest_context_entry context sender age now s)

-- `RuntimeStateMutationBatch`
pub record MutationBatch : Type 0 where
  pub mutations : List Record
  pub committed : Bool

unfoldable pub begin_batch : MutationBatch
begin_batch = record { mutations = []; committed = false }

abbrev pub is_nil : List Record → Bool
is_nil [] = true
is_nil (r ∷ l) = false

pub has_pending : MutationBatch → Bool
has_pending b = not (is_nil b.mutations) && not b.committed

module _ (strip : String → String) (decimal : ℕ → String) where
  -- The methods of a batch, which allocate, put and bind, change the state at once and keep the record.
  unfoldable pub batch_call : Call → MutationBatch → Engine → MutationBatch × Engine
  batch_call c b s =
      let (written, after) = execute strip decimal c s in
      (record b { mutations = b.mutations ++ written }, after)

-- What is given to the writer, and the batch afterwards.
unfoldable pub commit : MutationBatch → List Record × MutationBatch
commit b = if b.committed then ([], b) else (
  (if is_nil b.mutations then [] else batch (records b.mutations) ∷ []),
  record b { committed = true },
)
