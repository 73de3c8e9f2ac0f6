-- ===== src/Lib.antt =====
-- Verification of RocketCatShell, the bridge between Rocket.Chat and OneBot.
--
-- Base holds what the other modules share: tests, lists, Python's `dict` as an association list in
-- insertion order (Base.Dict), `sorted` over its items (Base.Sort, Base.Cut), exceptions as values.
--
-- IdMap models rocketcat_shell/bridge/id_map.py, the class `DurableIdMap`. A payload has one table
-- per namespace, with `counters`, `forward` and `reverse`; `get_or_create`, `get_source`,
-- `get_surrogate` and `rebuild_message_window` take what the JSON file holds (`none`: no file) and
-- return it anew. The decimal keys of `reverse` are numbers here. `JsonStore` serialises its callers
-- by a lock, so each call is one step.
--
-- Codec models the CQ codes of rocketcat_shell/bridge/transports/codec.py over texts as lists of code
-- points: `_escape_text`, `_escape_param`, `_unescape`, `segments_to_cq`, and `cq_to_segments` with the
-- regular expression `_CQ_PATTERN` as a matcher. The scan has the length of the source as fuel.
--
-- Journal models the file format of the runtime journal, `_write_record` and `iter_records` of
-- rocketcat_shell/bridge/hot_storage.py, over the bytes of the file. Python's pickle is a parameter.
-- The reader has the length of the file as fuel.
--
-- Identity models `UserIdentityRegistry` of rocketcat_shell/bridge/user_identity.py, which gives every
-- Rocket.Chat user a number of eleven digits: Identity has the tables of its database and the
-- statements that change them, Identity.Methods `ensure_mapping_sync` and `ensure_mappings_sync`,
-- Identity.Manage `override_onebot_id_sync`, `delete_mapping_sync` and `_touch_bot_user`. SHA-256 is a
-- parameter, and the texts come stripped. The probing has as many offsets as there are numbers as fuel,
-- like the loop. The lock makes each call one step. The caches, and so the calls they answer, the lists
-- and the warning files are not modelled.
--
-- Compat models rocketcat_shell/bridge/rocketchat_compat.py: the parser of `RocketChatVersion`, the
-- order of versions, and `RocketChatCapabilities.from_version`. Which characters are spaces and digits
-- is a parameter.
--
-- Media models rocketcat_shell/bridge/media_publication.py, the class `MediaPublicationService`: Media
-- has the state and the removal of entries, Media.Urls `publish`, `resolve` and the URLs. The file
-- system, the environment, the random token and what is used of Python's library are parameters.
--
-- Dispatcher models rocketcat_shell/bridge/transports/action_dispatcher.py, the class
-- `OneBotActionDispatcher`. What happens between two awaits is one step of Dispatcher.Steps: workers
-- take requests, get the lock of a target, end, are cancelled, and are replaced, in any order. An
-- action is any time between getting the lock and ending. The responses, the metrics and the end of
-- `stop` are not modelled.
--
-- Storage models rocketcat_shell/bridge/storage.py: `MessageStore` with the rewriting of surrogate
-- numbers and the last places of senders, `PrivateRoomStore` and `ContextRoomStore`.
--
-- Engine models `RuntimeStateEngine` of rocketcat_shell/bridge/hot_storage.py: Engine has the state and
-- its operations, Engine.Control what the start of a bot changes besides, Engine.Records the records of
-- the journal, what a call writes and what the replay makes of it, Engine.Queries what is read, and the
-- batches. The proofs stand in Engine.Trim and Engine.Window for the numbers and the window, in
-- Engine.Written and Engine.Replay for the replay, and in Engine.Batch. A method changes the state under
-- the lock and gives its record to the writer after it; here no other call comes in between. What
-- `set_message_window_size`, `purge_legacy_user_dependent_state` and
-- `replace_private_room_surrogate_bindings` change stands in no record, and the record of a
-- `rebuild_message_window` that drops messages does not bring its state back. Engine.Recover puts the
-- engine on top of Journal; how the dict of a record is encoded is a parameter there. `str.strip` and
-- the text of an integer are parameters. The snapshots are not modelled.
--
-- Writer models `JournalPersistenceWorker` of the same file, the thread that writes the journal. A round
-- of the loop of `_run` is one step, and so is `put_nowait`; steps come in any order. A batch that comes
-- while a round coalesces is one that came before it. A write that fails is not modelled.
--
-- Tags models `parse_tag` and `compare_tags` of rocketcat_shell/update_manifest.py. What Python's `\d`
-- stands for beyond the ten digits is a parameter. Manifest models the validation of paths of the same
-- file, and Manifest.Check `validate_manifest`. The files of the release are a record of what is asked of
-- them; the digests, `str.casefold` and `str.lower` are parameters. A field of the manifest that is
-- missing or of another type than `build_manifest` writes is `none` or an empty list; the exceptions that
-- Python itself raises for some of these are not modelled.
--
-- Registry models `BotRegistry.save` of rocketcat_shell/registry.py with `write_json` of
-- rocketcat_shell/settings.py: where each write fails is a parameter. That putting a file back fails is
-- not modelled, nor the loading of the bots.
--
-- Updater models tools/update_helper.py. Updater has the disk and the code as a sequence of effects, each
-- of which may raise or be the last before the process is killed; Updater.Helper models `_backup`,
-- `_install` and `_restore`, Updater.Transact `apply_transaction` and `recover_transactions`, and Updater.Watch
-- `watch_transaction`. Links, special files, the contents of the candidate, the interpreter, the choice
-- among several transactions and what the health checks ask are not modelled.
pub mod Base
pub mod Codec
pub mod Compat
pub mod Dispatcher
pub mod Engine
pub mod IdMap
pub mod Identity
pub mod Journal
pub mod Manifest
pub mod Media
pub mod Registry
pub mod Storage
pub mod Tags
pub mod Updater
pub mod Writer
