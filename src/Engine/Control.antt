-- ===== src/Engine/Control.antt =====
-- What the start of a bot changes in the engine besides its records: the size of the window, and the
-- state that the old numbers of users are taken out of.
use rocket_cat_shell_linux.Base.{ℕ, String, Option, []}
use rocket_cat_shell_linux.Base.Dict.{Dict}
use rocket_cat_shell_linux.Base.Int.{ℤ}
use rocket_cat_shell_linux.IdMap.{normalize_message_window_size}
use rocket_cat_shell_linux.Engine.{Engine, no_messages}

unfoldable pub set_message_window_size : Option ℤ → Engine → Engine
unfolding normalize_message_window_size
set_message_window_size n s = record s { message_window_size = normalize_message_window_size n }

unfoldable pub purge_legacy_user_dependent_state : Engine → Engine
purge_legacy_user_dependent_state s = record s {
  messages = no_messages;
  private_rooms = record s.private_rooms { by_user_surrogate = [] };
}

unfoldable pub replace_private_room_surrogate_bindings : Dict ℕ String → Engine → Engine
replace_private_room_surrogate_bindings bindings s = record s {
  private_rooms = record s.private_rooms { by_user_surrogate = bindings };
}
