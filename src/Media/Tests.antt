-- ===== src/Media/Tests.antt =====
-- A run of the media publication, and instances of the theorems about it.
use rocket_cat_shell_linux.Base.{◌≡◌, refl, true, false, none, some, [], arith, pair_key}
use rocket_cat_shell_linux.Base.Dict.{get, put, remove}
use rocket_cat_shell_linux.Base.Text.{
  Text, codes, text_key, text_beq, strip_chars, lstrip_chars, rstrip_chars, before_char,
}
use rocket_cat_shell_linux.Media.{
  Service, Files, Library, Environment, new_service, invalidate_bot, safe_filename, replace_unsafe,
  remove_token, evict_old_entries, evict_loop, forget_path,
}
use rocket_cat_shell_linux.Media.Tokens.{
  IsValid, new_service-IsValid, unless_bot, invalidate_bot-forgets,
}
use rocket_cat_shell_linux.Media.Publish.{IsPosix, IsServed, publish-IsValid, publish-resolve}
use rocket_cat_shell_linux.Media.Names.{IsPublishable, safe_filename-IsPublishable}
use rocket_cat_shell_linux.Media.Urls.{
  Request, publish, publish_file, publish_entry, renew, renew_or_keep, new_entry, resolve,
  upstream_base_url, resolve_upstream_base_url, is_running_in_container,
}

abbrev plain : Library
plain = record {
  is_space = λ c. false;
  lower = λ t. t;
  basename = λ t. t;
  normcase = λ t. t;
  quote = λ t. t;
  unquote = λ t. t;
  url_path = λ t. t;
  hostname = λ t. none;
  guess_type = λ t. none;
  decimal = λ n. codes "8080";
}

abbrev env : Environment
env = record {
  media_base_url = none;
  docker_service_name = none;
  container_name = none;
  dockerenv = false;
}

abbrev files : Files
files = record {
  resolve_strict = λ t. some t;
  is_file = λ t. true;
  stat = λ t. some (record { st_size = 5; st_mtime_ns = 7 });
}

abbrev request : Request
request = record {
  bot_id = codes "b";
  onebot_ws_url = [];
  file_path = codes "cat.png";
  name = [];
  content_type = [];
}

abbrev service : Service
service = record (new_service 4096) { webui_port = some 8080 }

program : Unit {0}
unfolding new_service invalidate_bot publish publish_file publish_entry renew renew_or_keep
    new_entry resolve upstream_base_url resolve_upstream_base_url is_running_in_container
    safe_filename replace_unsafe remove_token evict_old_entries evict_loop forget_path get put
    remove text_beq strip_chars lstrip_chars rstrip_chars before_char
program = tt

service-IsValid : IsValid plain service
unfolding program
service-IsValid = record { linked = (new_service-IsValid plain 4096).linked; bounded = omega arith }

plain-IsPosix : IsPosix plain
plain-IsPosix = record { normcase_same = λ s. refl; basename_same = λ s h. refl }

abbrev url : Text
url = codes "http://127.0.0.1:8080/_rocketcat/media/b/t/cat.png"

abbrev after : Service
after = (publish plain env files request (codes "t") service).1

returns : (publish plain env files request (codes "t") service).0 ≡ some url
unfolding program
returns = refl

serves :
    (elim (resolve plain env files (codes "b") (codes "t") (codes "cat.png") after).0 [
      | none ↦ []
      | some e ↦ e.file_path
    ])
    ≡ codes "cat.png"
unfolding program
serves = refl

other_bot : (resolve plain env files (codes "c") (codes "t") (codes "cat.png") after).0 ≡ none
unfolding program
other_bot = refl

publish-IsValid_example : IsValid plain after
unfolding program
publish-IsValid_example =
    publish-IsValid plain env files request (codes "t") service service-IsValid (omega arith)
      (refl, (λ h. cc))

publish-resolve_example : IsServed plain env files request url after
unfolding program
publish-resolve_example =
    publish-resolve plain env files request (codes "t") service url plain-IsPosix service-IsValid
      (omega arith) (refl, (λ h. cc)) returns

invalidate_bot-forgets_example :
    IsValid plain (invalidate_bot plain (codes "b") after)
    × ((u : Text)
        → get (invalidate_bot plain (codes "b") after).entries u
          ≡ unless_bot plain
              (strip_chars plain.is_space (codes "b"))
              (get after.entries u)
              (get after.entries u))
invalidate_bot-forgets_example =
    invalidate_bot-forgets plain (codes "b") after publish-IsValid_example

safe_filename-IsPublishable_example : IsPublishable (safe_filename plain (codes "../a b."))
safe_filename-IsPublishable_example = safe_filename-IsPublishable plain (codes "../a b.")
