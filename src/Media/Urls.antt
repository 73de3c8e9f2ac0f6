-- ===== src/Media/Urls.antt =====
-- The operations of `MediaPublicationService` that make and read URLs.
use rocket_cat_shell_linux.Base.{
  ℕ, Bool, true, false, ◌&&◌, ◌||◌, not, Option, none, some, List, [], ◌∷◌, ◌++◌, nat_beq,
  if◌then◌else◌, ◌==◌, pair_key,
}
use rocket_cat_shell_linux.Base.Dict.{get}
use rocket_cat_shell_linux.Base.Text.{
  Text, codes, text_key, is_empty, or_else, strip_chars, rstrip_chars, before_char, starts_with,
}
use rocket_cat_shell_linux.Media.{
  PublishedMedia, Service, Stat, Files, Library, Environment, route_prefix, move_to_end,
  safe_filename, remove_token, evict_old_entries, add_entry, text_of,
}

-- `_HOST_UPSTREAM_NAMES`
abbrev pub host_upstream_names : List Text
host_upstream_names =
    codes ""
    ∷ codes "0.0.0.0"
    ∷ codes "127.0.0.1"
    ∷ codes "::1"
    ∷ codes "host.containers.internal"
    ∷ codes "host.docker.internal"
    ∷ codes "localhost"
    ∷ []

abbrev pub is_among : List Text → Text → Bool
is_among [] t = false
is_among (u ∷ l) t = u == t || is_among l t

-- The characters up to the next `/`, which group `([^/]+)` takes, and what is left.
unfoldable pub up_to_slash : Text → Text × Text
up_to_slash [] = ([], [])
up_to_slash (c ∷ s) =
    let (a, rest) = up_to_slash s in if nat_beq c b'/' then ([], c ∷ s) else (c ∷ a, rest)

abbrev pub tail : Text → Text
tail [] = []
tail (c ∷ s) = s

-- `re.fullmatch(prefix/([^/]+)/([^/]+)/([^/]+), path)`: the groups.
unfoldable pub match_path : Text → Option (Text × Text × Text)
unfolding starts_with up_to_slash
match_path path =
    let (bot, rest) = up_to_slash (tail (skip route_prefix path)) in
    let (token, rest2) = up_to_slash (tail rest) in
    let (filename, rest3) = up_to_slash (tail rest2) in
    if starts_with path (route_prefix ++ codes "/")
      && not (is_empty bot)
      && not (is_empty rest)
      && not (is_empty token)
      && not (is_empty rest2)
      && not (is_empty filename)
      && is_empty rest3
    then some (bot, token, filename)
    else none
  where
    -- the text behind a prefix that it starts with
    skip : Text → Text → Text
    skip [] s = s
    skip (p ∷ ps) [] = []
    skip (p ∷ ps) (c ∷ s) = skip ps s

-- What `publish` is called with.
pub record Request : Type 0 where
  pub bot_id : Text
  pub onebot_ws_url : Text
  pub file_path : Text
  pub name : Text
  pub content_type : Text

-- `stat` says that the file of `entry` is as it was.
abbrev pub is_unchanged : Stat → PublishedMedia → Bool
is_unchanged stat entry = nat_beq entry.size stat.st_size && nat_beq entry.mtime_ns stat.st_mtime_ns

module _ (lib : Library) (env : Environment) where
  open lib use {
    is_space, lower, basename, normcase, quote, unquote, url_path, hostname, guess_type, decimal,
  }

  abbrev pub strip : Text → Text
  strip = strip_chars is_space

  unfoldable pub is_running_in_container : Bool
  is_running_in_container = env.dockerenv || not (is_empty (strip (text_of env.container_name)))

  -- `_resolve_upstream_base_url`, with the port of the Web UI
  unfoldable pub resolve_upstream_base_url : ℕ → Text → Text
  unfolding is_running_in_container
  resolve_upstream_base_url port onebot_ws_url =
      let override = strip (text_of env.media_base_url) in
      let upstream_host = lower (text_of (hostname onebot_ws_url)) in
      let service_name =
        or_else (strip (or_else (text_of env.docker_service_name) (codes "rocketcatshell")))
          (codes "rocketcatshell") in
      if not (is_empty override)
      then rstrip_chars (λ c. nat_beq c b'/') override
      else if is_among host_upstream_names upstream_host || not is_running_in_container
      then codes "http://127.0.0.1:" ++ decimal port
      else codes "http://" ++ (service_name ++ (codes ":" ++ decimal port))

  unfoldable pub upstream_base_url : Text → Service → Text
  unfolding resolve_upstream_base_url
  upstream_base_url onebot_ws_url s = elim s.webui_port [
    | none ↦ []
    | some port ↦ resolve_upstream_base_url port onebot_ws_url
  ]

  -- the path of the URL of an entry
  abbrev pub media_path : PublishedMedia → Text
  media_path entry =
      route_prefix
      ++ (b'/' ∷ quote entry.bot_id ++ (b'/' ∷ entry.token ++ (b'/' ∷ quote entry.filename)))

  -- The entry that `publish` makes of a file, under a new token.
  unfoldable pub new_entry : Request → Text → Text → Text → Stat → PublishedMedia
  unfolding safe_filename
  new_entry r bot token resolved stat =
      let filename = safe_filename lib (or_else r.name (basename resolved)) in
      record {
        bot_id = bot;
        token = token;
        filename = filename;
        file_path = resolved;
        content_type =
            or_else (strip (before_char b';' r.content_type))
              (or_else (text_of (guess_type filename)) (codes "application/octet-stream"));
        size = stat.st_size;
        mtime_ns = stat.st_mtime_ns;
      }

  -- The branch of `publish` in which the path has no entry, or `token` one that is not right.
  unfoldable pub renew :
      Request → Text → Text → Text → Stat → Text → Service → PublishedMedia × Service
  unfolding remove_token new_entry evict_old_entries
  renew r bot new_token resolved stat token s =
      let fresh = new_entry r bot new_token resolved stat in
      let cleared = if is_empty token then s else remove_token lib token s in
      (fresh, evict_old_entries lib (add_entry lib fresh cleared))

  -- What is done for `token`, which the path stands for; it is empty if there is none.
  unfoldable pub renew_or_keep :
      Request → Text → Text → Text → Stat → Text → Service → PublishedMedia × Service
  unfolding renew
  renew_or_keep r bot new_token resolved stat token s = elim (get s.entries token) [
    | none ↦ renew r bot new_token resolved stat token s
    | some entry ↦
        if is_unchanged stat entry
        then (entry, record s { entries = move_to_end s.entries token })
        else renew r bot new_token resolved stat token s
  ]

  -- The part of `publish` that finds or makes the entry.
  unfoldable pub publish_entry :
      Request → Text → Text → Text → Stat → Service → PublishedMedia × Service
  unfolding renew_or_keep
  publish_entry r bot new_token resolved stat s =
      let token = text_of (get s.tokens_by_path (bot, normcase resolved)) in
      renew_or_keep r bot new_token resolved stat token s

  -- `publish` when the Web UI is up.
  unfoldable pub publish_file : Files → Request → Text → Service → Option Text × Service
  unfolding publish_entry upstream_base_url
  publish_file files r new_token s = elim (files.resolve_strict r.file_path) [
    | none ↦ (none, s)
    | some resolved ↦ elim (files.stat resolved) [
      | none ↦ (none, s)
      | some stat ↦
          let bot = or_else (strip (or_else r.bot_id (codes "default"))) (codes "default") in
          let (entry, s2) = publish_entry r bot new_token resolved stat s in
          let base_url = upstream_base_url r.onebot_ws_url s in
          if files.is_file resolved
          then (if is_empty base_url then none else some (base_url ++ media_path entry), s2)
          else (none, s)
    ]
  ]

  -- The URL, if there is one, and the state after the call; `new_token` is what
  -- `secrets.token_urlsafe(32)` returns if it is called.
  unfoldable pub publish : Files → Request → Text → Service → Option Text × Service
  unfolding publish_file
  publish files r new_token s = elim s.webui_port [
    | none ↦ (none, s)
    | some port ↦ publish_file files r new_token s
  ]

  -- `resolve`: the entry, if it may be served, and the state after the call.
  unfoldable pub resolve : Files → Text → Text → Text → Service → Option PublishedMedia × Service
  unfolding remove_token safe_filename
  resolve files bot_id token filename s = elim (get s.entries token) [
    | none ↦ (none, s)
    | some entry ↦
        if not (entry.bot_id == bot_id)
        then (none, s)
        else if not (entry.filename == safe_filename lib (unquote filename))
        then (none, s)
        else elim (files.stat entry.file_path) [
          | none ↦ (none, remove_token lib entry.token s)
          | some stat ↦
              if files.is_file entry.file_path && is_unchanged stat entry
              then (some entry, record s { entries = move_to_end s.entries entry.token })
              else (none, remove_token lib entry.token s)
        ]
  ]

  unfoldable pub is_current_url : Files → Text → Service → Bool × Service
  unfolding resolve match_path
  is_current_url files value s = elim (match_path (url_path value)) [
    | none ↦ (false, s)
    | some (bot, token, filename) ↦
        let (entry, s2) = resolve files (unquote bot) token (unquote filename) s in
        (elim entry [ none ↦ false | some e ↦ true ], s2)
  ]

  unfoldable pub is_media_url : Text → Bool
  unfolding starts_with
  is_media_url value = starts_with (url_path value) (route_prefix ++ codes "/")
