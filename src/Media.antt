-- ===== src/Media.antt =====
-- rocketcat_shell/bridge/media_publication.py: which cached media files are served under a URL.
-- Python's functions on texts, paths and URLs, the file system and the environment are parameters.
mod Urls
mod Tokens
mod Names
mod Serve
mod Publish
mod Tests
use rocket_cat_shell_linux.Base.{
  ℕ, suc, ◌+◌, ◌≡◌, Bool, true, false, ◌&&◌, ◌||◌, not, Option, none, some, List, [], ◌∷◌, ◌++◌,
  ltb, leb, nat_beq, if◌then◌else◌, length, max, ◌==◌, pair_key,
}
use rocket_cat_shell_linux.Base.Dict.{Dict, get, put, remove}
use rocket_cat_shell_linux.Base.Text.{
  Text, codes, text_key, is_empty, or_else, strip_chars, rstrip_chars, before_char, starts_with,
}

pub record PublishedMedia : Type 0 where
  pub bot_id : Text
  pub token : Text
  pub filename : Text
  pub file_path : Text
  pub content_type : Text
  pub size : ℕ
  pub mtime_ns : ℕ

-- `MediaPublicationService`
pub record Service : Type 0 where
  pub max_entries : ℕ
  pub webui_port : Option ℕ
  pub entries : Dict Text PublishedMedia
  pub tokens_by_path : Dict (Text × Text) Text

pub record Stat : Type 0 where
  pub st_size : ℕ
  pub st_mtime_ns : ℕ

-- What is known of the file system when a method runs: `none` where the call raises.
pub record Files : Type 0 where
  pub resolve_strict : Text → Option Text
  pub is_file : Text → Bool
  pub stat : Text → Option Stat

-- What the class uses of Python's library.
pub record Library : Type 0 where
  pub is_space : ℕ → Bool
  pub lower : Text → Text
  pub basename : Text → Text
  pub normcase : Text → Text
  pub quote : Text → Text
  pub unquote : Text → Text
  pub url_path : Text → Text
  pub hostname : Text → Option Text
  pub guess_type : Text → Option Text
  pub decimal : ℕ → Text

-- The environment variables and `/.dockerenv`; `none`: not set.
pub record Environment : Type 0 where
  pub media_base_url : Option Text
  pub docker_service_name : Option Text
  pub container_name : Option Text
  pub dockerenv : Bool

abbrev pub route_prefix : Text
route_prefix = codes "/_rocketcat/media"

-- `__init__`
pub new_service : ℕ → Service
new_service max_entries = record {
  max_entries = max 128 max_entries;
  webui_port = none;
  entries = [];
  tokens_by_path = [];
}

pub configure_webui : ℕ → Service → Service
configure_webui port s = record s { webui_port = some port }

pub clear_webui : Service → Service
clear_webui s = record s { webui_port = none }

-- `OrderedDict.move_to_end`, of a key that is there
abbrev pub move_to_end : Dict Text PublishedMedia → Text → Dict Text PublishedMedia
move_to_end d k = elim (get d k) [ none ↦ d | some v ↦ put (remove d k) k v ]

-- `[\x00-\x1f\x7f/\\]`
abbrev pub is_unsafe : ℕ → Bool
is_unsafe c = ltb c 32 || nat_beq c 127 || nat_beq c b'/' || nat_beq c b'\\'

-- `re.sub` of a run of such characters by one `_`; the flag says that a run is being read.
pub replace_unsafe : Bool → Text → Text
replace_unsafe run [] = []
replace_unsafe run (c ∷ s) =
    let rest = replace_unsafe (is_unsafe c) s in
    if is_unsafe c then (if run then rest else b'_' ∷ rest) else c ∷ rest

abbrev pub is_space_or_dot : ℕ → Bool
is_space_or_dot c = nat_beq c b' ' || nat_beq c b'.'

abbrev pub text_of : Option Text → Text
text_of none = []
text_of (some t) = t

module _ (lib : Library) where
  open lib use {is_space, basename, normcase}

  pub safe_filename : Text → Text
  unfolding replace_unsafe
  safe_filename value =
      let filename = or_else (basename value) (codes "media") in
      or_else (strip_chars is_space_or_dot (replace_unsafe false filename)) (codes "media")

  abbrev pub path_key : PublishedMedia → Text × Text
  path_key entry = (entry.bot_id, normcase entry.file_path)

  -- Of the mapping from paths, what is left when `token`, which stood for `entry`, is gone.
  pub forget_path : Text → PublishedMedia → Dict (Text × Text) Text → Dict (Text × Text) Text
  forget_path token entry paths = elim (get paths (path_key entry)) [
    | none ↦ paths
    | some t ↦ if t == token then remove paths (path_key entry) else paths
  ]

  pub remove_token : Text → Service → Service
  unfolding forget_path
  remove_token token s = elim (get s.entries token) [
    | none ↦ s
    | some entry ↦ record s {
      entries = remove s.entries token;
      tokens_by_path = forget_path token entry s.tokens_by_path;
    }
  ]

  -- `_entries` and `_tokens_by_path` with a new entry
  abbrev pub add_entry : PublishedMedia → Service → Service
  add_entry entry s = record s {
    entries = put s.entries entry.token entry;
    tokens_by_path = put s.tokens_by_path (path_key entry) entry.token;
  }

  -- The loop of `_evict_old_entries`: the oldest entries go.
  pub evict_loop :
      ℕ
      → Dict Text PublishedMedia
      → Dict (Text × Text) Text
      → Dict Text PublishedMedia × Dict (Text × Text) Text
  unfolding forget_path
  evict_loop max_entries [] paths = ([], paths)
  evict_loop max_entries ((token, entry) ∷ d) paths =
      let smaller = evict_loop max_entries d (forget_path token entry paths) in
      if ltb max_entries (length ((token, entry) ∷ d)) then smaller else ((token, entry) ∷ d, paths)

  pub evict_old_entries : Service → Service
  unfolding evict_loop
  evict_old_entries s =
      let (entries, paths) = evict_loop s.max_entries s.entries s.tokens_by_path in
      record s { entries = entries; tokens_by_path = paths }

  -- `invalidate_bot`, over the items that stood there at first
  pub remove_tokens_of : Text → Dict Text PublishedMedia → Service → Service
  unfolding remove_token
  remove_tokens_of bot [] s = s
  remove_tokens_of bot ((token, entry) ∷ d) s =
      remove_tokens_of bot d (if entry.bot_id == bot then remove_token token s else s)

  pub invalidate_bot : Text → Service → Service
  unfolding remove_tokens_of
  invalidate_bot bot_id s = remove_tokens_of (strip_chars is_space bot_id) s.entries s

  pub active_file_paths : Service → List Text
  active_file_paths s = paths s.entries
    where
      paths : Dict Text PublishedMedia → List Text
      paths [] = []
      paths ((token, entry) ∷ d) = entry.file_path ∷ paths d
