-- ===== src/Media/Publish.antt =====
-- `publish` keeps the service valid, and what it published is served.
use rocket_cat_shell_linux.Base.{
  ℕ, ◌<◌, ◌≡◌, ◌≢◌, refl, sym, ap, ◌∙◌, true, Option, none, some, [], ◌∷◌, ◌++◌, arith, All,
  pair_key, Option-cases, Bool-cases, inl, inr, ◌⊎◌, same_refl, if◌then◌else◌,
}
use rocket_cat_shell_linux.Base.Dict.{get}
use rocket_cat_shell_linux.Base.Text.{Text, text_key, is_empty}
use rocket_cat_shell_linux.Media.{
  PublishedMedia, Service, Stat, Files, Library, Environment, safe_filename,
}
use rocket_cat_shell_linux.Media.Names.{safe_filename-keeps, IsSafe}
use rocket_cat_shell_linux.Media.Tokens.{IsValid}
use rocket_cat_shell_linux.Media.Urls.{Request, publish_file, publish, resolve, media_path}
use rocket_cat_shell_linux.Base.Text.{or_else, codes}
use rocket_cat_shell_linux.Media.Serve.{IsPublished, publish_entry-IsPublished}
use rocket_cat_shell_linux.Media.Urls.{strip, upstream_base_url}

module _ (lib : Library) where
  -- Both of POSIX: paths are compared as they are, and what has no separator is its own base name.
  pub record IsPosix : Type 0 where
    pub normcase_same : (s : Text) → lib.normcase s ≡ s
    pub basename_same : (s : Text) → All IsSafe s → lib.basename s ≡ s

  module _ (env : Environment) (files : Files) where
    resolve-IsPublished :
        (bot resolved : Text) (stat : Stat) (e : PublishedMedia) (s : Service) (filename : Text)
        → IsPosix
        → IsPublished lib bot resolved stat e s
        → files.stat resolved ≡ some stat
        → files.is_file resolved ≡ true
        → lib.unquote filename ≡ e.filename
        → (resolve lib env files e.bot_id e.token filename s).0 ≡ some e
    unfolding resolve
    resolve-IsPublished bot resolved stat e s filename posix q st file name =
        let path : e.file_path ≡ resolved =
          sym (posix.normcase_same e.file_path) ∙ (q.of_path ∙ posix.normcase_same resolved) in
        let here : files.stat e.file_path ≡ some stat = ap files.stat path ∙ st in
        let there : files.is_file e.file_path ≡ true = ap files.is_file path ∙ file in
        let kept : safe_filename lib (lib.unquote filename) ≡ e.filename =
          ap (safe_filename lib) name
          ∙ safe_filename-keeps lib e.filename posix.basename_same q.name in
        rw (resolve, q.found)
          (rw (same_refl e.bot_id)
            (rw kept (rw (same_refl e.filename) (rw here (rw there (rw q.unchanged refl))))))

    abbrev bot_of : Request → Text
    bot_of r = or_else (strip lib env (or_else r.bot_id (codes "default"))) (codes "default")

    abbrev IsNew : Text → Service → Type 0
    IsNew new_token s = (get s.entries new_token ≡ none) × (new_token ≢ [])

    -- What a call of `publish` comes to: nothing, or an entry and perhaps a URL for it.
    data Outcome (r : Request) (s : Service) : Option Text × Service → Type 0 where
      nothing : Outcome r s (none, s)
      published :
          (resolved : Text) (stat : Stat) (e : PublishedMedia) (s2 : Service) (url : Option Text)
          → files.resolve_strict r.file_path ≡ some resolved
          → files.stat resolved ≡ some stat
          → files.is_file resolved ≡ true
          → IsPublished lib (bot_of r) resolved stat e s2
          → (url ≡ none) ⊎ ((base : Text) × (url ≡ some (base ++ media_path lib env e)))
          → Outcome r s (url, s2)

    url_cases :
        (base path : Text)
        → ((if is_empty base then none else some (base ++ path)) ≡ none)
          ⊎ ((b : Text) × ((if is_empty base then none else some (base ++ path))
                ≡ some (b ++ path)))
    url_cases [] path = inl refl
    url_cases (c ∷ b) path = inr (c ∷ b, refl)

    publish_file-Outcome :
        (r : Request) (new_token : Text) (s : Service)
        → IsValid lib s
        → 0 < s.max_entries
        → IsNew new_token s
        → Outcome r s (publish_file lib env files r new_token s)
    unfolding publish_file
    publish_file-Outcome r new_token s v pos new =
        elim (Option-cases (files.resolve_strict r.file_path)) [
          | inl q ↦ rw (publish_file, q) nothing
          | inr (resolved, q) ↦ elim (Option-cases (files.stat resolved)) [
            | inl w ↦ rw (publish_file, q, w) nothing
            | inr (stat, w) ↦ elim (Bool-cases (files.is_file resolved)) [
              | inr gone ↦ rw (publish_file, q, w, gone) nothing
              | inl file ↦
                  rw (publish_file, q, w, file)
                    (published resolved stat _ _ _ q w file
                      (publish_entry-IsPublished lib env r (bot_of r) new_token resolved stat s v
                        pos new.0 new.1)
                      (url_cases (upstream_base_url lib env r.onebot_ws_url s) _))
            ]
          ]
        ]

    publish-Outcome :
        (r : Request) (new_token : Text) (s : Service)
        → IsValid lib s
        → 0 < s.max_entries
        → IsNew new_token s
        → Outcome r s (publish lib env files r new_token s)
    unfolding publish
    publish-Outcome r new_token s v pos new = on_port s.webui_port
      where
        on_port :
            (port : Option ℕ)
            → Outcome r s
                (elim port [ none ↦ (none, s) | some n ↦ publish_file lib env files r new_token s ])
        on_port none = nothing
        on_port (some n) = publish_file-Outcome r new_token s v pos new

    Outcome-IsValid :
        (r : Request) (s : Service) (q : Option Text × Service)
        → IsValid lib s
        → Outcome r s q
        → IsValid lib q.1
    Outcome-IsValid r s _ v nothing = v
    Outcome-IsValid r s _ v (published resolved stat e s2 url q w f p u) = p.valid

    -- Publishing keeps the service valid, whether a URL is returned or not: tokens and paths lead to
    -- each other, and there are at most `max_entries` entries. The new token is not in use.
    pub publish-IsValid :
        (r : Request) (new_token : Text) (s : Service)
        → IsValid lib s
        → 0 < s.max_entries
        → IsNew new_token s
        → IsValid lib (publish lib env files r new_token s).1
    publish-IsValid r new_token s v pos new =
        Outcome-IsValid r s _ v (publish-Outcome r new_token s v pos new)

    -- A URL that was returned is for an entry that is then served under any name that is unquoted to
    -- the entry's.
    abbrev pub IsServed : Request → Text → Service → Type 0
    IsServed r url s2 =
        (e : PublishedMedia) × (base : Text) × (url ≡ base ++ media_path lib env e)
        × (files.resolve_strict r.file_path ≡ some e.file_path)
        × ((filename : Text)
            → lib.unquote filename ≡ e.filename
            → (resolve lib env files e.bot_id e.token filename s2).0 ≡ some e)

    Outcome-IsServed :
        (r : Request) (s : Service) (q : Option Text × Service) (url : Text)
        → IsPosix
        → Outcome r s q
        → q.0 ≡ some url
        → IsServed r url q.1
    Outcome-IsServed r s _ url posix nothing h = cc
    Outcome-IsServed r s _ url posix (published resolved stat e s2 u q w f p (inl n)) h = cc
    Outcome-IsServed r s _ url posix (published resolved stat e s2 u q w f p (inr (base, b))) h = (
      e,
      base,
      ground (arith, b, h),
      q
          ∙ ap (λ (x : Text). some x)
              (sym (
                sym (posix.normcase_same e.file_path)
                ∙ (p.of_path ∙ posix.normcase_same resolved))),
      (λ filename n. resolve-IsPublished (bot_of r) resolved stat e s2 filename posix p w f n),
    )

    -- When `publish` returns a URL, it ends with the path of an entry for the resolved file, and
    -- `resolve` with the bot, the token and a name that unquotes to the entry's name then returns that
    -- entry, while the file is unchanged. Paths are POSIX paths, and the new token is not in use.
    pub publish-resolve :
        (r : Request) (new_token : Text) (s : Service) (url : Text)
        → IsPosix
        → IsValid lib s
        → 0 < s.max_entries
        → IsNew new_token s
        → (publish lib env files r new_token s).0 ≡ some url
        → IsServed r url (publish lib env files r new_token s).1
    publish-resolve r new_token s url posix v pos new h =
        Outcome-IsServed r s _ url posix (publish-Outcome r new_token s v pos new) h
