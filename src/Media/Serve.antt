-- ===== src/Media/Serve.antt =====
-- What `publish` finds or makes of an entry: it is there, it fits, and the service stays valid.
use rocket_cat_shell_linux.Base.{
  ℕ, ◌<◌, ◌≡◌, ◌≢◌, refl, sym, ap, ◌∙◌, true, false, Option, none, some, [], ◌∷◌, ◌++◌, arith,
  pair_key, Option-cases, Bool-cases, inl, inr, same_refl,
}
use mathlib.Core.Path.{subst}
use rocket_cat_shell_linux.Base.Dict.{get, put, get-remove, put-append}
use rocket_cat_shell_linux.Base.Text.{Text, text_key, is_empty}
use rocket_cat_shell_linux.Media.{
  PublishedMedia, Service, Stat, Library, Environment, path_key, remove_token, evict_loop,
  evict_old_entries, add_entry, move_to_end, text_of, forget_path,
}
use rocket_cat_shell_linux.Media.Names.{IsPublishable, safe_filename-IsPublishable}
use rocket_cat_shell_linux.Media.Tokens.{
  Entries, Paths, IsValid, remove_token-IsValid, evict_loop-AreLinked, put-AreLinked,
  get-move_to_end, move_to_end-AreLinked, length-move_to_end, forget_path-index, get-remove_token,
}
use rocket_cat_shell_linux.Media.Urls.{
  Request, new_entry, publish_entry, renew, renew_or_keep, is_unchanged,
}

is_empty-nonempty : (t : Text) → t ≢ [] → is_empty t ≡ false
is_empty-nonempty [] h = absurd (h refl)
is_empty-nonempty (c ∷ t) h = refl

module _ (lib : Library) where
  get_last :
      (d : Entries) (t : Text) (e : PublishedMedia)
      → get d t ≡ none
      → get (d ++ (t, e) ∷ []) t ≡ some e
  unfolding get
  get_last [] t e new = rw (same_refl t)
  get_last ((u, f) ∷ d) t e new = ground (arith, get_last d t e)

  -- The newest entry is not evicted.
  newest_stays :
      (n : ℕ) (d : Entries) (p : Paths) (t : Text) (e : PublishedMedia)
      → 0 < n
      → get d t ≡ none
      → get (evict_loop lib n (d ++ (t, e) ∷ []) p).0 t ≡ some e
  unfolding evict_loop get
  newest_stays n [] p t e pos new = ground (arith, same_refl t)
  newest_stays n ((u, f) ∷ d) p t e pos new =
      ground (arith, newest_stays n d (forget_path lib u f p) t e pos, get_last d t e)

  -- What is known after `publish` found or made the entry.
  pub record IsPublished (bot resolved : Text) (stat : Stat) (e : PublishedMedia) (s : Service)
      : Type 0 where
    pub valid : IsValid lib s
    pub found : get s.entries e.token ≡ some e
    pub of_bot : e.bot_id ≡ bot
    pub of_path : lib.normcase e.file_path ≡ lib.normcase resolved
    pub unchanged : is_unchanged stat e ≡ true
    pub name : IsPublishable e.filename

  add-IsPublished :
      (bot resolved : Text) (stat : Stat) (e : PublishedMedia) (s : Service)
      → IsValid lib s
      → 0 < s.max_entries
      → get s.entries e.token ≡ none
      → get s.tokens_by_path (path_key lib e) ≡ none
      → e.token ≢ []
      → IsPublishable e.filename
      → e.bot_id ≡ bot
      → lib.normcase e.file_path ≡ lib.normcase resolved
      → is_unchanged stat e ≡ true
      → IsPublished bot resolved stat e (evict_old_entries lib (add_entry lib e s))
  unfolding evict_old_entries
  add-IsPublished bot resolved stat e s v pos new free text name b p u =
      let (linked, bound) =
        evict_loop-AreLinked lib s.max_entries (put s.entries e.token e)
          (put s.tokens_by_path (path_key lib e) e.token)
          (put-AreLinked lib s.entries s.tokens_by_path e v.linked new free text name) in
      record {
        valid = record { linked = linked; bounded = bound };
        found = rw (put-append s.entries e.token e new) (
            newest_stays s.max_entries s.entries (put s.tokens_by_path (path_key lib e) e.token)
              e.token e pos new);
        of_bot = b;
        of_path = p;
        unchanged = u;
        name = name;
      }

  module _ (env : Environment) (r : Request) (bot new_token resolved : Text) (stat : Stat) where
    abbrev fresh : PublishedMedia
    fresh = new_entry lib env r bot new_token resolved stat

    abbrev key : Text × Text
    key = (bot, lib.normcase resolved)

    fresh-IsPublished :
        (s : Service)
        → IsValid lib s
        → 0 < s.max_entries
        → get s.entries new_token ≡ none
        → new_token ≢ []
        → get s.tokens_by_path key ≡ none
        → IsPublished bot resolved stat fresh (evict_old_entries lib (add_entry lib fresh s))
    unfolding new_entry
    fresh-IsPublished s v pos new text free =
        add-IsPublished bot resolved stat fresh s v pos new free text
          (safe_filename-IsPublishable lib _) refl refl (ground arith)

    no_empty_token : (s : Service) → IsValid lib s → get s.entries [] ≡ none
    no_empty_token s v = elim (Option-cases (get s.entries [])) [
      | inl h ↦ h
      | inr (e, h) ↦ absurd ((v.linked.tokens [] e h).1 refl)
    ]

    -- An entry of this path that is no longer right is replaced.
    replaced-IsPublished :
        (s : Service) (t : Text) (e : PublishedMedia)
        → IsValid lib s
        → 0 < s.max_entries
        → get s.entries new_token ≡ none
        → new_token ≢ []
        → get s.entries t ≡ some e
        → path_key lib e ≡ key
        → IsPublished bot resolved stat fresh
            (evict_old_entries lib (add_entry lib fresh (remove_token lib t s)))
    unfolding remove_token
    replaced-IsPublished s t e v pos new text h is =
        fresh-IsPublished (remove_token lib t s) (remove_token-IsValid lib t s v)
          (rw (remove_token, h) pos) (rw (get-remove_token lib t new_token s) (ground (arith, new)))
          text
          (rw (remove_token, h)
            (rw (forget_path-index lib t e s.tokens_by_path (v.linked.index.to_index t e h))
              (rw is (rw (get-remove s.tokens_by_path key key) (rw (same_refl key) refl)))))

    kept-IsPublished :
        (s : Service) (t : Text) (e : PublishedMedia)
        → IsValid lib s
        → get s.entries t ≡ some e
        → path_key lib e ≡ key
        → is_unchanged stat e ≡ true
        → IsPublished bot resolved stat e (record s { entries = move_to_end s.entries t })
    kept-IsPublished s t e v h is same =
        let (token_is, nonempty, name) = v.linked.tokens t e h in
        record {
          valid = record {
            linked = move_to_end-AreLinked lib s.entries s.tokens_by_path t v.linked;
            bounded =
                omega (arith, length-move_to_end lib s.entries t v.linked.index.unique, v.bounded);
          };
          found = get-move_to_end lib s.entries t e.token ∙ (ap (get s.entries) token_is ∙ h);
          of_bot = ap (λ (k : Text × Text). k.0) is;
          of_path = ap (λ (k : Text × Text). k.1) is;
          unchanged = same;
          name = name;
        }

    abbrev pub Outcome : PublishedMedia × Service → Type 0
    Outcome q = IsPublished bot resolved stat q.0 q.1

    absent-Outcome :
        (s : Service)
        → IsValid lib s
        → 0 < s.max_entries
        → get s.entries new_token ≡ none
        → new_token ≢ []
        → get s.tokens_by_path key ≡ none
        → Outcome (renew_or_keep lib env r bot new_token resolved stat [] s)
    unfolding renew_or_keep renew
    absent-Outcome s v pos new text free =
        rw (renew_or_keep, no_empty_token s v) (fresh-IsPublished s v pos new text free)

    known-Outcome :
        (s : Service) (t : Text)
        → IsValid lib s
        → 0 < s.max_entries
        → get s.entries new_token ≡ none
        → new_token ≢ []
        → get s.tokens_by_path key ≡ some t
        → Outcome (renew_or_keep lib env r bot new_token resolved stat t s)
    unfolding renew_or_keep renew
    known-Outcome s t v pos new text known =
        let (e, h, is) = v.linked.index.to_value key t known in
        rw (renew_or_keep, h)
          (elim (Bool-cases (is_unchanged stat e)) [
            | inl same ↦ rw same (kept-IsPublished s t e v h is same)
            | inr changed ↦ rw changed (
                rw (is_empty-nonempty t (v.linked.tokens t e h).1)
                  (replaced-IsPublished s t e v pos new text h is))
          ])

    -- Whatever the service knew of the file, the entry is there, and the service is valid.
    pub publish_entry-IsPublished :
        (s : Service)
        → IsValid lib s
        → 0 < s.max_entries
        → get s.entries new_token ≡ none
        → new_token ≢ []
        → Outcome (publish_entry lib env r bot new_token resolved stat s)
    unfolding publish_entry
    publish_entry-IsPublished s v pos new text = elim (Option-cases (get s.tokens_by_path key)) [
      | inl free ↦
          subst
            (λ (o : Option Text).
              Outcome (renew_or_keep lib env r bot new_token resolved stat (text_of o) s))
            (sym free) (absent-Outcome s v pos new text free)
      | inr (t, known) ↦
          subst
            (λ (o : Option Text).
              Outcome (renew_or_keep lib env r bot new_token resolved stat (text_of o) s))
            (sym known) (known-Outcome s t v pos new text known)
    ]
