-- ===== src/Media/Tokens.antt =====
-- The two mappings of `MediaPublicationService`, tokens to entries and paths to tokens, fit.
use rocket_cat_shell_linux.Base.{
  ℕ, ◌≤◌, ◌≡◌, ◌≢◌, refl, sym, ◌∙◌, none, some, [], ◌∷◌, length, arith, pair_key, Option-cases, inl,
  inr, same_refl, ltb, Option, ◌==◌, if◌then◌else◌, Bool-cases, suc,
}
use rocket_cat_shell_linux.Base.Dict.{
  Dict, get, put, remove, get-put, get-remove, HasUniqueKeys, put-HasUniqueKeys,
  remove-HasUniqueKeys, length-remove, length-put_new, remove_absent,
}
use rocket_cat_shell_linux.Base.Index.{IsIndex, remove-IsIndex, put-IsIndex, reordered-IsIndex}
use rocket_cat_shell_linux.Base.Text.{Text, text_key, text_beq_iff, strip_chars}
use mathlib.Core.Path.{subst}
use rocket_cat_shell_linux.Media.Names.{IsPublishable}
use rocket_cat_shell_linux.Media.{
  PublishedMedia, Service, Library, path_key, forget_path, remove_token, evict_loop, move_to_end,
  remove_tokens_of, invalidate_bot, new_service,
}

abbrev pub Entries : Type 0
Entries = Dict Text PublishedMedia

abbrev pub Paths : Type 0
Paths = Dict (Text × Text) Text

-- An entry knows its token, which is not empty, and has a publishable name.
abbrev pub HasTokens : Entries → Type 0
HasTokens d =
    (t : Text) (e : PublishedMedia)
    → get d t ≡ some e
    → (e.token ≡ t) × (t ≢ []) × IsPublishable e.filename

module _ (lib : Library) where
  pub record AreLinked (d : Entries) (p : Paths) : Type 0 where
    pub index : IsIndex (path_key lib) d p
    pub tokens : HasTokens d

  -- Tokens and paths fit, and there are not too many entries.
  pub record IsValid (s : Service) : Type 0 where
    pub linked : AreLinked s.entries s.tokens_by_path
    pub bounded : length s.entries ≤ s.max_entries

  pub new_service-IsValid : (n : ℕ) → IsValid (new_service n)
  unfolding new_service get
  new_service-IsValid n = record {
    linked = record {
      index = record { unique = tt; to_value = λ k t h. cc; to_index = λ t e h. cc };
      tokens = λ t e h. cc;
    };
    bounded = omega arith;
  }

  pub forget_path-index :
      (t : Text) (e : PublishedMedia) (p : Paths)
      → get p (path_key lib e) ≡ some t
      → forget_path lib t e p ≡ remove p (path_key lib e)
  unfolding forget_path
  forget_path-index t e p h = rw (forget_path, h) (rw (same_refl t) refl)

  pub remove-AreLinked :
      (d : Entries) (p : Paths) (t : Text) (e : PublishedMedia)
      → AreLinked d p
      → get d t ≡ some e
      → AreLinked (remove d t) (forget_path lib t e p)
  remove-AreLinked d p t e l h = rw (forget_path-index t e p (l.index.to_index t e h)) (record {
    index = remove-IsIndex l.index t e h;
    tokens = λ u f q. l.tokens u f (still_there u f q);
  })
    where
      still_there : (u : Text) (f : PublishedMedia) → get (remove d t) u ≡ some f → get d u ≡ some f
      still_there u f q = ground (arith, get-remove d t u, q)

  pub put-AreLinked :
      (d : Entries) (p : Paths) (e : PublishedMedia)
      → AreLinked d p
      → get d e.token ≡ none
      → get p (path_key lib e) ≡ none
      → e.token ≢ []
      → IsPublishable e.filename
      → AreLinked (put d e.token e) (put p (path_key lib e) e.token)
  put-AreLinked d p e l new free text name = record {
    index = put-IsIndex l.index e.token e new free;
    tokens = λ u f q. elim (Bool-cases (e.token == u)) [
      | inl y ↦
          let is : e.token ≡ u = (text_beq_iff e.token u).0 y in
          let f_is_e : e ≡ f = ground (arith, get-put d e.token u e, q, y) in
          subst (λ (x : PublishedMedia). (x.token ≡ u) × (u ≢ []) × IsPublishable x.filename) f_is_e
            (is, (λ z. text (is ∙ z)), name)
      | inr n ↦ l.tokens u f (ground (arith, get-put d e.token u e, q, n))
    ];
  }

  pub remove_token-IsValid : (t : Text) (s : Service) → IsValid s → IsValid (remove_token lib t s)
  unfolding remove_token
  remove_token-IsValid t s v = elim (Option-cases (get s.entries t)) [
    | inl h ↦ rw (remove_token, h) v
    | inr (e, h) ↦
        rw (remove_token, h)
          (record {
            linked = remove-AreLinked s.entries s.tokens_by_path t e v.linked h;
            bounded = omega (arith, length-remove s.entries t e v.linked.index.unique h, v.bounded);
          })
  ]

  remove_first :
      (t : Text) (e : PublishedMedia) (d : Entries)
      → HasUniqueKeys ((t, e) ∷ d)
      → remove ((t, e) ∷ d) t ≡ d
  unfolding remove
  remove_first t e d u = rw (same_refl t) (remove_absent d t u.0)

  get_first : (t : Text) (e : PublishedMedia) (d : Entries) → get ((t, e) ∷ d) t ≡ some e
  unfolding get
  get_first t e d = rw (same_refl t)

  pub evict_loop-AreLinked :
      (n : ℕ) (d : Entries) (p : Paths)
      → AreLinked d p
      → AreLinked (evict_loop lib n d p).0 (evict_loop lib n d p).1
        × (length (evict_loop lib n d p).0 ≤ n)
  unfolding evict_loop
  evict_loop-AreLinked n [] p l = (l, omega arith)
  evict_loop-AreLinked n ((t, e) ∷ d) p l =
      let rest : AreLinked d (forget_path lib t e p) =
        subst (λ (x : Entries). AreLinked x (forget_path lib t e p))
          (remove_first t e d l.index.unique)
          (remove-AreLinked ((t, e) ∷ d) p t e l (get_first t e d)) in
      elim (Bool-cases (ltb n (suc (length d)))) [
        | inl over ↦ rw over (evict_loop-AreLinked n d (forget_path lib t e p) rest)
        | inr fits ↦ rw fits (l, ground arith)
      ]

  -- Moving an entry changes the order only.
  pub get-move_to_end : (d : Entries) (t u : Text) → get (move_to_end d t) u ≡ get d u
  get-move_to_end d t u = elim (Option-cases (get d t)) [
    | inl h ↦ rw (move_to_end, h)
    | inr (e, h) ↦
        rw (move_to_end, h)
          (ground (arith, get-put (remove d t) t u e, get-remove d t u, text_beq_iff t u, h))
  ]

  pub move_to_end-AreLinked :
      (d : Entries) (p : Paths) (t : Text) → AreLinked d p → AreLinked (move_to_end d t) p
  move_to_end-AreLinked d p t l = record {
    index = reordered-IsIndex l.index (move_to_end d t) unique (get-move_to_end d t);
    tokens = λ u f q. l.tokens u f (sym (get-move_to_end d t u) ∙ q);
  }
    where
      unique : HasUniqueKeys (move_to_end d t)
      unique = elim (Option-cases (get d t)) [
        | inl h ↦ rw (move_to_end, h) l.index.unique
        | inr (e, h) ↦
            rw (move_to_end, h)
              (put-HasUniqueKeys (remove d t) t e (remove-HasUniqueKeys d t l.index.unique))
      ]

  pub length-move_to_end :
      (d : Entries) (t : Text) → HasUniqueKeys d → length (move_to_end d t) ≡ length d
  length-move_to_end d t u = elim (Option-cases (get d t)) [
    | inl h ↦ rw (move_to_end, h)
    | inr (e, h) ↦
        rw (move_to_end, h)
          (omega (
            arith,
            length-put_new (remove d t) t e (ground (arith, get-remove d t t, same_refl t)),
            length-remove d t e u h,
          ))
  ]

  remove_tokens_of-IsValid :
      (bot : Text) (d : Entries) (s : Service) → IsValid s → IsValid (remove_tokens_of lib bot d s)
  unfolding remove_tokens_of
  remove_tokens_of-IsValid bot [] s v = v
  remove_tokens_of-IsValid bot ((t, e) ∷ d) s v = elim (Bool-cases (e.bot_id == bot)) [
    | inl is ↦
        rw is (remove_tokens_of-IsValid bot d (remove_token lib t s) (remove_token-IsValid t s v))
    | inr other ↦ rw other (remove_tokens_of-IsValid bot d s v)
  ]

  invalidate_bot-IsValid :
      (bot : Text) (s : Service) → IsValid s → IsValid (invalidate_bot lib bot s)
  unfolding invalidate_bot
  invalidate_bot-IsValid bot s v =
      remove_tokens_of-IsValid (strip_chars lib.is_space bot) s.entries s v

  pub get-remove_token :
      (t u : Text) (s : Service)
      → get (remove_token lib t s).entries u ≡ (if t == u then none else get s.entries u)
  unfolding remove_token
  get-remove_token t u s = elim (Option-cases (get s.entries t)) [
    | inl h ↦ rw (remove_token, h) (ground (arith, text_beq_iff t u, h))
    | inr (e, h) ↦ rw (remove_token, h) (get-remove s.entries t u)
  ]

  -- What is asked of an item of the snapshot.
  abbrev pub unless_bot :
      Text → Option PublishedMedia → Option PublishedMedia → Option PublishedMedia
  unless_bot bot none now = now
  unless_bot bot (some e) now = if e.bot_id == bot then none else now

  get-remove_tokens_of :
      (bot : Text) (d : Entries) (s : Service) (u : Text)
      → HasUniqueKeys d
      → get (remove_tokens_of lib bot d s).entries u ≡ unless_bot bot (get d u) (get s.entries u)
  unfolding remove_tokens_of get
  get-remove_tokens_of bot [] s u h = refl
  get-remove_tokens_of bot ((t, e) ∷ d) s u h = ground (
    arith,
    get-remove_tokens_of bot d (remove_token lib t s) u h.1,
    get-remove_tokens_of bot d s u h.1,
    get-remove_token t u s,
    text_beq_iff t u,
    h,
  )

  get-invalidate_bot :
      (bot : Text) (s : Service) (u : Text)
      → IsValid s
      → get (invalidate_bot lib bot s).entries u
        ≡ unless_bot (strip_chars lib.is_space bot) (get s.entries u) (get s.entries u)
  unfolding invalidate_bot
  get-invalidate_bot bot s u v =
      get-remove_tokens_of (strip_chars lib.is_space bot) s.entries s u v.linked.index.unique

  -- Forgetting the media of a bot keeps a valid service valid, and removes all the entries of the bot,
  -- its name stripped first, and no other.
  pub invalidate_bot-forgets :
      (bot : Text) (s : Service)
      → IsValid s
      → IsValid (invalidate_bot lib bot s)
        × ((u : Text)
            → get (invalidate_bot lib bot s).entries u
              ≡ unless_bot (strip_chars lib.is_space bot) (get s.entries u) (get s.entries u))
  invalidate_bot-forgets bot s v =
      (invalidate_bot-IsValid bot s v, λ u. get-invalidate_bot bot s u v)
