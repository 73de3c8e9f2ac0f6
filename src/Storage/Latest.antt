-- ===== src/Storage/Latest.antt =====
-- Where a sender was seen last in a context.
use rocket_cat_shell_linux.Base.{
  ℕ, ◌≤◌, ◌≡◌, String, true, Option, none, some, List, [], ◌∷◌, arith, string_key, Option-cases,
  inl, inr, ◌⊎◌, if◌then◌else◌, ◌==◌, same_refl,
}
use rocket_cat_shell_linux.Base.Dict.{Dict, get, get-put}
use rocket_cat_shell_linux.Storage.{
  MessageEntry, Fragment, Latest, put_newer, bucket_of, put_latest, index_entry, build_latest,
  is_set,
}
use text.Mathlib.TextEquality.{eq_iff}

-- The fragment of a sender in a context.
abbrev pub fragment_of : Latest → String → String → Option Fragment
fragment_of latest c s = get (bucket_of latest c) s

-- A fragment that is at least as new.
abbrev pub IsSince : ℕ → Option Fragment → Type 0
IsSince t none = ⊥
IsSince t (some f) = t ≤ f.timestamp

fragment-put_latest :
    (c s c' s' : String) (f : Fragment) (latest : Latest)
    → fragment_of (put_latest c s f latest) c' s'
      ≡ (if c == c' then get (put_newer s f (bucket_of latest c)) s' else fragment_of latest c' s')
unfolding put_latest
fragment-put_latest c s c' s' f latest =
    ground (arith, get-put latest c c' (put_newer s f (bucket_of latest c)))

put_newer-IsSince :
    (s : String) (f : Fragment) (b : Dict String Fragment)
    → IsSince f.timestamp (get (put_newer s f b) s)
unfolding put_newer
put_newer-IsSince s f b = elim (Option-cases (get b s)) [
  | inl h ↦ rw (put_newer, h) (ground (arith, get-put b s s f, same_refl s))
  | inr (g, h) ↦ rw (put_newer, h) (ground (arith, get-put b s s f, same_refl s, h))
]

put_newer-keeps :
    (s s' : String) (f : Fragment) (b : Dict String Fragment) (t : ℕ)
    → IsSince t (get b s')
    → IsSince t (get (put_newer s f b) s')
unfolding put_newer
put_newer-keeps s s' f b t h = elim (Option-cases (get b s)) [
  | inl q ↦ rw (put_newer, q) (ground (arith, get-put b s s' f, eq_iff s s', q, h))
  | inr (g, q) ↦ rw (put_newer, q) (ground (arith, get-put b s s' f, eq_iff s s', q, h))
]

module _ (strip : String → String) (decimal : ℕ → String) where
  -- The context and the sender of an entry, as they are stored.
  abbrev pub HasPair : MessageEntry → String → String → Type 0
  HasPair e c s =
      (strip e.context_source_id ≡ c)
      × (strip e.sender_source_id ≡ s)
      × (is_set c ≡ true)
      × (is_set s ≡ true)
      × (is_set (strip e.room_source_id) ≡ true)
      × (is_set (strip e.source_id) ≡ true)

  abbrev fragment : MessageEntry → Fragment
  fragment e = record {
    source_id = strip e.source_id;
    room_source_id = strip e.room_source_id;
    thread_source_id = strip e.thread_source_id;
    timestamp = e.timestamp;
  }

  index-IsSince :
      (e : MessageEntry) (latest : Latest) (c s : String)
      → HasPair e c s
      → IsSince e.timestamp (fragment_of (index_entry strip decimal e latest) c s)
  unfolding index_entry
  index-IsSince e latest c s h = ground (
    arith,
    h,
    fragment-put_latest c s c s (fragment e) latest,
    same_refl c,
    put_newer-IsSince s (fragment e) (bucket_of latest c),
  )

  index-keeps :
      (e : MessageEntry) (latest : Latest) (c s : String) (t : ℕ)
      → IsSince t (fragment_of latest c s)
      → IsSince t (fragment_of (index_entry strip decimal e latest) c s)
  unfolding index_entry
  index-keeps e latest c s t h =
      let c' = strip e.context_source_id in
      let s' = strip e.sender_source_id in
      ground (
        arith,
        h,
        fragment-put_latest c' s' c s (fragment e) latest,
        eq_iff c' c,
        put_newer-keeps s' s (fragment e) (bucket_of latest c') t,
      )

  build-keeps :
      (l : List MessageEntry) (latest : Latest) (c s : String) (t : ℕ)
      → IsSince t (fragment_of latest c s)
      → IsSince t (fragment_of (build_latest strip decimal l latest) c s)
  unfolding build_latest
  build-keeps [] latest c s t h = h
  build-keeps (e ∷ l) latest c s t h =
      build-keeps l (index_entry strip decimal e latest) c s t (index-keeps e latest c s t h)

  abbrev pub IsIn : MessageEntry → List MessageEntry → Type 0
  IsIn e [] = ⊥
  IsIn e (x ∷ l) = (x ≡ e) ⊎ IsIn e l

  -- The fragment of a sender in a context is at least as new as every entry of the two that has a
  -- room and a source.
  pub build_latest-newest :
      (l : List MessageEntry) (latest : Latest) (e : MessageEntry) (c s : String)
      → IsIn e l
      → HasPair e c s
      → IsSince e.timestamp (fragment_of (build_latest strip decimal l latest) c s)
  unfolding build_latest
  build_latest-newest (x ∷ l) latest e c s (inl is) h =
      build-keeps l (index_entry strip decimal x latest) c s e.timestamp
        (rw is (index-IsSince e latest c s h))
  build_latest-newest (x ∷ l) latest e c s (inr later) h =
      build_latest-newest l (index_entry strip decimal x latest) e c s later h
  build_latest-newest [] latest e c s h p = absurd h
