-- ===== src/Updater/Stored.antt =====
-- What `_backup` makes: a complete backup of what the managed paths have, or no complete backup.
use rocket_cat_shell_linux.Base.{
  String, string_key, ◌≡◌, refl, ap, ◌∙◌, Bool, true, false, ◌&&◌, Option, none, some, List, [],
  ◌∷◌, inl, inr, arith,
}
use rocket_cat_shell_linux.Base.Dict.{Dict, get}
use rocket_cat_shell_linux.Updater.{
  managed_paths, Node, Kind, Marker, garbled, Transaction, Installation,
}
use rocket_cat_shell_linux.Updater.Rules.{
  Does, pure-Does, throw-Does, look-Does, effect-Does, bind-Does, given-Does,
}
use rocket_cat_shell_linux.Updater.Helper.{
  kind_of, write_presence, save_runtime, backup_runtime, write_complete, make_backup_root,
  backup_all, covers, among, within, backup_complete,
}
use rocket_cat_shell_linux.Updater.Saved.{
  IsManaged, is_present, IsSaved, IsSaving, IsClean, IsSaving-IsClean, All-IsManaged,
  backup_paths-Does,
}

covers-present :
    (l : List String) (d : Dict String Kind)
    → ((p : String) → among p l ≡ true → (k : Kind) × (get d p ≡ some k))
    → covers l d ≡ true
unfolding covers among
covers-present [] d h = refl
covers-present (path ∷ l) d h =
    let mine = h path (ground (arith, (string_key.same_iff path path).1 refl)) in
    let rest = covers-present l d (λ p m. h p (ground (arith, m))) in ground (arith, mine.1, rest)

module _ (original : Dict String Node) (m0 : Option Marker) (held : Option Transaction) where
  record IsStored (s : Installation) : Type 0 where
    pub source : s.source ≡ original
    pub marker : s.runtime ≡ m0
    pub complete : s.backup.complete ≡ none
    pub payload : s.payload ≡ held
    pub kinds : Dict String Kind
    pub presence : s.backup.presence ≡ some kinds
    pub has_kind : (p : String) → IsManaged p → get kinds p ≡ some (kind_of (get original p))
    pub has_file : (p : String) → IsManaged p → get s.backup.files p ≡ get original p
    pub known : within kinds managed_paths ≡ true

  -- The backup is complete, and nothing is replaced.
  abbrev pub IsReady : Installation → Type 0
  IsReady s = (s.source ≡ original) × IsSaved original m0 s.backup × (s.payload ≡ held)

  -- The state in which the backup begins.
  abbrev pub IsFresh : Installation → Type 0
  IsFresh s = IsClean original m0 held s × (s.backup.files ≡ []) × (s.backup.runtime ≡ none)

  Nothing : String → Type 0
  Nothing p = ⊥

  begun : (s : Installation) → IsFresh s → IsSaving original m0 held Nothing [] s
  unfolding Nothing within get
  begun s f = record {
    source = f.0.0;
    marker = f.0.1;
    complete = f.0.2;
    payload = f.0.3;
    runtime = f.2;
    files = λ p. inl (ap (λ d. get d p) f.1);
    done = λ p d. absurd d;
    known = refl;
  }

  make_backup_root-Does :
      (b : Bool)
      → Does Unit IsFresh
          (make_backup_root b)
          (λ v. IsSaving original m0 held Nothing [])
          (IsClean original m0 held)
  unfolding make_backup_root
  make_backup_root-Does true = throw-Does (λ s f. (f.0, tt))
  make_backup_root-Does false =
      effect-Does _ _ (λ s f. begun (record s { backup = record s.backup { exists = true } }) f)
        (λ s cut f. f.0)

  write_presence-Does :
      (D : String → Type 0) (kinds : Dict String Kind)
      → ((p : String) → IsManaged p → D p)
      → Does Unit
          (IsSaving original m0 held D kinds)
          (write_presence kinds)
          (λ v s. IsStored s × (s.backup.runtime ≡ none))
          (IsClean original m0 held)
  unfolding write_presence
  write_presence-Does D kinds all =
      effect-Does _ _
        (λ s w. (
          record {
            source = w.source;
            marker = w.marker;
            complete = w.complete;
            payload = w.payload;
            kinds = kinds;
            presence = refl;
            has_kind = λ p m. (w.done p (all p m)).1;
            has_file = λ p m. (w.done p (all p m)).0;
            known = w.known;
          },
          w.runtime,
        ))
        (λ s cut w. IsSaving-IsClean original m0 held D kinds s w)

  Marked : Bool → Installation → Type 0
  Marked v s = IsStored s × (s.backup.runtime ≡ m0) × (v ≡ is_present m0)

  backup_runtime-Does :
      (m : Option Marker)
      → m ≡ m0
      → Does Unit
          (λ s. IsStored s × (s.backup.runtime ≡ none))
          (backup_runtime m)
          Marked
          (IsClean original m0 held)
  unfolding backup_runtime Marked
  backup_runtime-Does none e = pure-Does false (λ s w. (w.0, w.1 ∙ e, ap is_present e))
  backup_runtime-Does (some m) e =
      bind-Does {R = λ v s. IsStored s × (s.backup.runtime ≡ m0)}
        (effect-Does (λ cut s. save_runtime garbled s) (λ s. save_runtime m s)
          (λ s w. (
            record {
              source = w.0.source;
              marker = w.0.marker;
              complete = w.0.complete;
              payload = w.0.payload;
              kinds = w.0.kinds;
              presence = w.0.presence;
              has_kind = w.0.has_kind;
              has_file = w.0.has_file;
              known = w.0.known;
            },
            e,
          ))
          (λ s cut w. (w.0.source, w.0.marker, w.0.complete, w.0.payload)))
        (λ v. pure-Does true (λ s w. (w.0, w.1, ap is_present e)))

  write_complete-Does :
      (v : Bool) → Does Unit (Marked v) (write_complete v) (λ u. IsReady) (IsClean original m0 held)
  unfolding write_complete Marked backup_complete
  write_complete-Does v =
      effect-Does _ _
        (λ s w. (
          w.0.source,
          record {
            complete =
                ap
                  (λ (o : Option (Dict String Kind)).
                    backup_complete (record s.backup { complete = some v; presence = o }))
                  w.0.presence
                ∙ both
                    (covers-present managed_paths w.0.kinds
                      (λ p m. (kind_of (get original p), w.0.has_kind p m)))
                    w.0.known;
            kinds = w.0.kinds;
            presence = w.0.presence;
            has_kind = w.0.has_kind;
            has_file = w.0.has_file;
            has_runtime = w.1;
            runtime_present = ap some w.2;
          },
          w.0.payload,
        ))
        (λ s cut w. (w.0.source, w.0.marker, w.0.complete, w.0.payload))
    where
      both : {a b : Bool} → a ≡ true → b ≡ true → (a && b) ≡ true
      both h k = simp (h, k) refl

  pub backup_all-Does : Does Unit IsFresh backup_all (λ u. IsReady) (IsClean original m0 held)
  unfolding backup_all
  backup_all-Does = bind-Does (look-Does {Q = λ v. IsFresh} (λ s. s.backup.exists) (λ s f. f)) (λ b.
      bind-Does (make_backup_root-Does b) (λ made.
        bind-Does (backup_paths-Does original m0 held managed_paths Nothing [] All-IsManaged)
          (λ kinds. bind-Does (write_presence-Does _ kinds (λ p m. inr m)) (λ written.
            bind-Does {R = λ m s. (IsStored s × (s.backup.runtime ≡ none)) × (m ≡ m0)}
              (look-Does (λ s. s.runtime) (λ s w. (w, w.0.marker)))
              (λ m.
                given-Does
                  (λ e. bind-Does (backup_runtime-Does m e) (λ v. write_complete-Does v)))))))
