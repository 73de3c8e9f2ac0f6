-- ===== src/Updater/Saved.antt =====
-- What `_backup` saves, and that `_restore` puts it back.
use rocket_cat_shell_linux.Base.{
  String, string_key, ◌==◌, ◌≡◌, ◌≢◌, refl, sym, ap, ◌∙◌, Bool, true, false, Option, none, some,
  List, [], ◌∷◌, All, ◌⊎◌, inl, inr, if◌then◌else◌, Bool-cases, arith,
}
use mathlib.Core.Path.{subst}
use rocket_cat_shell_linux.Base.Dict.{Dict, get, put, get-put, get-remove}
use rocket_cat_shell_linux.Updater.{
  managed_paths, Node, Kind, Marker, Transaction, Backup, Installation, set_node,
}
use rocket_cat_shell_linux.Updater.Rules.{
  Does, pure-Does, look-Does, effect-Does, bind-Does, weaken-Does, given-Does,
}
use rocket_cat_shell_linux.Updater.Helper.{
  kind_of, save_node, copy_to_backup, backup_path, backup_paths, among, within, backup_complete,
}

pub get-set_node :
    (path p : String) (o : Option Node) (d : Dict String Node)
    → get (set_node path o d) p ≡ (if path == p then o else get d p)
get-set_node path p none d = get-remove d path p
get-set_node path p (some node) d = get-put d path p node

pub not_among : (p : String) → among p [] ≢ true
unfolding among
not_among p h = absurd cc

within-put :
    (l : List String) (d : Dict String Kind) (path : String) (k : Kind)
    → among path l ≡ true
    → within d l ≡ true
    → within (put d path k) l ≡ true
unfolding within put
within-put l [] path k h w = simp h refl
within-put l ((q, j) ∷ d) path k h w = ground (arith, h, w, within-put l d path k h)

abbrev pub IsManaged : String → Type 0
IsManaged p = among p managed_paths ≡ true

pub All-IsManaged : All IsManaged managed_paths
unfolding among
All-IsManaged = (refl, (refl, (refl, (refl, (refl, (refl, (refl, (refl, (refl, (refl, tt))))))))))

-- One more path.
abbrev pub Or : (String → Type 0) → String → String → Type 0
Or D path p = D p ⊎ (path == p) ≡ true

pub among-cons :
    (D : String → Type 0) (path p : String) (l : List String)
    → D p ⊎ among p (path ∷ l) ≡ true
    → Or D path p ⊎ among p l ≡ true
unfolding among
among-cons D path p l (inl d) = inl (inl d)
among-cons D path p l (inr m) = elim (Bool-cases (path == p)) [
  | inl y ↦ inl (inr y)
  | inr n ↦ inr (ground (arith, n, m))
]

abbrev pub is_present : Option Marker → Bool
is_present none = false
is_present (some m) = true

module _ (original : Dict String Node) (m0 : Option Marker) where
  -- The managed paths have what they had.
  abbrev pub Same : Installation → Type 0
  Same s = (p : String) → IsManaged p → get s.source p ≡ get original p

  -- The backup is complete, and has what the managed paths had.
  pub record IsSaved (b : Backup) : Type 0 where
    pub complete : backup_complete b ≡ true
    pub kinds : Dict String Kind
    pub presence : b.presence ≡ some kinds
    pub has_kind : (p : String) → IsManaged p → get kinds p ≡ some (kind_of (get original p))
    pub has_file : (p : String) → IsManaged p → get b.files p ≡ get original p
    pub has_runtime : b.runtime ≡ m0
    pub runtime_present : b.complete ≡ some (is_present m0)

module _ (original : Dict String Node) (m0 : Option Marker) (held : Option Transaction) where
  -- The loop of the backup has done some paths.
  pub record IsSaving (D : String → Type 0) (kinds : Dict String Kind) (s : Installation)
      : Type 0 where
    pub source : s.source ≡ original
    pub marker : s.runtime ≡ m0
    pub complete : s.backup.complete ≡ none
    pub runtime : s.backup.runtime ≡ none
    pub payload : s.payload ≡ held
    pub files :
        (p : String) → (get s.backup.files p ≡ none) ⊎ (get s.backup.files p ≡ get original p)
    pub done :
        (p : String)
        → D p
        → (get s.backup.files p ≡ get original p) × (get kinds p ≡ some (kind_of (get original p)))
    pub known : within kinds managed_paths ≡ true

  -- Nothing is replaced, and there is no complete backup.
  abbrev pub IsClean : Installation → Type 0
  IsClean s =
      (s.source ≡ original) × (s.runtime ≡ m0) × (s.backup.complete ≡ none) × (s.payload ≡ held)

  pub IsSaving-IsClean :
      (D : String → Type 0) (kinds : Dict String Kind) (s : Installation)
      → IsSaving D kinds s
      → IsClean s
  IsSaving-IsClean D kinds s w = (w.source, w.marker, w.complete, w.payload)

  -- The path has its presence, and its copy unless there is nothing.
  saved_path :
      (D : String → Type 0) (kinds : Dict String Kind) (path : String) (s : Installation)
      → IsManaged path
      → IsSaving D kinds s
      → get s.backup.files path ≡ get original path
      → IsSaving (Or D path) (put kinds path (kind_of (get original path))) s
  saved_path D kinds path s managed w same = record {
    source = w.source;
    marker = w.marker;
    complete = w.complete;
    runtime = w.runtime;
    payload = w.payload;
    files = w.files;
    done = λ p d. elim (Bool-cases (path == p)) [
      | inl y ↦ (
        ap (get s.backup.files) (sym ((string_key.same_iff path p).0 y))
            ∙ same
            ∙ ap (get original) ((string_key.same_iff path p).0 y),
        get-put kinds path p _
            ∙ rw y (ap (λ q. some (kind_of (get original q))) ((string_key.same_iff path p).0 y)),
      )
      | inr n ↦
          let before : D p = elim d [ inl e ↦ e | inr y ↦ absurd cc ] in
          ((w.done p before).0, get-put kinds path p _ ∙ rw n (w.done p before).1)
    ];
    known = within-put managed_paths kinds path (kind_of (get original path)) managed w.known;
  }

  -- The copy of a path, by what is there.
  backup_path-Does :
      (D : String → Type 0) (kinds : Dict String Kind) (path : String) (o : Option Node)
      → IsManaged path
      → get original path ≡ o
      → Does Unit
          (IsSaving D kinds)
          (backup_path path o)
          (λ v. IsSaving (Or D path) (put kinds path (kind_of o)))
          IsClean
  unfolding backup_path copy_to_backup
  backup_path-Does D kinds path none managed e = pure-Does tt (λ s w.
      let absent : get s.backup.files path ≡ get original path = elim (w.files path) [
        | inl h ↦ h ∙ sym e
        | inr h ↦ h
      ] in
      subst (λ o. IsSaving (Or D path) (put kinds path (kind_of o)) s) e
        (saved_path D kinds path s managed w absent))
  backup_path-Does D kinds path (some node) managed e =
      effect-Does (save_node path) (save_node path (some node))
        (λ s w.
          let files = put s.backup.files path node in
          let at : (p : String)
              → get files p ≡ (if path == p then some node else get s.backup.files p) =
            λ p. get-put s.backup.files path p node in
          let mine : (p : String) → (path == p) ≡ true → get files p ≡ get original p =
            λ p y. at p ∙ rw y (sym e ∙ ap (get original) ((string_key.same_iff path p).0 y)) in
          let others : (p : String) → (path == p) ≡ false → get files p ≡ get s.backup.files p =
            λ p n. at p ∙ rw n refl in
          let next : IsSaving D kinds (save_node path (some node) s) = record {
            source = w.source;
            marker = w.marker;
            complete = w.complete;
            runtime = w.runtime;
            payload = w.payload;
            files = λ p. elim (Bool-cases (path == p)) [
              | inl y ↦ inr (mine p y)
              | inr n ↦ elim (w.files p) [
                | inl h ↦ inl (others p n ∙ h)
                | inr h ↦ inr (others p n ∙ h)
              ]
            ];
            done = λ p d. elim (Bool-cases (path == p)) [
              | inl y ↦ (mine p y, (w.done p d).1)
              | inr n ↦ (others p n ∙ (w.done p d).0, (w.done p d).1)
            ];
            known = w.known;
          } in
          subst
            (λ o. IsSaving (Or D path) (put kinds path (kind_of o)) (save_node path (some node) s))
            e
            (saved_path D kinds path (save_node path (some node) s) managed next
              (mine path ((string_key.same_iff path path).1 refl))))
        (λ s cut w. (w.source, w.marker, w.complete, w.payload))

  more-IsSaving :
      (D D' : String → Type 0) (kinds : Dict String Kind) (s : Installation)
      → ((p : String) → D' p → D p)
      → IsSaving D kinds s
      → IsSaving D' kinds s
  more-IsSaving D D' kinds s m w = record {
    source = w.source;
    marker = w.marker;
    complete = w.complete;
    runtime = w.runtime;
    payload = w.payload;
    files = w.files;
    done = λ p d. w.done p (m p d);
    known = w.known;
  }

  pub backup_paths-Does :
      (l : List String) (D : String → Type 0) (kinds : Dict String Kind)
      → All IsManaged l
      → Does Unit
          (IsSaving D kinds)
          (backup_paths l kinds)
          (λ k. IsSaving (λ p. D p ⊎ among p l ≡ true) k)
          IsClean
  unfolding backup_paths
  backup_paths-Does [] D kinds h = pure-Does kinds (λ s w.
      more-IsSaving D _ kinds s (λ p d. elim d [ inl e ↦ e | inr m ↦ absurd (not_among p m) ]) w)
  backup_paths-Does (path ∷ l) D kinds h =
      bind-Does {R = λ o s. IsSaving D kinds s × (get original path ≡ o)}
        (look-Does (λ s. get s.source path) (λ s w. (w, ap (λ d. get d path) (sym w.source))))
        (λ o. given-Does (λ e. bind-Does (backup_path-Does D kinds path o h.0 e) (λ copied.
          weaken-Does (λ n. n) (λ s w. w)
            (λ k s w.
              more-IsSaving _ (λ p. D p ⊎ among p (path ∷ l) ≡ true) k s
                (λ p m. among-cons D path p l m) w)
            (λ s c. c) (backup_paths-Does l (Or D path) (put kinds path (kind_of o)) h.1))))
