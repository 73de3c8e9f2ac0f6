-- ===== src/Updater/Restored.antt =====
-- `_restore` puts every managed path back, from a complete backup and with no transaction that is over.
use rocket_cat_shell_linux.Base.{
  String, string_key, ◌==◌, ◌≡◌, refl, sym, ap, ◌∙◌, true, false, Option, none, some, List, [], ◌∷◌,
  All, ◌⊎◌, inl, inr, Bool-cases,
}
use mathlib.Core.Path.{subst}
use rocket_cat_shell_linux.Base.Dict.{Dict, get}
use rocket_cat_shell_linux.Updater.{
  managed_paths, Node, directory, file, Kind, Marker, Transaction, Backup, Installation, look,
  ◌>>=◌,
}
use rocket_cat_shell_linux.Updater.Rules.{
  Does, pure-Does, look-Does, effect-Does, bind-Does, weaken-Does, given-Does,
}
use rocket_cat_shell_linux.Updater.Helper.{
  kind_of, place_node, copy_to_source, remove_exact, among, copy_node, restore_path, restore_paths,
  restore_runtime, restore_present, ensure_that, restore,
}
use rocket_cat_shell_linux.Updater.Transact.{is_terminal, is_before_replacement}
use rocket_cat_shell_linux.Updater.Saved.{
  IsManaged, Same, IsSaved, is_present, Or, get-set_node, not_among, among-cons, All-IsManaged,
}

-- The transaction is not over, and the replacement may have begun.
abbrev pub IsLate : Transaction → Type 0
IsLate t = (is_terminal t.status ≡ false) × (is_before_replacement t.stage ≡ false)

module _ (original : Dict String Node) (m0 : Option Marker) where
  abbrev pub IsHeld : Installation → Type 0
  IsHeld s = IsSaved original m0 s.backup × IsLate s.transaction

  -- Some paths are put back, one of them perhaps not.
  Fixed : (String → Type 0) → Installation → Type 0
  Fixed D s = (p : String) → D p → get s.source p ≡ get original p

  But : (String → Type 0) → String → String → Type 0
  But D path p = D p × ((path == p) ≡ false)

  remove_exact-Does :
      (D : String → Type 0) (path : String)
      → Does ⊥
          (λ s. IsHeld s × Fixed D s)
          (remove_exact path)
          (λ v s. IsHeld s × Fixed (But D path) s × (get s.source path ≡ none))
          IsHeld
  unfolding remove_exact Fixed But
  remove_exact-Does D path =
      effect-Does (place_node path) (place_node path none)
        (λ s w. (
          w.0,
          (λ p d. get-set_node path p none s.source ∙ rw d.1 (w.1 p d.0)),
          get-set_node path path none s.source ∙ rw ((string_key.same_iff path path).1 refl) refl,
        ))
        (λ s cut w. w.0)

  placed :
      (D : String → Type 0) (path : String) (s : Installation)
      → Fixed (But D path) s
      → get s.source path ≡ get original path
      → Fixed (Or D path) s
  unfolding Fixed But
  placed D path s others mine p d = elim (Bool-cases (path == p)) [
    | inl y ↦
        let same = (string_key.same_iff path p).0 y in
        ap (get s.source) (sym same) ∙ mine ∙ ap (get original) same
    | inr n ↦ elim d [ inl e ↦ others p (e, n) | inr y ↦ absurd cc ]
  ]

  copy_node-Does :
      (D : String → Type 0) (path : String) (node : Node) (o : Option Node)
      → o ≡ some node
      → get original path ≡ some node
      → Does ⊥
          (λ s. IsHeld s × Fixed (But D path) s)
          (copy_node path o)
          (λ v s. IsHeld s × Fixed (Or D path) s)
          IsHeld
  unfolding copy_node copy_to_source
  copy_node-Does D path node none h e = absurd cc
  copy_node-Does D path node (some found) h e =
      effect-Does (place_node path) (place_node path (some found))
        (λ s w. (
          w.0,
          placed D path (place_node path (some found) s)
              (unfold Fixed But in
                λ p d. get-set_node path p (some found) s.source ∙ rw d.1 (w.1 p d))
              (get-set_node path path (some found) s.source
                ∙ rw ((string_key.same_iff path path).1 refl) (h ∙ sym e)),
        ))
        (λ s cut w. w.0)

  put_back-Does :
      (D : String → Type 0) (path : String) (node : Node)
      → IsManaged path
      → get original path ≡ some node
      → Does ⊥
          (λ s. IsHeld s × Fixed D s)
          (remove_exact path >>= λ v. look (λ s. get s.backup.files path) >>= λ o. copy_node path o)
          (λ v s. IsHeld s × Fixed (Or D path) s)
          IsHeld
  put_back-Does D path node managed e = bind-Does (remove_exact-Does D path) (λ v.
      bind-Does {R = λ o s. (IsHeld s × Fixed (But D path) s) × (o ≡ some node)}
        (look-Does (λ s. get s.backup.files path)
          (λ s w. ((w.0, w.1), w.0.0.has_file path managed ∙ e)))
        (λ o. given-Does (λ h. copy_node-Does D path node o h e)))

  restore_path-Does :
      (D : String → Type 0) (path : String) (o : Option Node)
      → IsManaged path
      → get original path ≡ o
      → Does ⊥
          (λ s. IsHeld s × Fixed D s)
          (restore_path path (some (kind_of o)))
          (λ v s. IsHeld s × Fixed (Or D path) s)
          IsHeld
  unfolding restore_path
  restore_path-Does D path none managed e =
      weaken-Does (λ n. n) (λ s w. w) (λ v s w. (w.0, placed D path s w.1 (w.2 ∙ sym e))) (λ s w. w)
        (remove_exact-Does D path)
  restore_path-Does D path (some (directory d)) managed e =
      put_back-Does D path (directory d) managed e
  restore_path-Does D path (some (file t)) managed e = put_back-Does D path (file t) managed e

  restore_paths-Does :
      (l : List String) (D : String → Type 0) (kinds : Dict String Kind)
      → All IsManaged l
      → ((p : String) → IsManaged p → get kinds p ≡ some (kind_of (get original p)))
      → Does ⊥
          (λ s. IsHeld s × Fixed D s)
          (restore_paths l kinds)
          (λ v s. IsHeld s × Fixed (λ p. D p ⊎ among p l ≡ true) s)
          IsHeld
  unfolding restore_paths Fixed
  restore_paths-Does [] D kinds h k =
      pure-Does tt
        (λ s w. (w.0, λ p d. w.1 p (elim d [ inl e ↦ e | inr m ↦ absurd (not_among p m) ])))
  restore_paths-Does (path ∷ l) D kinds h k =
      bind-Does {R = λ v s. IsHeld s × Fixed (Or D path) s}
        (subst
          (λ o.
            Does ⊥ (λ s. IsHeld s × Fixed D s) (restore_path path o)
              (λ v s. IsHeld s × Fixed (Or D path) s) IsHeld)
          (sym (k path h.0)) (restore_path-Does D path (get original path) h.0 refl))
        (λ v.
          weaken-Does (λ n. n) (λ s w. w) (λ u s w. (w.0, λ p m. w.1 p (among-cons D path p l m)))
            (λ s w. w) (restore_paths-Does l (Or D path) kinds h.1 k))

  Nowhere : String → Type 0
  Nowhere p = ⊥

  restore_present-Does :
      (b : Backup)
      → IsSaved original m0 b
      → Does ⊥ IsHeld (restore_present b.presence) (λ v s. IsHeld s × Same original m0 s) IsHeld
  unfolding restore_present Fixed Nowhere
  restore_present-Does b saved =
      subst (λ o. Does ⊥ IsHeld (restore_present o) (λ v s. IsHeld s × Same original m0 s) IsHeld)
        (sym saved.presence)
        (weaken-Does (λ n. n) (λ s w. (w, λ p d. absurd d)) (λ v s w. (w.0, λ p m. w.1 p (inr m)))
          (λ s w. w)
          (restore_paths-Does managed_paths Nowhere saved.kinds All-IsManaged saved.has_kind))

  restore_runtime-Does :
      (m : Option Marker)
      → m ≡ m0
      → Does ⊥
          (λ s. IsHeld s × Same original m0 s)
          (restore_runtime (some (is_present m)) m)
          (λ v s. IsHeld s × Same original m0 s × (s.runtime ≡ m0))
          IsHeld
  unfolding restore_runtime
  restore_runtime-Does none e = effect-Does _ _ (λ s w. (w.0, w.1, e)) (λ s cut w. w.0)
  restore_runtime-Does (some m) e = effect-Does _ _ (λ s w. (w.0, w.1, e)) (λ s cut w. w.0)

  pub restore-Does :
      Does ⊥ IsHeld restore (λ v s. IsHeld s × Same original m0 s × (s.runtime ≡ m0)) IsHeld
  unfolding restore ensure_that
  restore-Does =
      bind-Does {R = λ b s. IsHeld s × IsSaved original m0 b}
        (look-Does (λ s. s.backup) (λ s w. (w, w.0)))
        (λ b. given-Does (λ saved.
          bind-Does {R = λ v. IsHeld}
            (subst (λ c. Does ⊥ IsHeld (ensure_that c) (λ v. IsHeld) IsHeld) (sym saved.complete)
              (pure-Does tt (λ s w. w)))
            (λ c. bind-Does (restore_present-Does b saved) (λ v.
              subst
                (λ q.
                  Does ⊥ (λ s. IsHeld s × Same original m0 s) (restore_runtime q b.runtime)
                    (λ v s. IsHeld s × Same original m0 s × (s.runtime ≡ m0)) IsHeld)
                (ap (λ m. some (is_present m)) saved.has_runtime ∙ sym saved.runtime_present)
                (restore_runtime-Does b.runtime saved.has_runtime)))))
