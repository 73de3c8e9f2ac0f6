-- ===== src/Registry/Atomic.antt =====
-- Saving changes both files or neither.
use rocket_cat_shell_linux.Base.{
  ◌≡◌, ◌≢◌, refl, ◌∙◌, Bool, true, false, Option, none, some, if◌then◌else◌, ◌==◌, inl, inr,
  Bool-cases, ap,
}
use rocket_cat_shell_linux.Base.Dict.{get, put, remove, get-put, get-remove}
use rocket_cat_shell_linux.Base.Text.{Text, text_key, text_beq_iff}
use rocket_cat_shell_linux.Registry.{
  Files, Fault, no_fault, before_opening, at_replace, while_writing, restore_snapshot, write_json,
  roll_back, save,
}

same-false : (p q : Text) → p ≢ q → (p == q) ≡ false
same-false p q n = elim (Bool-cases (p == q)) [
  | inl y ↦ absurd (n ((text_beq_iff p q).0 y))
  | inr d ↦ d
]

get-restore_snapshot :
    (files : Files) (path p : Text) (o : Option Text)
    → get (restore_snapshot path o files) p ≡ (if path == p then o else get files p)
unfolding restore_snapshot
get-restore_snapshot files path p none = get-remove files path p
get-restore_snapshot files path p (some c) = get-put files path p c

-- What stands at a path after one file was put back.
previous_place :
    (files : Files) (path p : Text) (o : Option Text)
    → ((path == p) ≡ false → o ≡ get files p)
    → (if path == p then get files path else o) ≡ get files p
previous_place files path p o h = elim (Bool-cases (path == p)) [
  | inl y ↦ simp y (ap (get files) ((text_beq_iff path p).0 y))
  | inr n ↦ simp n (h n)
]

get-roll_back :
    (path transport_path : Text) (files now : Files) (p : Text)
    → ((path == p) ≡ false → get now p ≡ get files p)
    → get (roll_back path transport_path files now) p ≡ get files p
unfolding roll_back
get-roll_back path transport_path files now p h =
    get-restore_snapshot _ transport_path p (get files transport_path)
    ∙ previous_place files transport_path p _ (λ other.
      get-restore_snapshot now path p (get files path) ∙ previous_place files path p (get now p) h)

module _ (temp_path : Text → Text) where
  -- Only the temporary file may have changed when a write raises.
  get-write_json :
      (fault : Fault) (path content : Text) (files : Files) (p : Text)
      → temp_path path ≢ p
      → get (write_json temp_path fault path content files).1 p ≡ (
          if (write_json temp_path fault path content files).0
          then get files p
          else (if path == p then some content else get files p))
  unfolding write_json
  get-write_json no_fault path content files p n =
      rw
        (
          get-put (remove (put files (temp_path path) content) (temp_path path)) path p content,
          get-remove (put files (temp_path path) content) (temp_path path) p,
          get-put files (temp_path path) p content,
          same-false (temp_path path) p n,
        )
        refl
  get-write_json before_opening path content files p n = refl
  get-write_json (while_writing part) path content files p n =
      rw (get-put files (temp_path path) p part, same-false (temp_path path) p n) refl
  get-write_json at_replace path content files p n =
      rw (get-put files (temp_path path) p content, same-false (temp_path path) p n) refl

  -- Saving either raises, and then every path has what it had, or it does not raise, and then the two
  -- files have their new contents and every other path what it had, wherever the writes fail. The
  -- temporary files of the two are left aside.
  pub save-all_or_nothing :
      (path transport_path : Text) (first second : Fault) (registry transports : Text)
      (files : Files) (p : Text)
      → temp_path path ≢ p
      → temp_path transport_path ≢ p
      → get (save temp_path path transport_path first second registry transports files).1 p ≡ (
          if (save temp_path path transport_path first second registry transports files).0
          then get files p
          else if transport_path == p
          then some transports
          else if path == p
          then some registry
          else get files p)
  unfolding save
  save-all_or_nothing path transport_path first second registry transports files p n m =
      go one.0 two.0 (get-write_json first path registry files p n)
        (get-write_json second transport_path transports one.1 p m)
    where
      one : Bool × Files
      one = write_json temp_path first path registry files

      two : Bool × Files
      two = write_json temp_path second transport_path transports one.1

      after : Bool → Bool → Bool × Files
      after failed failed_too =
          if failed
          then (true, roll_back path transport_path files one.1)
          else if failed_too
          then (true, roll_back path transport_path files two.1)
          else (false, two.1)

      go :
          (failed failed_too : Bool)
          → get one.1 p
            ≡ (if failed then get files p else (if path == p then some registry else get files p))
          → get two.1 p ≡ (
              if failed_too
              then get one.1 p
              else (if transport_path == p then some transports else get one.1 p))
          → get (after failed failed_too).1 p ≡ (
              if (after failed failed_too).0
              then get files p
              else if transport_path == p
              then some transports
              else if path == p
              then some registry
              else get files p)
      go true failed_too h k = get-roll_back path transport_path files one.1 p (λ other. h)
      go false true h k =
          get-roll_back path transport_path files two.1 p
            (λ other. k ∙ h ∙ ap (kept (some registry)) other)
        where
          kept : Option Text → Bool → Option Text
          kept o b = if b then o else get files p
      go false false h k =
          k ∙ ap (λ (o : Option Text). if transport_path == p then some transports else o) h
