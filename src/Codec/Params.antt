-- ===== src/Codec/Params.antt =====
-- The parameters of a CQ code are read as they were written.
use rocket_cat_shell_linux.Base.{
  ℕ, ◌≡◌, refl, sym, ap, ◌∙◌, true, false, Option, none, some, List, [], ◌∷◌, ◌++◌, nat_beq, All,
  All-append, All-map, arith, map,
}
use rocket_cat_shell_linux.Base.Dict.{Dict, put, HasUniqueKeys, put-append, before-absent}
use rocket_cat_shell_linux.Base.Text.{Text, text_key}
use rocket_cat_shell_linux.Codec.{
  is_empty, in_type, in_params, escape_param, param_items, join_commas, suffix, lstrip_commas,
  split_commas, partition_eq, add_item, add_items, parse_params,
}
use rocket_cat_shell_linux.Codec.Escape.{unescape-escape_param, escape_param-in_type}
use mathlib.Core.List.{append_assoc, append-nil}

-- The entries of the data that have a value.
unfoldable pub present : Dict Text (Option Text) → Dict Text Text
present [] = []
present ((key, none) ∷ d) = present d
present ((key, some value) ∷ d) = (key, value) ∷ present d

abbrev pub IsParamKey : Text → Type 0
IsParamKey key =
    (is_empty key ≡ false) × All (λ c. (in_type c ≡ true) × (nat_beq c b'=' ≡ false)) key

abbrev item : Text × Text → Text
item (key, value) = key ++ (b'=' ∷ escape_param value)

abbrev pub AreParamKeys : Dict Text Text → Type 0
AreParamKeys = All (λ e. IsParamKey e.0)

param_items-present : (d : Dict Text (Option Text)) → param_items d ≡ map item (present d)
unfolding param_items present
param_items-present [] = refl
param_items-present ((key, none) ∷ d) = param_items-present d
param_items-present ((key, some value) ∷ d) = ap (◌∷◌ (item (key, value))) (param_items-present d)

partition_eq-item :
    (key value : Text)
    → All (λ c. (in_type c ≡ true) × (nat_beq c b'=' ≡ false)) key
    → partition_eq (key ++ (b'=' ∷ value)) ≡ (key, true, value)
unfolding partition_eq
partition_eq-item [] value k = refl
partition_eq-item (c ∷ key) value k = rw (k.0.1, partition_eq-item key value k.1)

add_item-put :
    (d : Dict Text Text) (key value : Text)
    → IsParamKey key
    → add_item d (item (key, value)) ≡ put d key value
unfolding add_item
add_item-put d key value k =
    rw (partition_eq-item key (escape_param value) k.1, unescape-escape_param value, k.0)

add_items-append :
    (d e : Dict Text Text)
    → HasUniqueKeys (d ++ e)
    → AreParamKeys e
    → add_items d (map item e) ≡ d ++ e
unfolding add_items
add_items-append d [] u k = sym (append-nil d)
add_items-append d ((key, value) ∷ e) u k =
    ap (λ (q : Dict Text Text). add_items q (map item e))
      (add_item-put d key value k.0 ∙ put-append d key value (before-absent d key value e u))
    ∙ add_items-append (d ++ (key, value) ∷ []) e (rw (append_assoc d ((key, value) ∷ []) e) u) k.1
    ∙ append_assoc d ((key, value) ∷ []) e

abbrev NoComma : Text → Type 0
NoComma = All (λ c. in_type c ≡ true)

split_commas-end : (x : Text) → NoComma x → split_commas x ≡ (x, [])
unfolding split_commas
split_commas-end [] n = refl
split_commas-end (c ∷ x) n = rw (split_commas-end x n.1) (ground (arith, n.0))

split_commas-comma :
    (x s : Text)
    → NoComma x
    → split_commas (x ++ (b',' ∷ s)) ≡ (x, (split_commas s).0 ∷ (split_commas s).1)
unfolding split_commas
split_commas-comma [] s n = refl
split_commas-comma (c ∷ x) s n = rw (split_commas-comma x s n.1) (ground (arith, n.0))

split_commas-join :
    (x : Text) (l : List Text) → All NoComma (x ∷ l) → split_commas (join_commas (x ∷ l)) ≡ (x, l)
unfolding join_commas
split_commas-join x [] n = split_commas-end x n.0
split_commas-join x (y ∷ l) n =
    split_commas-comma x (join_commas (y ∷ l)) n.0 ∙ rw (split_commas-join y l n.1)

item-NoComma : (key value : Text) → IsParamKey key → NoComma (item (key, value))
item-NoComma key value k =
    All-append (λ c. in_type c ≡ true) key (b'=' ∷ escape_param value)
      (All-map (λ c. (in_type c ≡ true) × (nat_beq c b'=' ≡ false)) (λ c. in_type c ≡ true)
        (λ c h. h.0) key k.1)
      (refl, escape_param-in_type value)

items-NoComma : (d : Dict Text Text) → AreParamKeys d → All NoComma (map item d)
items-NoComma [] k = tt
items-NoComma ((key, value) ∷ d) k = (item-NoComma key value k.0, items-NoComma d k.1)

-- `lstrip` takes just the comma that the suffix begins with.
lstrip_commas-item : (c : ℕ) (s : Text) → in_type c ≡ true → lstrip_commas (b',' ∷ c ∷ s) ≡ c ∷ s
unfolding lstrip_commas
lstrip_commas-item c s h = ground arith

join-nonempty :
    (key value : Text) (l : List Text)
    → IsParamKey key
    → (c : ℕ) × (t : Text) × (join_commas (item (key, value) ∷ l) ≡ c ∷ t) × (in_type c ≡ true)
unfolding join_commas
join-nonempty [] value l k = cc
join-nonempty (c ∷ key) value [] k = (c, _, refl, k.1.0.0)
join-nonempty (c ∷ key) value (y ∷ l) k = (c, _, refl, k.1.0.0)

parse_params-comma :
    (c : ℕ) (t first : Text) (more : List Text)
    → in_type c ≡ true
    → split_commas (c ∷ t) ≡ (first, more)
    → parse_params (b',' ∷ c ∷ t) ≡ add_items [] (first ∷ more)
unfolding parse_params
parse_params-comma c t first more h e = rw (lstrip_commas-item c t h, e, parse_params)

-- What `segment_to_cq` writes for the data is read as the entries that have a value.
pub parse_params-present :
    (d : Dict Text (Option Text))
    → HasUniqueKeys (present d)
    → AreParamKeys (present d)
    → parse_params (suffix (join_commas (param_items d))) ≡ present d
parse_params-present d u k = rw param_items-present (go (present d) u k)
  where
    go :
        (e : Dict Text Text)
        → HasUniqueKeys e
        → AreParamKeys e
        → parse_params (suffix (join_commas (map item e))) ≡ e
    go [] u k = unfold parse_params join_commas in refl
    go ((key, value) ∷ e) u k =
        let (c, t, same, h) = join-nonempty key value (map item e) k.0 in
        rw same (
          parse_params-comma c t (item (key, value)) (map item e) h
            (rw (← same) (split_commas-join _ _ (items-NoComma ((key, value) ∷ e) k)))
          ∙ add_items-append [] ((key, value) ∷ e) u k)

in_params-join : (l : List Text) → All NoComma l → All (λ c. in_params c ≡ true) (join_commas l)
unfolding join_commas
in_params-join [] n = tt
in_params-join (x ∷ []) n =
    All-map (λ c. in_type c ≡ true) (λ c. in_params c ≡ true) (λ c h. ground arith) x n.0
in_params-join (x ∷ y ∷ l) n =
    All-append (λ c. in_params c ≡ true) x _
      (All-map (λ c. in_type c ≡ true) (λ c. in_params c ≡ true) (λ c h. ground arith) x n.0)
      (refl, in_params-join (y ∷ l) n.1)

-- The parameters hold no closing bracket.
pub in_params-present :
    (d : Dict Text (Option Text))
    → AreParamKeys (present d)
    → All (λ c. in_params c ≡ true) (join_commas (param_items d))
in_params-present d k =
    rw param_items-present (in_params-join (map item (present d)) (items-NoComma (present d) k))
