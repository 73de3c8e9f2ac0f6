-- ===== src/Codec.antt =====
-- rocketcat_shell/bridge/transports/codec.py: CQ codes, the text form of OneBot messages.
-- Texts are lists of code points. The values of a segment's data are texts or `None`.
mod Escape
mod Match
mod Params
mod RoundTrip
mod Tests
use rocket_cat_shell_linux.Base.{
  ℕ, zero, suc, ◌+◌, Bool, true, false, ◌&&◌, ◌||◌, not, Option, none, some, List, [], ◌∷◌, ◌++◌,
  map, nat_beq, if◌then◌else◌, length, ◌==◌,
}
use rocket_cat_shell_linux.Base.Dict.{Dict, get, put}
use rocket_cat_shell_linux.Base.Text.{Text, codes, replace, starts_with, text_key, is_empty}

pub escape_text : Text → Text
unfolding replace
escape_text value =
    replace (replace (replace value (codes "&") (codes "&amp;")) (codes "[") (codes "&#91;"))
      (codes "]") (codes "&#93;")

pub escape_param : Text → Text
unfolding escape_text
escape_param value = replace (escape_text value) (codes ",") (codes "&#44;")

pub unescape : Text → Text
unfolding replace
unescape value =
    replace
      (replace (replace (replace value (codes "&#44;") (codes ",")) (codes "&#91;") (codes "["))
        (codes "&#93;") (codes "]"))
      (codes "&amp;") (codes "&")

-- A segment as `cq_to_segments` builds it.
pub record Segment : Type 0 where
  pub type : Text
  pub payload : Dict Text Text

-- An element of the list that `segments_to_cq` is given.
pub data RawSegment : Type 0 where
  -- no dict: the value's text
  other : Text → RawSegment
  -- the type, if there is one, and the data, where `none` is the value `None`
  segment : Option Text → Dict Text (Option Text) → RawSegment

-- `str(raw_segment.get("type") or "text")`
abbrev pub type_or_text : Option Text → Text
type_or_text none = codes "text"
type_or_text (some t) = if is_empty t then codes "text" else t

-- `str(data.get("text") or "")`
abbrev pub text_or_empty : Option (Option Text) → Text
text_or_empty (some (some t)) = t
text_or_empty _ = []

-- The items that `",".join` gets: `None` values are left out.
pub param_items : Dict Text (Option Text) → List Text
unfolding escape_param
param_items [] = []
param_items ((key, none) ∷ d) = param_items d
param_items ((key, some value) ∷ d) = (key ++ (b'=' ∷ escape_param value)) ∷ param_items d

-- `",".join(items)`
pub join_commas : List Text → Text
join_commas [] = []
join_commas (x ∷ []) = x
join_commas (x ∷ y ∷ l) = x ++ (b',' ∷ join_commas (y ∷ l))

-- `f",{params}" if params else ""`
abbrev pub suffix : Text → Text
suffix params = if is_empty params then [] else codes "," ++ params

pub segment_to_cq : RawSegment → Text
unfolding escape_text param_items join_commas get
segment_to_cq (other t) = escape_text t
segment_to_cq (segment raw_type fields) =
    let type = type_or_text raw_type in
    if type == codes "text"
    then escape_text (text_or_empty (get fields (codes "text")))
    else codes "[CQ:" ++ (type ++ (suffix (join_commas (param_items fields)) ++ codes "]"))

pub segments_to_cq : List RawSegment → Text
unfolding segment_to_cq
segments_to_cq [] = []
segments_to_cq (r ∷ l) = segment_to_cq r ++ segments_to_cq l

-- The longest prefix whose characters pass the test, and the rest.
pub span : (ℕ → Bool) → Text → Text × Text
span p [] = ([], [])
span p (c ∷ s) = let (a, b) = span p s in if p c then (c ∷ a, b) else ([], c ∷ s)

abbrev pub in_type : ℕ → Bool
in_type c = not (nat_beq c b',') && not (nat_beq c b']')

abbrev pub in_params : ℕ → Bool
in_params c = not (nat_beq c b']')

pub record CqMatch : Type 0 where
  pub type : Text
  pub params : Text
  pub rest : Text

-- the closing bracket
abbrev pub match_end : Text → Text → Text → Option CqMatch
match_end type params [] = none
match_end type params (c ∷ s) =
    if nat_beq c b']' then some (record { type = type; params = params; rest = s }) else none

-- `(?P<params>(?:,[^\]]*)?)\]`
pub match_params : Text → Text → Option CqMatch
unfolding span
match_params type [] = none
match_params type (c ∷ s) =
    if nat_beq c b','
    then (let (params, rest) = span in_params s in match_end type (c ∷ params) rest)
    else match_end type [] (c ∷ s)

-- `(?P<type>[^,\]]+)` and what follows
pub match_type : Text → Option CqMatch
unfolding match_params
match_type s =
    let (type, rest) = span in_type s in if is_empty type then none else match_params type rest

-- `_CQ_PATTERN` at the beginning of a text.
pub cq_match : Text → Option CqMatch
unfolding match_type
cq_match (a ∷ b ∷ c ∷ d ∷ s) =
    if nat_beq a b'[' && nat_beq b b'C' && nat_beq c b'Q' && nat_beq d b':'
    then match_type s
    else none
cq_match s = none

-- `lstrip(",")`
pub lstrip_commas : Text → Text
lstrip_commas [] = []
lstrip_commas (c ∷ s) = if nat_beq c b',' then lstrip_commas s else c ∷ s

-- `split(",")`: there is always a first item.
pub split_commas : Text → Text × List Text
split_commas [] = ([], [])
split_commas (c ∷ s) =
    let (first, more) = split_commas s in
    if nat_beq c b',' then ([], first ∷ more) else (c ∷ first, more)

-- `item.partition("=")`; the flag says whether the separator was there.
pub partition_eq : Text → Text × Bool × Text
partition_eq [] = ([], false, [])
partition_eq (c ∷ s) =
    let (key, found, value) = partition_eq s in
    if nat_beq c b'=' then ([], true, s) else (c ∷ key, found, value)

pub add_item : Dict Text Text → Text → Dict Text Text
unfolding partition_eq unescape put
add_item d item =
    let (key, found, value) = partition_eq item in
    if found && not (is_empty key) then put d key (unescape value) else d

pub add_items : Dict Text Text → List Text → Dict Text Text
unfolding add_item
add_items d [] = d
add_items d (item ∷ l) = add_items (add_item d item) l

pub parse_params : Text → Dict Text Text
unfolding lstrip_commas split_commas add_items
parse_params group =
    let raw = lstrip_commas group in
    let (first, more) = split_commas raw in if is_empty raw then [] else add_items [] (first ∷ more)

abbrev pub text_segment : Text → Segment
text_segment t = record { type = codes "text"; payload = (codes "text", unescape t) ∷ [] }

-- The text before a match, if there is any.
abbrev pub flush : Text → List Segment
flush pending = if is_empty pending then [] else text_segment pending ∷ []

-- `finditer` over the source; `pending` is `source[cursor : position]`. A match or a character is
-- consumed at each round, so the length of the source is fuel enough.
pub scan : ℕ → Text → Text → List Segment
unfolding cq_match parse_params
scan fuel pending [] = flush pending
scan zero pending (c ∷ s) = flush (pending ++ c ∷ s)
scan (suc fuel) pending (c ∷ s) = elim (cq_match (c ∷ s)) [
  | none ↦ scan fuel (pending ++ c ∷ []) s
  | some m ↦
      flush pending
      ++ record { type = m.type; payload = parse_params m.params } ∷ scan fuel [] m.rest
]

abbrev pub or_one_text : Text → List Segment → List Segment
or_one_text source [] = text_segment source ∷ []
or_one_text source (x ∷ l) = x ∷ l

pub cq_to_segments : Text → List Segment
unfolding scan
cq_to_segments source = or_one_text source (scan (length source) [] source)
