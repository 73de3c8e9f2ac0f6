-- ===== src/Identity.antt =====
-- rocketcat_shell/bridge/user_identity.py: `UserIdentityRegistry`, the numbers of Rocket.Chat users. The
-- tables of its database are lists of rows, and a transaction that raises leaves them as they were.
-- SHA-256 of the encoded user, and `str.strip`, are parameters. A point of time is a number.
pub mod Methods
pub mod Manage
mod Probe
mod Valid
mod Rows
mod Calls
mod Stable
mod Answers
mod Override
mod Tests
use rocket_cat_shell_linux.Base.{
  ℕ, zero, suc, ◌+◌, ◌-◌, ◌%◌, Bool, true, false, ◌&&◌, ◌||◌, not, Option, none, some, List, [],
  ◌∷◌, ◌++◌, ltb, nat_beq, if◌then◌else◌, ◌==◌, pair_key,
}
use rocket_cat_shell_linux.Base.Dict.{Dict, get, put}
use rocket_cat_shell_linux.Base.Int.{ℤ, pos, negsuc}
use rocket_cat_shell_linux.Base.Result.{Result, ok, raise, ◌>>=◌}
use rocket_cat_shell_linux.Base.Text.{Text, text_key, is_empty, or_else}

abbrev pub user_id_min : ℕ
user_id_min = 10000000000

abbrev pub user_id_max : ℕ
user_id_max = 99999999999

abbrev pub user_id_table_size : ℕ
user_id_table_size = 90000000000

-- A row of `user_mappings`.
pub record Row : Type 0 where
  pub user_id : Text
  pub username : Text
  pub nickname : Text
  pub onebot_id : ℕ
  pub primary_onebot_id : ℕ
  pub probe_offset : ℕ
  pub manual_override : Bool
  pub is_bot : Bool
  pub synthetic : Bool
  pub first_seen_at : ℕ
  pub last_seen_at : ℕ
  pub revision : ℕ

pub data Reason : Type 0 where
  hash_collision manual_primary_collision : Reason

-- A row of `identity_conflicts`; it is active as long as `resolved_at` is `none`.
pub record Conflict : Type 0 where
  pub conflict_id : ℕ
  pub primary_onebot_id : ℕ
  pub incumbent_user_id : Text
  pub displaced_user_id : Text
  pub displaced_onebot_id : ℕ
  pub probe_offset : ℕ
  pub reason : Reason
  pub created_at : ℕ
  pub resolved_at : Option ℕ

pub record Database : Type 0 where
  pub rows : List Row
  pub bot_users : Dict (Text × Text) ℕ
  pub conflicts : List Conflict
  pub next_conflict_id : ℕ

pub data IdentityError : Type 0 where
  empty_user_id invalid_onebot_id exhausted not_found revision_changed integrity : IdentityError
  occupied : Row → IdentityError

-- What is known of a user; the texts are stripped.
pub record Profile : Type 0 where
  pub user_id : Text
  pub username : Text
  pub nickname : Text
  pub is_bot : Bool
  pub synthetic : Bool

-- `SELECT * FROM user_mappings WHERE user_id=?`
unfoldable pub select_user : Text → List Row → Option Row
select_user u [] = none
select_user u (r ∷ l) = let rest = select_user u l in if r.user_id == u then some r else rest

-- `SELECT * FROM user_mappings WHERE onebot_id=?`
unfoldable pub select_onebot : ℕ → List Row → Option Row
select_onebot n [] = none
select_onebot n (r ∷ l) =
    let rest = select_onebot n l in if nat_beq r.onebot_id n then some r else rest

-- `UPDATE user_mappings SET ... WHERE user_id=?`
unfoldable pub update_user : Text → (Row → Row) → List Row → List Row
update_user u f [] = []
update_user u f (r ∷ l) = (if r.user_id == u then f r else r) ∷ update_user u f l

-- `DELETE FROM user_mappings WHERE user_id=?`
unfoldable pub delete_user : Text → List Row → List Row
delete_user u [] = []
delete_user u (r ∷ l) = let rest = delete_user u l in if r.user_id == u then rest else r ∷ rest

-- `INSERT INTO user_mappings`: the primary key and the unique column are checked.
unfoldable pub insert_row : Row → List Row → Result IdentityError (List Row)
unfolding select_user select_onebot
insert_row r l = elim (select_user r.user_id l) [
  | some other ↦ raise integrity
  | none ↦ elim (select_onebot r.onebot_id l) [
    | some other ↦ raise integrity
    | none ↦ ok (l ++ (r ∷ []))
  ]
]

-- `compute_primary_onebot_id`, of the digest as a number.
unfoldable pub compute_primary_onebot_id : ℕ → ℕ
compute_primary_onebot_id digest = user_id_min + digest % user_id_table_size

-- The difference modulo the size of the table, which Python takes of negative numbers too.
unfoldable pub compute_probe_offset : ℕ → ℕ → ℕ
compute_probe_offset primary n =
    ((n - user_id_min) + user_id_table_size - (primary - user_id_min)) % user_id_table_size

unfoldable pub validate_onebot_user_id : ℤ → Result IdentityError ℕ
validate_onebot_user_id (negsuc n) = raise invalid_onebot_id
validate_onebot_user_id (pos n) =
    if ltb n user_id_min || ltb user_id_max n then raise invalid_onebot_id else ok n

-- The number at an offset from the primary one.
unfoldable pub probe_id : ℕ → ℕ → ℕ
probe_id primary offset = user_id_min + (primary - user_id_min + offset) % user_id_table_size

-- The loop over the offsets, from one of them and its number on; the fuel is how many are left.
unfoldable pub probe : ℕ → ℕ → ℕ → ℕ → List Row → Result IdentityError (ℕ × ℕ)
unfolding select_onebot probe_id
probe zero primary offset n l = raise exhausted
probe (suc fuel) primary offset n l = elim (select_onebot n l) [
  | none ↦ ok (n, offset)
  | some occupant ↦ probe fuel primary (offset + 1) (probe_id primary (offset + 1)) l
]

-- The profile of a row, brought up to date.
unfoldable pub refreshed : Profile → ℕ → Row → Row
refreshed p now r =
    let username = or_else p.username r.username in
    let nickname = or_else p.nickname r.nickname in
    let same_profile =
      username == r.username
      && nickname == r.nickname
      && same_flag p.is_bot r.is_bot
      && same_flag p.synthetic r.synthetic in
    record r {
      username = username;
      nickname = nickname;
      is_bot = p.is_bot;
      synthetic = p.synthetic;
      last_seen_at = now;
      revision = if same_profile then r.revision else r.revision + 1;
    }
  where
    same_flag : Bool → Bool → Bool
    same_flag true b = b
    same_flag false b = not b

unfoldable pub new_row : Profile → ℕ → ℕ → ℕ → ℕ → Row
new_row p primary n offset now = record {
  user_id = p.user_id;
  username = p.username;
  nickname = p.nickname;
  onebot_id = n;
  primary_onebot_id = primary;
  probe_offset = offset;
  manual_override = false;
  is_bot = p.is_bot;
  synthetic = p.synthetic;
  first_seen_at = now;
  last_seen_at = now;
  revision = 1;
}

-- `_upsert_bot_user`, unless the bot has no name
unfoldable pub upsert_bot_user : Text → Text → ℕ → Database → Database
unfolding put
upsert_bot_user bot u now db =
    if is_empty bot then db else record db { bot_users = put db.bot_users (bot, u) now }

-- A row of `identity_conflicts` with the next number.
unfoldable pub insert_conflict : Conflict → Database → Database
insert_conflict c db = record db {
  conflicts = db.conflicts ++ (record c { conflict_id = db.next_conflict_id } ∷ []);
  next_conflict_id = db.next_conflict_id + 1;
}

-- The conflict of a new user with the one who has its primary number, if there is one.
unfoldable pub record_collision : Option Row → Text → ℕ → ℕ → ℕ → ℕ → Database → Database
unfolding insert_conflict
record_collision none u primary n offset now db = db
record_collision (some incumbent) u primary n offset now db =
    insert_conflict
      (record {
        conflict_id = 0;
        primary_onebot_id = primary;
        incumbent_user_id = incumbent.user_id;
        displaced_user_id = u;
        displaced_onebot_id = n;
        probe_offset = offset;
        reason = hash_collision;
        created_at = now;
        resolved_at = none;
      })
      db
