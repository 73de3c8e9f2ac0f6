-- ===== src/IdMap/Create.antt =====
-- `get_or_create`, `get_source`, `get_surrogate` and `rebuild_message_window` together.
use rocket_cat_shell_linux.Base.{
  ℕ, ◌+◌, ◌<◌, String, ◌≡◌, refl, false, Option, none, some, nat_key, string_key, arith,
  Option-cases, inl, inr, ap,
}
use rocket_cat_shell_linux.Base.Dict.{Dict, get, get-put_self}
use rocket_cat_shell_linux.Base.Result.{ok}
use rocket_cat_shell_linux.IdMap.{
  Namespace, room, message, thread, context, namespace_of, base, Table, Payload, table, set_table,
  empty_payload, IdMapping, MessageWindowSnapshot, add_source, maintain_message_window,
  after_insert, get_or_create_in, or_default, notification, get_or_create, get_source,
  get_surrogate,
}
use rocket_cat_shell_linux.IdMap.Consistent.{
  IsConsistent, add_source-IsConsistent, empty_table-IsConsistent,
}
use rocket_cat_shell_linux.IdMap.Maintain.{maintain-IsConsistent, added_survives}

-- Every table of the payload is consistent over its own base.
pub record AreConsistent (p : Payload) : Type 0 where
  pub rooms : IsConsistent (base room) p.rooms
  pub messages : IsConsistent (base message) p.messages
  pub threads : IsConsistent (base thread) p.threads
  pub contexts : IsConsistent (base context) p.contexts

pub empty_payload-AreConsistent : AreConsistent empty_payload
empty_payload-AreConsistent = record {
  rooms = empty_table-IsConsistent (base room);
  messages = empty_table-IsConsistent (base message);
  threads = empty_table-IsConsistent (base thread);
  contexts = empty_table-IsConsistent (base context);
}

pub table-IsConsistent :
    {p : Payload} → AreConsistent p → (ns : Namespace) → IsConsistent (base ns) (table p ns)
table-IsConsistent c room = c.rooms
table-IsConsistent c message = c.messages
table-IsConsistent c thread = c.threads
table-IsConsistent c context = c.contexts

pub set_table-AreConsistent :
    {p : Payload}
    → AreConsistent p
    → (ns : Namespace) (t : Table) → IsConsistent (base ns) t
    → AreConsistent (set_table p ns t)
set_table-AreConsistent c room t h = record {
  rooms = h;
  messages = c.messages;
  threads = c.threads;
  contexts = c.contexts;
}
set_table-AreConsistent c message t h = record {
  rooms = c.rooms;
  messages = h;
  threads = c.threads;
  contexts = c.contexts;
}
set_table-AreConsistent c thread t h = record {
  rooms = c.rooms;
  messages = c.messages;
  threads = h;
  contexts = c.contexts;
}
set_table-AreConsistent c context t h = record {
  rooms = c.rooms;
  messages = c.messages;
  threads = c.threads;
  contexts = h;
}

-- What a call of `get_or_create_in` for the source `s` brings about.
pub record IsMapped (ns : Namespace) (s : String) (m : IdMapping) (p : Payload) : Type 0 where
  pub namespace : m.namespace ≡ ns
  pub source_id : m.source_id ≡ s
  pub forward : get (table p ns).forward s ≡ some m.surrogate_id
  pub consistent : AreConsistent p

pub record Outcome (window : ℕ) (ns : Namespace) (s : String) (p : Payload) : Type 0 where
  pub mapping : IdMapping
  pub snapshot : Option MessageWindowSnapshot
  pub payload : Payload
  pub returns : get_or_create_in window ns s p ≡ ok (mapping, snapshot, payload)
  pub mapped : IsMapped ns s mapping payload

table-set_table : (p : Payload) (ns : Namespace) (t : Table) → table (set_table p ns t) ns ≡ t
table-set_table p room t = refl
table-set_table p message t = refl
table-set_table p thread t = refl
table-set_table p context t = refl

pub find_known :
    (window : ℕ) (s : String) (p : Payload) (ns : Namespace) (i : ℕ)
    → get (table p ns).forward s ≡ some i
    → get_or_create_in window ns s p
      ≡ ok (record { namespace = ns; source_id = s; surrogate_id = i }, none, p)
unfolding get_or_create_in
find_known window s p ns i h = rw (h, get_or_create_in)

module _ (window : ℕ) (s : String) (p : Payload) (c : AreConsistent p) where
  -- the payload with a new number for `s`
  abbrev inserted : Namespace → Payload
  inserted ns = set_table p ns (add_source (base ns) s (table p ns))

  abbrev new_mapping : Namespace → IdMapping
  new_mapping ns = record {
    namespace = ns;
    source_id = s;
    surrogate_id = base ns + (add_source (base ns) s (table p ns)).counter;
  }

  inserted-IsMapped :
      (ns : Namespace)
      → get (table p ns).forward s ≡ none
      → IsMapped ns s (new_mapping ns) (inserted ns)
  unfolding add_source
  inserted-IsMapped ns new = record {
    namespace = refl;
    source_id = refl;
    forward =
        rw table-set_table
          (get-put_self (table p ns).forward s (base ns + ((table p ns).counter + 1)));
    consistent =
        set_table-AreConsistent c ns _ (add_source-IsConsistent (table-IsConsistent c ns) s new);
  }

  create_message : 0 < window → get p.messages.forward s ≡ none → Outcome window message s p
  unfolding get_or_create_in after_insert
  create_message pos new =
      let t : Table = add_source (base message) s p.messages in
      let (j, there) = added_survives c.messages window s pos new in
      record {
        mapping = record { namespace = message; source_id = s; surrogate_id = j };
        snapshot = (maintain_message_window window false false t).1;
        payload = record p { messages = (maintain_message_window window false false t).0 };
        returns = ground (arith, there);
        mapped = record {
          namespace = refl;
          source_id = refl;
          forward = there;
          consistent =
              set_table-AreConsistent c message _ (
                maintain-IsConsistent (add_source-IsConsistent c.messages s new) window false
                  false);
        };
      }

  create : (ns : Namespace) → 0 < window → get (table p ns).forward s ≡ none → Outcome window ns s p
  unfolding get_or_create_in after_insert
  create message pos new = create_message pos new
  create ns pos new = record {
    mapping = new_mapping ns;
    snapshot = none;
    payload = inserted ns;
    returns = rw (new, get_or_create_in);
    mapped = inserted-IsMapped ns new;
  }

  pub get_or_create_in-Outcome : (ns : Namespace) → 0 < window → Outcome window ns s p
  get_or_create_in-Outcome ns pos = elim (Option-cases (get (table p ns).forward s)) [
    | inl new ↦ create ns pos new
    | inr (i, known) ↦ record {
      mapping = record { namespace = ns; source_id = s; surrogate_id = i };
      snapshot = none;
      payload = p;
      returns = find_known window s p ns i known;
      mapped = record { namespace = refl; source_id = refl; forward = known; consistent = c };
    }
  ]

-- The namespace is known, no call of `get_or_create` raises, the source has the number that it
-- returns and no other source has it, and the stored payload is consistent again.
pub get_or_create-total :
    (window : ℕ) (name s : String) (file : Option Payload) (ns : Namespace)
    → 0 < window
    → namespace_of name ≡ ok ns
    → AreConsistent (or_default file)
    → (m : IdMapping) × (n : Option (Dict String ℕ)) × (p : Payload) × (get_or_create window name s
          file
        ≡ (ok (record { mapping = m; notified = n }), some p))
      × AreConsistent p
      × (m.source_id ≡ s)
      × (get_surrogate name s (some p) ≡ ok (some m.surrogate_id))
      × (get_source name m.surrogate_id (some p) ≡ ok (some s))
unfolding get_or_create get_surrogate get_source
get_or_create-total window name s file ns pos known c =
    let o = get_or_create_in-Outcome window s (or_default file) c ns pos in
    let back = (table-IsConsistent o.mapped.consistent ns).to_reverse s _ o.mapped.forward in
    (
      o.mapping,
      notification o.snapshot,
      o.payload,
      rw (known, o.returns),
      o.mapped.consistent,
      o.mapped.source_id,
      rw known (ap (λ v. ok v) o.mapped.forward),
      rw known (ap (λ v. ok v) back),
    )
