-- ===== src/Tests/Crate.antt =====
-- A stand-in for the `nostr` crate: an identity says when an event was made, and of which kind.
use Prim.Native.String.{len}
use fava.Base.{
  is_empty, ℕ, ◌+◌, true, ◌&&◌, ◌||◌, ◌≡◌, none, some, List, [], ◌∷◌, arith, ltb, leb, ◌==◌,
  if◌then◌else◌, refl,
}
use fava.Nostr.{Event, Nostr, IsNip01, Kind, Tag}
use fava.State.Contribution.{RelayEvent, unauthenticated}

abbrev kind_of : ℕ → Kind
kind_of id = if ltb id 8 then 10002 else 5

abbrev pub crate : Nostr
crate = record {
  event_deletion = 5;
  is_replaceable = λ kind. kind == 0 || kind == 3 || (leb 10000 kind && ltb kind 20000);
  from_hex = λ text. some (len text);
  parse_coordinate = λ text.
      if len text == 3
      then some (record { public_key = 7; kind = 10002; identifier = "" })
      else none;
  verify = λ e. e.pubkey == 7 && e.created_at == e.id && e.kind == kind_of e.id && is_empty e.tags;
  same = λ a b. a.id == b.id;
}

no_tags : (tags : List Tag) → is_empty tags ≡ true → tags ≡ []
no_tags [] h = refl
no_tags (tag ∷ tags) h = cc

pub crate-IsNip01 : IsNip01 crate
crate-IsNip01 = record {
  binds = λ a b h k e. ground (arith, no_tags a.tags, no_tags b.tags);
  deletion_not_replaceable = refl;
  deletion_not_addressable = omega arith;
}

-- Any event, and a verified one as one relay delivered it.
abbrev pub event_of : ℕ → Kind → List Tag → Event
event_of id kind tags = record {
  id = id;
  pubkey = 7;
  created_at = id;
  kind = kind;
  tags = tags;
  content = "";
  sig = 0;
}

abbrev pub delivered : ℕ → RelayEvent
delivered id = record {
  event = event_of id (kind_of id) [];
  occurrence = record { session = 1; authority = unauthenticated; observed_at = id + 1 };
}
