-- ===== src/Lib.antt =====
-- Fava, a client library for Nostr relays in Rust: its event state, its event cache, its queries,
-- its write receipts with their delivery lifecycle, its delivery policy, its routing, its sharing
-- and planning of subscriptions, and its edits of contact lists.
--
-- How the parts interact. Relays deliver events. What an event does to what is already known is
-- decided by pure functions (crates/fava-state); the event cache (crates/fava-event-cache, with the
-- bounded cache in memory of crates/fava-event-cache-memory) gives such a decision its events inside
-- one transaction and applies the mutations it answers. A write is accepted into a write store
-- (crates/fava-write-store-memory), which keeps a receipt of it (crates/fava-write); routers plan its
-- destinations (crates/fava-routing), a plan is put into the receipt (crates/fava-write-store), and a
-- delivery policy (crates/fava-delivery-standard) says when an attempt at a destination begins. Reads
-- become demand on relay sessions: demand that a filter already sent covers
-- (crates/fava-subscriptions) needs no request, and the rest is grouped into shared filters, split
-- until each fits into a message, and opened as far as the relay's limits allow
-- (crates/fava-subscriptions-standard). What the cache and the write store contribute is merged into
-- records, from which a query is answered (crates/fava-query-standard). An application edits its
-- contact list by changes that the write store keeps as bytes (crates/fava-nip02).
--
-- Which file models which part. A file bears the names of the source for what it defines; a child
-- that is named for a property holds its lemmas and its theorem.
--   Base, BTreeMap, BTreeSet, Sorting: Booleans, lists and results, the maps and sets of Rust's
--     standard library as ascending lists, and its sorting of vectors.
--   Nostr: values of the `nostr` crate. An event identity or a public key is the number that its
--     bytes spell, a relay URL and a letter are known by their place in their order, and the crate's
--     functions are the fields of the parameter `Nostr`. `IsNip01` holds what NIP-01 and NIP-09
--     say of them: an identity binds the other fields of verified events, and deletions are regular.
--   State (crates/fava-state/src/lib.rs): Contribution is `relay_occurrences_for_event`, Coordinate
--     is `event_coordinate` and `event_is_newer`, Deletion is `deletion_applies` and
--     `event_is_expired`, Mutations is `mutations_for_event` and `mutations_for_expiration`.
--   EventCache (crates/fava-event-cache/src/lib.rs and crates/fava-event-cache-memory/src/lib.rs):
--     Memory is `MemoryEventCache`, its lock-protected state being the argument and the answer of
--     each method, and the watch channel the snapshot sent last; Contract is `admit` and `expire`.
--   Routing (crates/fava-routing/src/lib.rs and chain.rs): Plan is the types of plans, Contribution
--     is `validate_bounds` and `from_contribution`, Composer is the `Composer` of a chain; a call
--     that panics answers `none`.
--   Write (crates/fava-write, crates/fava-write-store, crates/fava-write-store-memory): Receipt is
--     the receipt, Routes is `apply_route_to_receipt`, Store is the store's state with acceptance,
--     cancellation and removal, Reservations is semantic_reservation.rs, Lifecycle is what each
--     handler of lifecycle.rs decides of a receipt, and Handlers is the state change around that
--     decision, with the promotion of a successor. A handler answers the new state beside its
--     result, since a refusal may come after a change.
--   Delivery/Policy (crates/fava-delivery-standard/src/lib.rs): `StandardDeliveryPolicy::decide`.
--   Subscriptions (crates/fava-subscriptions/src/coverage.rs and
--     crates/fava-subscriptions-standard/src/grouping.rs): Filter is the filter of the `nostr` crate
--     by its fields, Matching is NIP-01's meaning of it, Coverage is `filter_covers`, Union is
--     `merge_on_sole_differing_axis`, Grouping is `group`.
--   Planner (crates/fava-subscriptions-standard/src/lib.rs, attach.rs and diff.rs, with the types of
--     crates/fava-subscriptions): Attach is `admit` and `surviving_owners`, Message is
--     `fit_message_bound`, Candidates is the other steps, Diff is `assemble`, and Plan is
--     `StandardSubscriptionPlanner::plan` over a `Request`, the arguments of the call with what it
--     calls of other crates.
--   Query (crates/fava-query and crates/fava-query-standard/src/lib.rs): Types is queries, records
--     and snapshots, Build is the methods that build a query and bind it to the current account,
--     Evaluate is `StandardQueryEvaluator::evaluate`, Cached is the memory cache as a source.
--   Nip02 (crates/fava-nip02/src/edit.rs and crates/fava-write/src/edit.rs): Text is Rust's texts as
--     bytes of UTF-8, Change is changes, Codec is `encode` and `decode`, Rows is `apply`, Edit is
--     `follow`, `unfollow`, `follow_with` and `supports`. `IsDocumented` holds what the `nostr` crate
--     documents of keys, relay URLs and tags.
--   Tests: runs at concrete values.
--
-- Bounds and fuel. Counters of 64 and 32 bits are numbers with the overflow check of the source
-- written out. The rounds of `merge_to_fixed_point` are on fuel, the number of candidates, since each
-- round takes one away. The loop of `fit_message_bound` is on fuel, twice the number of the pending
-- demands, since a split leaves fewer demands in each half and the halves are grouped again. Every
-- other function is a structural recursion.
--
-- What is not modelled: locks and their poisoning, channels and tasks, since the operations run
-- under one lock; the messages of errors, of which the kind is kept; the texts that are made of
-- other texts, as parameters or as their parts; semantic acceptance and composition of the
-- write store, the sessions of the router chain, the reading of contact lists and the other lists,
-- the observation of relays, the databases, the transport and the runtime.
pub mod Base
pub mod BTreeMap
pub mod Sorting
pub mod Nostr
pub mod State
pub mod EventCache
pub mod BTreeSet
pub mod Nip02
pub mod Planner
pub mod Query
pub mod Routing
pub mod Write
pub mod Delivery
pub mod Tests
pub mod Subscriptions
