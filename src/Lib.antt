-- ===== src/Lib.antt =====
-- Knarr, a peer-to-peer network for agents that offer and buy skills: a model of its core.
--
-- The program is a node (src/knarr/dht/node.py) around which components are joined. The components
-- that decide something are modelled here, each in a module that follows its source:
--
--   EventBus   src/knarr/dht/eventbus.py: the in-process bus on which all parts publish events.
--              EventBus.Defs has the bus's state and the methods of `class EventBus` (emit,
--              _write_to_ring as write_to_ring, tick, cancel, subscribe, unsubscribe),
--              EventBus.Subscriber those of `class Subscriber` (poll, one pass of next), and
--              EventBus.Glob the pattern matching of `fnmatch`. EventBus.Commands has the calls as
--              data and runs of them, EventBus.History what such a run is worth.
--   KBuckets   plugins/01-kademlia/kbuckets.py: the routing table `KBucketTable` of the Kademlia
--              plugin. KBuckets.Defs has its methods, KBuckets.Store its SQLite persistence.
--   Providers  plugins/01-kademlia/providers.py: `ProviderCache`, which remembers who offers a
--              skill. Providers.Defs has store, remove and the eviction, Providers.Sweep the loops
--              over all records (loading, expiry, queries, statistics).
--   Commerce   src/knarr/commerce: the decisions on money. Commerce.Pricing is pricing_engine.py,
--              Commerce.Prepaid is prepaid_engine.py, Commerce.Gate is admission_gate.py,
--              Commerce.Pipeline is admission_pipeline.py, which joins these three, and
--              Commerce.Settlement is settlement_engine.py.
--   Firewall   plugins/01-firewall/handler.py: the plugin that limits traffic. Firewall.Defs has its
--              HistoryBuffer, SlidingWindow and OutboundManager, whose sends are results here; the
--              checks of inbound messages, which use them, are not modelled.
--   Watchman   src/knarr/watchman/supervisor.py: `class Supervisor`, the process beside the node that
--              restarts it. Watchman.Defs has what each of its loops does between two awaits and the
--              step relation of the loops, the node's process and the calls from outside;
--              Watchman.Crashes the monitor's loop over a run of crashes.
--   Lookup     plugins/01-kademlia/lookup.py: `IterativeLookup`, the search for nodes and for providers
--              of a skill. Lookup.Defs has find_nodes, find_providers and find_providers_disjoint over
--              one loop of rounds, Lookup.Integers `int(text, 16)` and `^` on integers of both signs.
--   Ledger     the table `ledger` of src/knarr/dht/storage.py, the balances between this node and its
--              peers. Ledger.Defs has the methods of `class Storage` that change or read it,
--              Ledger.Calls the calls as data and the account of one peer.
--   Credit     src/knarr/commerce/bcw_credit.py and conversion.py: the handler that credits the ledger
--              for a payment on a chain, with the receipts by which it knows what it has credited, and
--              the purge of receipts by age that src/knarr/dht/node.py calls (after 168 hours unless
--              configured). Credit.Run has runs of payments, purges, calls of the ledger and other
--              writes.
--   Netting    src/knarr/commerce/netting.py: the cycle that queues settlements for what peers owe, with
--              `_resolve_policy` of src/knarr/dht/node.py in Netting.Policy.
--   Cache      plugins/00-storage-strategy/cache.py: `StorageCacheProxy`, which stands before the storage.
--   Proof      src/knarr/core/proof.py: signed documents. Proof.Base58 is the encoding of the
--              signature, Proof.Document has sign_document and verify_document.
--   Uri        src/knarr/core/uri.py: `parse_knarr_uri`.
--
-- The Kademlia plugin (plugins/01-kademlia/handler.py) owns one routing table, one provider cache
-- and one lookup, which takes its seeds from the table (Lookup uses KBuckets).
-- The node and the mail's synchronisation (src/knarr/mail/sync.py) run the admission pipeline for what
-- a peer asks for; the node and the netting query ask the settlement engine whether to settle. The
-- handler of payments (Credit) writes to the ledger (Ledger), the netting cycle (Netting) reads it, and
-- the node may hold it behind the caching proxy (Cache).
--
-- Conventions. A method is a function from its object's state to the new state, and to what it
-- returns; where it can raise, its result says so and has the state as the exception leaves it. A
-- method that holds the bus's lock is one step. Texts are lists of code points. A Python dict is an
-- association list in insertion order (Prelude.Dict). Times that are only compared and subtracted
-- are natural numbers in a fixed unit. The fields that a caller adds to an event are any value.
-- SQLite is the list of a table's rows; its errors, which the modelled code ignores, do not occur.
-- A write of the storage that raises, which would drop nothing from the cache, does not occur either.
-- Python's floats in the commerce part are the record FloatOps of Commerce.Float, which each
-- theorem takes as an argument, with the facts on them that it needs (FloatLaws); SHA-256 and
-- `str.lower` are parameters too, likewise what a peer answers to a lookup (`ask`), the decimal digits
-- of Unicode (`decimal`), Ed25519 and the canonical JSON of src/knarr/core/rfc8785.py, a copy of a
-- package (Crypto), and the storage behind the cache (Storage). The ledger's balances and the payments
-- are floats in the same way. The messages that explain a decision are data that name the numbers
-- they print.
--
-- Fuel. The loop of `poll` runs with the distance from the cursor to the head, which it lowers by one
-- each time; `bit_length` runs with the number itself; the compilation of a pattern runs with the
-- pattern's length, the Base58 encoder with the number that it divides, and a search has the twenty
-- rounds of the source. Each is enough since every step consumes one. All other loops are structural.
--
-- Not modelled: the node's message loop, the tables of the storage other than the ledger and what the
-- credit of payments and the netting cycle read and write, protocol, the other plugins and what
-- handles messages in the firewall and the Kademlia plugin, the chain and the wallets, mail, the
-- dashboard and the command line, which are I/O for the larger part; logging and metrics; threads within a call.
pub mod Cache
pub mod Commerce
pub mod Credit
pub mod EventBus
pub mod Firewall
pub mod KBuckets
pub mod Ledger
pub mod Lookup
pub mod Netting
pub mod Prelude
pub mod Proof
pub mod Providers
pub mod Uri
pub mod Watchman
