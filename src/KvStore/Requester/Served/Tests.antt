-- ===== src/KvStore/Requester/Served/Tests.antt =====
-- A host of counters and a mailbox, and an upsert at it.
use edfsm.Prelude.{
  ◌++◌, ℕ, ◌+◌, ◌≡◌, refl, Option, none, some, List, [], ◌∷◌, if◌then◌else◌, nat_ord, list_ord, lex,
  length, ◌==◌, arith,
}
use edfsm.Machine.Action.{Result, ok, err}
use edfsm.Machine.Output.{OutputBuffer, output_drain}
use edfsm.KvStore.KeyPath.{item_ord}
use edfsm.KvStore.KeyPath.Prefix.{is_eq}
use edfsm.KvStore.Map.{get, Bound, unbounded, range, range_panics, above, below, keep, take_while}
use edfsm.KvStore.KeyPath.{KeyPath, name}
use edfsm.KvStore.Store.{Keyed, KvStore}
use edfsm.KvStore.Store.Tree.{subtree, beyond, longer}
use edfsm.KvStore.Store.Slots.{slot}
use edfsm.KvStore.Requester.{
  Oneshot, Requester, Extant, insert, get as requester_get, get_tree, get_range, get_all,
}
use edfsm.KvStore.Requester.Served.Atomic.{
  Request, read, write, in_turn, atomically, in_turn-atomically,
}
use edfsm.KvStore.Requester.Served.Many.{reads-served, insert-served}
use edfsm.KvStore.Requester.Answered.{Delivers}
use edfsm.KvStore.Requester.Served.{Host, hosted, served}
use edfsm.KvStore.Tests.{Event, tick, reset, Output, counter, ending, path_a, path_c}

record Post (R : Type 0) : Type 0 where
  fresh : ℕ
  mail : List (ℕ × R)

abbrev find_mail : {R : Type 0} → ℕ → List (ℕ × R) → Result R (Unit {0})
find_mail rx [] = err tt
find_mail rx ((tx, r) ∷ l) = if rx == tx then ok r else find_mail rx l

find_mail-cons : {R : Type 0} (n : ℕ) (r : R) (l : List (ℕ × R)) → find_mail n ((n, r) ∷ l) ≡ ok r
find_mail-cons n r l = ground arith

abbrev postbox : (R : Type 0) → Oneshot (Post R) R ℕ ℕ (Unit {0})
postbox R = record {
  channel = λ w. ((w.fresh, w.fresh), record w { fresh = w.fresh + 1 });
  send = λ tx r w. record w { mail = (tx, r) ∷ w.mail };
  recv = λ rx w. (find_mail rx w.mail, w);
}

postbox-Delivers : (R : Type 0) → Delivers (postbox R)
postbox-Delivers R = record { delivers = λ made w r. find_mail-cons made.fresh r w.mail }

abbrev host : {R : Type 0} → Host ℕ ℕ Event (OutputBuffer Output) Output (Post R)
host = record {
  cells = (path_a, 9) ∷ (path_c, 4) ∷ [];
  effects = record { key = []; item = record { items = [] } };
  books = record { logged = []; notified = []; sent = [] };
  post = record { fresh = 0; mail = [] };
}

abbrev tick_or_reset : Option ℕ → Event
tick_or_reset none = tick
tick_or_reset (some n) = reset

abbrev cells_two : KvStore ℕ ℕ
cells_two = (path_a, 9) ∷ (path_c, 4) ∷ []

-- a reset of the first entry's path
abbrev reset_first : List (KeyPath ℕ × ℕ) → Keyed ℕ Event
reset_first [] = record { key = path_c; item = tick }
reset_first ((p, n) ∷ l) = record { key = p; item = reset }

insert-served_example :
    let asked =
      insert
        (hosted (postbox (KeyPath ℕ)))
        (served counter output_drain ending 0)
        reset_first
        host in
    (asked.0 ≡ ok path_a)
    × (get path_c asked.1.cells ≡ (
        if is_eq (lex path_c path_a)
        then slot counter ending 0 (get path_c cells_two) reset
        else get path_c cells_two))
insert-served_example =
    insert-served counter output_drain ending 0 (postbox (KeyPath ℕ)) path_c reset_first host
      (postbox-Delivers (KeyPath ℕ)) ((refl, tt), (tt, tt))

abbrev node : Requester ℕ (Host ℕ ℕ Event (OutputBuffer Output) Output (Post ℕ)) ℕ Event
node = served counter output_drain ending 0

abbrev or_zero : Option ℕ → ℕ
or_zero none = 0
or_zero (some n) = n

reads-served_example :
    let box = hosted (postbox ℕ) in
    let one_read = requester_get box node path_a or_zero host in
    let tree_read = get_tree box node path_a length host in
    let range_read = get_range box node (Bound.excluded path_a) unbounded length host in
    let all_read = get_all box node length host in
    ((one_read.0 ≡ ok (or_zero (get path_a cells_two))) × (one_read.1.cells ≡ cells_two))
    × ((tree_read.0
          ≡ ok (
              length
                (subtree path_a cells_two ++ take_while (longer path_a) (beyond path_a cells_two))))
        × (tree_read.1.cells ≡ cells_two))
    × ((range_read.0 ≡ ok 1) × (range_read.1.cells ≡ cells_two))
    × ((all_read.0 ≡ ok 2) × (all_read.1.cells ≡ cells_two))
unfolding range range_panics above below keep
reads-served_example =
    reads-served counter output_drain ending 0 (postbox ℕ) (postbox-Delivers ℕ) path_a
      (Bound.excluded path_a) unbounded or_zero length host ((refl, tt), (tt, tt)) refl

-- the channels for values and for what is found, side by side
record Posts : Type 0 where
  values : Post ℕ
  extants : Post Extant

abbrev value_box : Oneshot Posts ℕ ℕ ℕ (Unit {0})
value_box = record {
  channel =
      λ w. let (c, values) = (postbox ℕ).channel w.values in (c, record w { values = values });
  send = λ tx r w. record w { values = (postbox ℕ).send tx r w.values };
  recv =
      λ rx w. let (r, values) = (postbox ℕ).recv rx w.values in (r, record w { values = values });
}

abbrev extant_box : Oneshot Posts Extant ℕ ℕ (Unit {0})
extant_box = record {
  channel = λ w.
      let (c, extants) = (postbox Extant).channel w.extants in (c, record w { extants = extants });
  send = λ tx r w. record w { extants = (postbox Extant).send tx r w.extants };
  recv = λ rx w.
      let (r, extants) = (postbox Extant).recv rx w.extants in (r, record w { extants = extants });
}

abbrev empty_posts : Posts
empty_posts = record {
  values = record { fresh = 0; mail = [] };
  extants = record { fresh = 0; mail = [] };
}

abbrev posted : Host ℕ ℕ Event (OutputBuffer Output) Output Posts
posted = record {
  cells = cells_two;
  effects = record { key = []; item = record { items = [] } };
  books = record { logged = []; notified = []; sent = [] };
  post = empty_posts;
}

-- the first upsert ticks a counter that is there, the second makes one
abbrev requests : List (Request ℕ ℕ Event ℕ)
requests =
    read path_a or_zero
    ∷ write path_a (λ v. tick)
    ∷ read path_a or_zero
    ∷ write (name 5 ∷ []) tick_or_reset
    ∷ []

in_turn-atomically_example :
    let (replies, after) =
      in_turn counter output_drain ending 0 value_box extant_box requests posted in
    let (promised, slots) = atomically counter ending 0 requests (λ p. get p cells_two) in
    (replies ≡ promised) × ((p : KeyPath ℕ) → get p after.cells ≡ slots p)
in_turn-atomically_example =
    in_turn-atomically counter output_drain ending 0 value_box extant_box
      (record { delivers = λ made w r. find_mail-cons made.values.fresh r w.values.mail })
      (record { delivers = λ made w r. find_mail-cons made.extants.fresh r w.extants.mail })
      requests posted ((refl, tt), (tt, tt))
