-- ===== src/Machine/Adapter/Streambed/Tests.antt =====
-- A log in memory, and the loop over its history.
use edfsm.Prelude.{ℕ, ◌≡◌, refl, Option, none, some, List, [], ◌∷◌, ◌++◌, arith}
use edfsm.Machine.Action.{ok, from_external}
use edfsm.Machine.Adapter.{Place, vec, notify, stream, feed}
use edfsm.Machine.Adapter.Streambed.{
  LogAdapter, Yields, ended, item, log_notify, log_feed, log_feed-feed,
}

abbrev next_of : List ℕ → Option ℕ × List ℕ
next_of [] = (none, [])
next_of (x ∷ xs) = (some x, xs)

abbrev in_memory : LogAdapter (List ℕ) ℕ (Unit {0}) (List ℕ)
in_memory = record { produce = λ a w. (ok tt, w ++ a ∷ []); history = λ w. w; next = next_of }

yields_all : (l : List ℕ) → Yields next_of l l
yields_all [] = ended refl
yields_all (x ∷ xs) = item refl (yields_all xs)

abbrev everything : Place (List ℕ) (List ℕ)
everything = record { get = λ w. w; set = λ a w. a; get-set = λ a w. refl }

-- what is produced is in the history
produced : log_notify in_memory 4 (3 ∷ []) ≡ (ok tt, 3 ∷ 4 ∷ [])
unfolding log_notify notify from_external
produced = refl

log_feed-feed_example :
    log_feed in_memory 3 (3 ∷ 4 ∷ []) (vec everything) []
    ≡ some (feed (stream (λ w. w)) (3 ∷ 4 ∷ []) (vec everything) [])
log_feed-feed_example =
    log_feed-feed in_memory (λ w. w) (3 ∷ 4 ∷ []) (yields_all (3 ∷ 4 ∷ [])) 3 (omega arith)
      (vec everything) []
