-- ===== src/Machine/Adapter/Tests.antt =====
-- The theorems on adapters, at vectors of numbers.
use edfsm.Prelude.{ℕ, ◌+◌, ◌≡◌, refl, ltb, Option, none, some, List, [], ◌∷◌, if◌then◌else◌}
use edfsm.Machine.Action.{err, Error, from_external}
use edfsm.Machine.Adapter.{Place, Adapter, vec, external, notify, merge}
use edfsm.Machine.Adapter.Fanout.{Apart}

record Pair : Type 0 where
  one : List ℕ
  two : List ℕ

abbrev first : Place Pair (List ℕ)
first = record { get = λ w. w.one; set = λ l w. record w { one = l }; get-set = λ l w. refl }

abbrev second : Place Pair (List ℕ)
second = record { get = λ w. w.two; set = λ l w. record w { two = l }; get-set = λ l w. refl }

abbrev apart : Apart first second
apart = record { left = λ l w. refl; right = λ l w. refl }

abbrev empty : Pair
empty = record { one = []; two = [] }

-- a channel whose receiver is gone
abbrev closed : Adapter Pair ℕ
closed = external (λ (a : ℕ) (w : Pair). (err a, w))

-- a failing adapter stops the fan-out: what stands behind it is not notified
closed_first : notify (merge closed (vec second)) 7 empty ≡ (err Error.channel_closed, empty)
unfolding notify merge from_external
closed_first = refl

closed_next :
    notify (merge (vec second) closed) 7 empty
    ≡ (err Error.channel_closed, record empty { two = 7 ∷ [] })
unfolding notify merge from_external
closed_next = refl

abbrev small : ℕ → Option ℕ
small n = if ltb n 5 then some (n + 1) else none
