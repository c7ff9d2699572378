-- ===== src/KvStore/Tests.antt =====
-- The store of edfsm-kv-store/tests, over counters, and the theorems at it. Names are numbers.
use Prim.Native.Nat.{◌%◌}
use Prim.Native.Nat.Ordering.{eq}
use edfsm.Prelude.{
  ℕ, ◌+◌, ◌≡◌, refl, sym, ◌∙◌, lex, eq_of_lex, ◌↔◌, ◌==◌, arith, Bool, true, false, Option, none,
  some, List, [], ◌∷◌, ◌++◌, nat_ord, list_ord, if◌then◌else◌,
}
use edfsm.Fsm.{event, Change, updated, Fsm, Terminating, step, replay}
use edfsm.Fsm.Step.{IsQuiet}
use edfsm.Machine.Output.{OutputBuffer, push}
use edfsm.KvStore.KeyPath.{KeyPath, number, name, item_ord, len}
use edfsm.KvStore.Map.{get, insert, range, above, below, range_panics, keep, take_while}
use edfsm.KvStore.Map.Order.{IsSorted}
use edfsm.KvStore.Store.{Keyed, KvStore, Env, deep, tree, for_command, kv_fsm}
use edfsm.KvStore.Store.Interleaving.{replay_interleaving}
use edfsm.KvStore.Store.Slots.{items_at, get-replay}
use edfsm.KvStore.Store.Quiet.{IsEager, kv_fsm-IsQuiet, step_unlogged, not-kv_fsm-IsQuiet}
use edfsm.KvStore.Store.Inner.{keyed_event, retagged, step_inner}
use edfsm.KvStore.Store.Tree.{subtree, beyond, longer, overshoots, tree-subtree, tree_exact}

pub data Event : Type 0 where
  tick reset zero_out : Event

pub data Output : Type 0 where
  tock : Output

-- `reset` ends the counter of a path; `zero_out` is ignored by a counter that is 0
abbrev pub counter_event : ℕ → Event → ℕ × Option Change
counter_event n tick = (n + 1, some updated)
counter_event n reset = if n == 0 then (n, none) else (0, some updated)
counter_event n zero_out = if n == 0 then (n, none) else (0, some updated)

abbrev pub counter_change : ℕ → Event → OutputBuffer Output → Change → OutputBuffer Output
counter_change n e se c = if n % 10 == 0 then push se tock else se

abbrev pub counter : Fsm ℕ (Unit {0}) Event (OutputBuffer Output)
counter = record {
  for_command = λ n c se. (none, se);
  on_event = counter_event;
  on_change = counter_change;
}

abbrev pub is_reset : Event → Bool
is_reset reset = true
is_reset _ = false

abbrev pub ending : Terminating Event
ending = record { terminating = is_reset }

abbrev pub path_a : KeyPath ℕ
path_a = name 1 ∷ []

abbrev path_a_x : KeyPath ℕ
path_a_x = name 1 ∷ number 4 ∷ []

abbrev path_b_y : KeyPath ℕ
path_b_y = name 2 ∷ number 3 ∷ []

abbrev pub path_c : KeyPath ℕ
path_c = name 3 ∷ []

abbrev sample : KvStore ℕ ℕ
sample = (path_a, 5) ∷ (path_a_x, 6) ∷ (path_b_y, 7) ∷ (path_c, 8) ∷ []

abbrev env : Env ℕ (OutputBuffer Output) (List (Option ℕ))
env = record {
  effects = record { key = []; item = record { items = [] } };
  world = [];
  panicked = false;
}

sample-IsSorted : IsSorted sample
sample-IsSorted = ((refl, (refl, (refl, tt))), ((refl, (refl, tt)), ((refl, tt), (tt, tt))))

abbrev pub at : KeyPath ℕ → Event → Keyed ℕ Event
at p e = record { key = p; item = e }

abbrev events : List (Keyed ℕ Event)
events = at path_a tick ∷ at path_c reset ∷ at path_a tick ∷ at path_b_y zero_out ∷ []

get-replay_example :
    get path_a (replay (kv_fsm {SE = OutputBuffer Output} {W = ℕ} counter ending 0) sample events)
    ≡ some 7
unfolding get
get-replay_example = get-replay counter ending 0 ℕ path_a events sample sample-IsSorted

-- a counter is quiet, and a store of counters is not
counter_quiet : (n : ℕ) (e : Event) → (counter_event n e).1 ≡ none → (counter_event n e).0 ≡ n
counter_quiet n tick h = cc
counter_quiet n reset h = ground arith
counter_quiet n zero_out h = ground arith

counter-IsQuiet : IsQuiet counter
counter-IsQuiet = record { quiet = counter_quiet }

not-kv_fsm-IsQuiet_example : ¬ IsQuiet (kv_fsm {N = ℕ} {W = ℕ} counter ending 0)
not-kv_fsm-IsQuiet_example = not-kv_fsm-IsQuiet counter ending 0 ℕ path_a zero_out refl refl

step_unlogged_example :
    let after = step (kv_fsm counter ending 0) sample (event (at (name 9 ∷ []) zero_out)) env in
    (after.0 ≡ none) × (get (name 9 ∷ []) after.1 ≡ some 0)
unfolding get
step_unlogged_example =
    step_unlogged counter ending 0 sample (at (name 9 ∷ []) zero_out) env refl refl refl

-- the counters of the fixture: every event but `Reset` changes a new counter
abbrev ticker : Fsm ℕ (Unit {0}) Event (OutputBuffer Output)
ticker = record {
  for_command = λ n c se. (none, se);
  on_event = λ n e. (n + 1, some updated);
  on_change = counter_change;
}

ticker-IsQuiet : IsQuiet ticker
ticker-IsQuiet = record { quiet = λ n e h. cc }

ticker-IsEager : IsEager ticker ending 0
ticker-IsEager = record { eager = λ e t h. cc }

kv_fsm-IsQuiet_example : IsQuiet (kv_fsm {N = ℕ} {W = ℕ} ticker ending 0)
kv_fsm-IsQuiet_example = kv_fsm-IsQuiet ticker ending 0 ℕ ticker-IsQuiet ticker-IsEager

step_inner_example :
    let inner = step counter 5 (event tick) env.effects.item in
    let after = step (kv_fsm counter ending 0) sample (event (at path_a tick)) env in
    (after.0 ≡ keyed_event path_a inner.0)
    × (after.1 ≡ insert path_a inner.1 sample)
    × (after.2 ≡ retagged env path_a inner.0 inner.2)
unfolding get
step_inner_example = step_inner counter ending 0 sample path_a tick env refl

-- `GetTree` for a path of length 1 answers with a longer path that does not start with it
tree_overshoots : tree path_a sample ≡ some ((path_a, 5) ∷ (path_a_x, 6) ∷ (path_b_y, 7) ∷ [])
unfolding tree range above below range_panics keep take_while deep len
tree_overshoots = refl

tree-subtree_example :
    tree path_a sample
    ≡ some (subtree path_a sample ++ take_while (longer path_a) (beyond path_a sample))
tree-subtree_example = tree-subtree path_a sample sample-IsSorted

tree_exact_example :
    (tree path_a sample ≡ some (subtree path_a sample))
    ↔ (overshoots path_a (beyond path_a sample) ≡ false)
tree_exact_example = tree_exact path_a sample sample-IsSorted

-- a responder that reports the value found, and asks for a tick
abbrev count_all : List (KeyPath ℕ × ℕ) → List (Option ℕ) → Keyed ℕ Event × List (Option ℕ)
count_all entries w = (at (name 7 ∷ []) tick, w)

abbrev read_all : List (KeyPath ℕ × ℕ) → List (Option ℕ) → Unit {0} × List (Option ℕ)
read_all entries w = (tt, some 1 ∷ w)

abbrev tick_first : List (Keyed ℕ Event)
tick_first = at path_a tick ∷ at path_c reset ∷ []

abbrev reset_first : List (Keyed ℕ Event)
reset_first = at path_c reset ∷ at path_a tick ∷ []

pub apart : (p : KeyPath ℕ) → lex p path_a ≡ eq → lex p path_c ≡ eq → ⊥
apart p h k = cc (sym (eq_of_lex p path_a h) ∙ eq_of_lex p path_c k)

same_items : (p : KeyPath ℕ) → items_at p tick_first ≡ items_at p reset_first
same_items p = ground (arith, apart p)

replay_interleaving_example :
    replay (kv_fsm {SE = OutputBuffer Output} {W = ℕ} counter ending 0) sample tick_first
    ≡ replay (kv_fsm {W = ℕ} counter ending 0) sample reset_first
replay_interleaving_example =
    replay_interleaving counter ending 0 ℕ tick_first reset_first sample sample-IsSorted same_items
