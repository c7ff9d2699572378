-- ===== src/Machine/Adapter/Streambed.antt =====
-- `adapt_streambed` of edfsm-machine/src/adapter.rs: the log of streambed as an adapter and as a feed.
-- The log and the stream of its history are the library's: parameters.
mod Tests
use edfsm.Prelude.{
  ℕ, zero, suc, ◌<◌, arith, ◌≡◌, refl, sym, ap, ◌∙◌, Option, none, some, List, [], ◌∷◌, length,
}
use edfsm.Machine.Action.{Result, ok, err, Error, Exec, continue}
use edfsm.Machine.Adapter.{Adapter, external, notify, notify_all, Feed, stream, history, feed}

-- `LogAdapter` in a world `W`; `St` is a stream over the history, which `next` reads on.
pub record LogAdapter {ℓ} (W A X St : Type ℓ) : Type ℓ where
  pub produce : A → W → Result (Unit {0}) X × W
  pub history : W → St
  pub next : St → Option A × St

module _ {ℓ} {A St : Type ℓ} (next : St → Option A × St) where
  -- A stream gives these items, and then no more.
  pub data Yields : St → List A → Type ℓ where
    ended : {s : St} → (next s).0 ≡ none → Yields s []
    item :
        {s : St} {a : A} {l : List A} → (next s).0 ≡ some a → Yields (next s).1 l → Yields s (a ∷ l)

module _ {ℓ} {W A X St : Type ℓ} (log : LogAdapter W A X St) where
  -- impl Adapter for LogAdapter
  unfoldable pub log_notify : A → Exec W
  unfolding notify
  log_notify a = notify (external log.produce) a

-- What `?` makes of a result: the rest of the code, or the end.
abbrev pub then_rest {ℓ} :
    {Y : Type ℓ}
    → Result (Unit {0}) Error × Y
    → (Y → Option (Result (Unit {0}) Error × Y))
    → Option (Result (Unit {0}) Error × Y)
then_rest (ok t, y) rest = rest y
then_rest (err x, y) rest = some (err x, y)

module _ {ℓ} {A Y St : Type ℓ} (output : Adapter Y A) (next : St → Option A × St) where
  -- the body of the loop, at what is polled, and the rounds behind it
  unfoldable pub loop_body :
      Option A
      → (Y → Option (Result (Unit {0}) Error × Y))
      → Y
      → Option (Result (Unit {0}) Error × Y)
  loop_body none rest y = some (ok tt, y)
  loop_body (some a) rest y = then_rest (notify output a y) rest

  -- `while let Some(a) = s.next().await { output.notify(a).await?; }`, at most so many polls; `none`
  -- where there would be more
  unfoldable pub feed_stream : ℕ → St → Y → Option (Result (Unit {0}) Error × Y)
  unfolding loop_body
  feed_stream zero s y = none
  feed_stream (suc n) s y = let rest = feed_stream n (next s).1 in loop_body (next s).0 rest y

module _ {ℓ} {W A X St Y : Type ℓ} (log : LogAdapter W A X St) where
  -- impl Feed for LogAdapter
  unfoldable pub log_feed : ℕ → W → Adapter Y A → Y → Option (Result (Unit {0}) Error × Y)
  log_feed fuel w output y = feed_stream output log.next fuel (log.history w) y

module _ {ℓ} {A Y St : Type ℓ} (output : Adapter Y A) (next : St → Option A × St) where
  then_rest-notify_all :
      (r : Result (Unit {0}) Error × Y) (l : List A)
      (rest : Y → Option (Result (Unit {0}) Error × Y))
      → ((y : Y) → rest y ≡ some (notify_all output l y))
      → then_rest r rest ≡ some (continue r.0 (λ _. notify_all output l) r.1)
  then_rest-notify_all (ok t, y) l rest h = h y
  then_rest-notify_all (err x, y) l rest h = refl

  feed_stream-notify_all :
      (n : ℕ) (s : St) (l : List A)
      → Yields next s l
      → length l < n
      → (y : Y) → feed_stream output next n s y ≡ some (notify_all output l y)
  unfolding feed_stream loop_body notify_all
  feed_stream-notify_all zero s l ys h y = absurd (omega arith)
  feed_stream-notify_all (suc n) s [] (ended e) h y = rw e refl
  feed_stream-notify_all (suc n) s (a ∷ l) (item e ys) h y = rw e (
      then_rest-notify_all (notify output a y) l (feed_stream output next n (next s).1)
        (feed_stream-notify_all n (next s).1 l ys (omega (arith, h))))

module _ {ℓ} {W A X St Y : Type ℓ} (log : LogAdapter W A X St) where
  -- Where the stream over the history ends, the loop over it comes to an end, with one poll more than
  -- there are items, and does what the feed by the list of the items does: it sends them in order, up
  -- to the first that fails.
  pub log_feed-feed :
      (items : W → List A) (w : W)
      → Yields log.next (log.history w) (items w)
      → (fuel : ℕ) → length (items w) < fuel
      → (output : Adapter Y A) (y : Y)
      → log_feed log fuel w output y ≡ some (feed (stream items) w output y)
  unfolding log_feed feed history
  log_feed-feed items w ys fuel h output y =
      feed_stream-notify_all output log.next fuel (log.history w) (items w) ys h y
