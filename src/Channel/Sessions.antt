-- ===== src/Channel/Sessions.antt =====
-- include/condy/channel.hpp: any history of waiting pushes and pops, from their start to their receiver,
-- with cancellations, calls that do not wait, closing, and the runtime that invokes what is scheduled.
pub mod Kept
pub mod Keeps
use condy.Prelude.{ℕ, ◌+◌, ◌≡◌, Bool, List, [], ◌∷◌, Outcome, ok, ◌>>=◌}
use condy.Channel.{Channel, Event, create}
use condy.Channel.Handles.{
  Session, is, started, start_push, start_pop, invoke, cancel_push_handle, cancel_pop_handle,
}
use condy.Channel.Run.{pushes, pops, closes, step}
use condy.Channel.Weights.{weigh, weigh_pushes, weigh_told, weight}

pub data Act (A : Type 0) : Type 0 where
  starts_push : Bool → ℕ → A → Act A
  starts_pop : Bool → ℕ → Act A
  cancels_push cancels_pop : ℕ → Act A
  offers : A → Act A
  takes shuts delivers : Act A

-- No handle is started twice.
abbrev pub AllNew : List ℕ → Type 0
AllNew [] = Unit
AllNew (x ∷ xs) = (weigh (is x) xs ≡ 0) × AllNew xs

module _ {A : Type 0} where
  -- The runtime takes the first work that is scheduled, and invokes it.
  unfoldable pub deliver : List (Event A) → Session A → Outcome (Session A)
  unfolding invoke
  deliver [] s = ok s
  deliver (e ∷ es) s = invoke e (record s { channel = record s.channel { scheduled = es } })

  unfoldable pub perform : A → Act A → Session A → Outcome (Session A)
  unfolding start_push start_pop cancel_push_handle cancel_pop_handle deliver
  perform d (starts_push possible id x) s = start_push possible id x s
  perform d (starts_pop possible id) s = start_pop d possible id s
  perform d (cancels_push id) s = cancel_push_handle id s
  perform d (cancels_pop id) s = cancel_pop_handle d id s
  perform d (offers x) s = do (r, c) ← step d (pushes x) s.channel; ok (record s { channel = c })
  perform d takes s = do (r, c) ← step d pops s.channel; ok (record s { channel = c })
  perform d shuts s = do (r, c) ← step d closes s.channel; ok (record s { channel = c })
  perform d delivers s = deliver s.channel.scheduled s

  unfoldable pub perform_all : A → List (Act A) → Session A → Outcome (Session A)
  unfolding perform
  perform_all d [] s = ok s
  perform_all d (a ∷ acts) s = do s1 ← perform d a s; perform_all d acts s1

  -- The handles that were started, the last one first.
  abbrev pub start_of : Act A → List ℕ → List ℕ
  start_of (starts_push possible id x) ids = id ∷ ids
  start_of (starts_pop possible id) ids = id ∷ ids
  start_of a ids = ids

  abbrev pub starts : List (Act A) → List ℕ → List ℕ
  starts [] ids = ids
  starts (a ∷ acts) ids = starts acts (start_of a ids)

  -- The handles that wait in a channel or are scheduled, by weight.
  abbrev pub under_way : (ℕ → ℕ) → Channel A → ℕ
  under_way w c = weigh_pushes w c.push_awaiters + weigh w c.pop_awaiters + weigh_told w c.scheduled

  abbrev pub new_session : ℕ → Session A
  unfolding create
  new_session n = record {
    channel = create n;
    pending_works = 0;
    runtimes = [];
    stop_callbacks = [];
    received = [];
  }
