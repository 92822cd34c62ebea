-- ===== src/EPollPoller.antt =====
-- muduo/net/EPollPoller.h and EPollPoller.cpp, with the map of muduo/net/Poller.h. Pointers to channels
-- are numbers, and the channels are in a heap. The calls of `epoll_ctl` are the operations that a
-- method gives back.
pub mod Tests
pub mod Agreement
pub mod Interest
pub mod Poll
use learn_muduo.Prelude.{
  ℕ, suc, zero, ◌+◌, ◌-◌, ◌*◌, ◌<◌, Bool, true, false, ◌&&◌, ◌||◌, not, List, [], ◌∷◌, ◌++◌, Option,
  none, some, length, leb, ltb, ◌==◌, if◌then◌else◌, ◌>>=◌, ◌>>◌, assert,
}
use learn_muduo.Channel.{Channel, is_none_event}

-- A function with one value changed.
abbrev pub put : {A : Type 0} → (ℕ → A) → ℕ → A → ℕ → A
put f k v i = if i == k then v else f i

pub record EPollPoller : Type 0 where
  pub heap : ℕ → Channel
  pub channels : ℕ → Option ℕ
  pub events_size : ℕ

abbrev pub init_event_list_size : ℕ
init_event_list_size = 16

unfoldable pub init : (ℕ → Channel) → EPollPoller
init heap = record { heap = heap; channels = λ fd. none; events_size = init_event_list_size }

-- The values of `index`; -1 is `none`.
abbrev pub k_new : Option ℕ
k_new = none

abbrev pub k_added : Option ℕ
k_added = some 1

abbrev pub k_deleted : Option ℕ
k_deleted = some 2

abbrev pub is_index : Option ℕ → Option ℕ → Bool
is_index none none = true
is_index (some a) (some b) = a == b
is_index none (some b) = false
is_index (some a) none = false

-- `epoll_ctl` with a file descriptor, and the events for the first two.
pub data Ctl : Type 0 where
  adds modifies : ℕ → ℕ → Ctl
  deletes : ℕ → Ctl

abbrev pub set_index : EPollPoller → ℕ → Option ℕ → EPollPoller
set_index s p index = record s { heap = put s.heap p (record (s.heap p) { index = index }) }

abbrev pub is_found : Option ℕ → Bool
is_found none = false
is_found (some p) = true

abbrev pub is_channel : Option ℕ → ℕ → Bool
is_channel none p = false
is_channel (some q) p = q == p

unfoldable pub update_channel : EPollPoller → ℕ → Option (EPollPoller × Ctl)
update_channel s p =
    let c = s.heap p in
    if is_index c.index k_new || is_index c.index k_deleted
    then (if is_index c.index k_new
        then (do
          assert (not (is_found (s.channels c.fd)))
          let s' = record s { channels = put s.channels c.fd (some p) }
          some (set_index s' p k_added, adds c.fd c.events))
        else (do
          assert (is_channel (s.channels c.fd) p)
          some (set_index s p k_added, adds c.fd c.events)))
    else (do
      assert (is_channel (s.channels c.fd) p)
      assert (is_index c.index k_added)
      if is_none_event c
          then some (set_index s p k_deleted, deletes c.fd)
          else some (s, modifies c.fd c.events))

unfoldable pub remove_channel : EPollPoller → ℕ → Option (EPollPoller × List Ctl)
remove_channel s p = do
  let c = s.heap p
  assert (is_channel (s.channels c.fd) p)
  assert (is_none_event c)
  assert (is_index c.index k_added || is_index c.index k_deleted)
  let s' = record s { channels = put s.channels c.fd none }
  some (set_index s' p k_new, if is_index c.index k_added then deletes c.fd ∷ [] else [])

-- An event that `epoll_wait` delivers: the channel that was given to `epoll_ctl`, and what happened.
pub record Event : Type 0 where
  pub channel : ℕ
  pub events : ℕ

unfoldable pub fill_active_channels : EPollPoller → List Event → Option (EPollPoller × List ℕ)
fill_active_channels s [] = some (s, [])
fill_active_channels s (e ∷ es) = do
  assert (is_channel (s.channels (s.heap e.channel).fd) e.channel)
  let s' = record s {
    heap = put s.heap e.channel (record (s.heap e.channel) { revents = e.events });
  }
  (s'', rest) ← fill_active_channels s' es
  some (s'', e.channel ∷ rest)

-- `poll`: the events are those that the kernel wrote, none where it failed.
unfoldable pub poll : EPollPoller → List Event → Option (EPollPoller × List ℕ)
poll s es =
    if ltb 0 (length es)
    then (do
      assert (leb (length es) s.events_size)
      (s', active) ← fill_active_channels s es
      some (
        if length es == s'.events_size then record s' { events_size = s'.events_size * 2 } else s',
        active,
      ))
    else some (s, [])
