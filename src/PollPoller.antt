-- ===== src/PollPoller.antt =====
-- muduo/net/PollPoller.h and PollPoller.cpp, with the map of muduo/net/Poller.h. Pointers to channels are
-- numbers, and the channels are in a heap. `negsuc fd` is `-fd - 1`, which poll(2) ignores. The events fit
-- in a `short`. A method is `none` where an assertion fails.
pub mod Lists
pub mod Slots
pub mod Added
pub mod Changed
pub mod Update
pub mod Places
pub mod Popped
pub mod Swapped
pub mod Remove
pub mod Tests
use learn_muduo.Prelude.{
  ℕ, suc, zero, ◌+◌, ◌-◌, Bool, true, false, ◌&&◌, ◌||◌, not, List, [], ◌∷◌, ◌++◌, Option, none,
  some, length, get_elem?, set, take, ltb, leb, ◌==◌, if◌then◌else◌, ◌>>=◌, ◌>>◌, assert,
}
use learn_muduo.LogStream.{ℤ, pos, negsuc}
use learn_muduo.Channel.{Channel, is_none_event}
use learn_muduo.EPollPoller.{put, is_found, is_channel}

-- `struct pollfd`.
pub record PollFd : Type 0 where
  pub fd : ℤ
  pub events : ℕ
  pub revents : ℕ

pub record PollPoller : Type 0 where
  pub heap : ℕ → Channel
  pub channels : ℕ → Option ℕ
  pub pollfds : List PollFd

unfoldable pub init : (ℕ → Channel) → PollPoller
init heap = record { heap = heap; channels = λ fd. none; pollfds = [] }

-- The descriptor of a channel whose pollfd is ignored or not.
abbrev pub fd_of : ℤ → ℕ
fd_of (pos fd) = fd
fd_of (negsuc fd) = fd

abbrev pub is_ignored : ℤ → Bool
is_ignored (pos fd) = false
is_ignored (negsuc fd) = true

abbrev pub set_index : (ℕ → Channel) → ℕ → ℕ → ℕ → Channel
set_index heap p index = put heap p (record (heap p) { index = some index })

abbrev pub new_pollfd : Channel → PollFd
new_pollfd c = record { fd = pos c.fd; events = c.events; revents = 0 }

abbrev pub updated_pollfd : Channel → PollFd
updated_pollfd c = record {
  fd = if is_none_event c then negsuc c.fd else pos c.fd;
  events = c.events;
  revents = 0;
}

-- The channel's index is less than 0, or given.
abbrev pub update_at : PollPoller → ℕ → Option ℕ → Option PollPoller
update_at s p none = do
  let c = s.heap p
  assert (not (is_found (s.channels c.fd)))
  some (record {
    heap = set_index s.heap p (length s.pollfds);
    channels = put s.channels c.fd (some p);
    pollfds = s.pollfds ++ new_pollfd c ∷ [];
  })
update_at s p (some idx) = do
  let c = s.heap p
  assert (is_channel (s.channels c.fd) p)
  pfd ← get_elem? s.pollfds idx
  assert (fd_of pfd.fd == c.fd)
  some (record s { pollfds = set s.pollfds idx (updated_pollfd c) })

unfoldable pub update_channel : PollPoller → ℕ → Option PollPoller
update_channel s p = update_at s p (s.heap p).index

abbrev pub pop_back : List PollFd → List PollFd
pop_back xs = take (length xs - 1) xs

unfoldable pub remove_channel : PollPoller → ℕ → Option PollPoller
remove_channel s p = do
  let c = s.heap p
  assert (is_channel (s.channels c.fd) p)
  assert (is_none_event c)
  idx ← c.index
  pfd ← get_elem? s.pollfds idx
  assert (is_ignored pfd.fd && (fd_of pfd.fd == c.fd && pfd.events == c.events))
  let channels = put s.channels c.fd none
  if idx == length s.pollfds - 1
      then some (record s { channels = channels; pollfds = pop_back s.pollfds })
      else (do
        last ← get_elem? s.pollfds (length s.pollfds - 1)
        channel_at_end ← channels (fd_of last.fd)
        some (record {
          heap = set_index s.heap channel_at_end idx;
          channels = channels;
          pollfds = pop_back (set (set s.pollfds idx last) (length s.pollfds - 1) pfd);
        }))

-- The kernel wrote the events that it reports into the pollfds; it counts those with events. The channels
-- that are active come in order.
unfoldable pub fill_active_channels : List PollFd → ℕ → PollPoller → Option (PollPoller × List ℕ)
fill_active_channels [] num_events s = some (s, [])
fill_active_channels (pfd ∷ pfds) zero s = some (s, [])
fill_active_channels (pfd ∷ pfds) (suc num_events) s =
    let skipped = fill_active_channels pfds (suc num_events) s in
    if pfd.revents == 0 then skipped else (do
      assert (not (is_ignored pfd.fd))
      channel ← s.channels (fd_of pfd.fd)
      assert ((s.heap channel).fd == fd_of pfd.fd)
      let s' = record s {
        heap = put s.heap channel (record (s.heap channel) { revents = pfd.revents });
      }
      (s'', rest) ← fill_active_channels pfds num_events s'
      some (s'', channel ∷ rest))

-- `poll`: the number is what poll(2) answers, or 0 where it failed, and the pollfds are what it left.
unfoldable pub poll : PollPoller → List PollFd → ℕ → Option (PollPoller × List ℕ)
unfolding fill_active_channels
poll s pollfds num_events =
    if ltb 0 num_events
    then fill_active_channels pollfds num_events (record s { pollfds = pollfds })
    else some (s, [])
