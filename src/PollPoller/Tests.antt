-- ===== src/PollPoller/Tests.antt =====
-- muduo/net/PollPoller.cpp: the theorems at a poller with two channels without events.
use learn_muduo.Prelude.{ℕ, ◌≡◌, ◌≢◌, refl, true, false, [], none, some}
use learn_muduo.Channel.{Channel, is_none_event}
use learn_muduo.LogStream.{negsuc}
use learn_muduo.PollPoller.{PollFd, PollPoller, update_channel, remove_channel}
use learn_muduo.PollPoller.Slots.{Agrees, pollfd_of}
use learn_muduo.PollPoller.Added.{added, added-Agrees}
use learn_muduo.PollPoller.Changed.{changed, changed-Agrees}
use learn_muduo.PollPoller.Update.{is_known, Asks, update_channel-Agrees}
use learn_muduo.PollPoller.Remove.{Vacates, remove_channel-Vacates, remove_channel-unwatched}

abbrev channel_at : ℕ → Channel
channel_at p = record {
  fd = p;
  events = 0;
  revents = 0;
  index = none;
  log_hup = true;
  tied = false;
  event_handling = false;
  added_to_loop = false;
}

abbrev empty : PollPoller
empty = record { heap = channel_at; channels = λ fd. none; pollfds = [] }

empty-Agrees : Agrees empty
empty-Agrees = record { slot = λ i d e. cc; entry = λ fd p e. cc }

remove_channel-unwatched_example :
    (s' : PollPoller) × (update_channel empty 5 ≡ some s') × (remove_channel s' 5 ≡ none)
remove_channel-unwatched_example =
    remove_channel-unwatched empty 5 empty-Agrees refl refl (unfold is_none_event in refl)

-- The channel 5 is new, then it is ignored, then the channel 7 is new.
abbrev first : PollPoller
unfolding added
first = added empty 5 empty-Agrees refl refl

first-Agrees : Agrees first
unfolding first
first-Agrees = added-Agrees empty 5 empty-Agrees refl refl

abbrev second : PollPoller
unfolding first added
second = changed first 5 0 first-Agrees refl refl

second-Agrees : Agrees second
unfolding first added second
second-Agrees = changed-Agrees first 5 0 first-Agrees refl refl

abbrev third : PollPoller
unfolding first added second
third = added second 7 second-Agrees refl refl

third-Agrees : Agrees third
unfolding first added second third
third-Agrees = added-Agrees second 7 second-Agrees refl refl

update_channel-Agrees_example :
    (s' : PollPoller) × (update_channel third 7 ≡ some s')
    × Agrees s'
    × ((d : PollFd) × (pollfd_of s' (third.heap 7).fd ≡ some d)
        × Asks (is_known (third.heap 7).index) (third.heap 7) d)
    × ((fd : ℕ) → fd ≢ (third.heap 7).fd → pollfd_of s' fd ≡ pollfd_of third fd)
unfolding first added second third
update_channel-Agrees_example = update_channel-Agrees third 7 third-Agrees refl

remove_channel-Vacates_example : Vacates third 5
unfolding first added second third is_none_event
remove_channel-Vacates_example =
    remove_channel-Vacates third 5 0 (record { fd = negsuc 5; events = 0; revents = 0 })
      third-Agrees refl refl refl refl refl
