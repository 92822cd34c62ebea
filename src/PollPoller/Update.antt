-- ===== src/PollPoller/Update.antt =====
-- muduo/net/PollPoller.cpp: `updateChannel`.
use learn_muduo.Prelude.{
  Bool, true, false, ◌&&◌, ◌==◌, Bool-cases, inl, inr, subst, ℕ, ◌≡◌, ◌≢◌, ◌∙◌, refl, sym, ap,
  Option, none, some,
}
use learn_muduo.Channel.{Channel, is_none_event}
use learn_muduo.PollPoller.{
  PollFd, PollPoller, fd_of, is_ignored, new_pollfd, updated_pollfd, update_at, update_channel,
}
use learn_muduo.PollPoller.Slots.{Agrees, pollfd_of}
use learn_muduo.PollPoller.Added.{added, added-made, added-Agrees, added-own, added-others}
use learn_muduo.PollPoller.Changed.{
  changed, changed-made, changed-Agrees, changed-own, changed-others,
}

-- What `updateChannel` needs: a new channel's descriptor is free, and another channel is in the map.
abbrev pub Ready : Option ℕ → Option ℕ → ℕ → Type 0
Ready none entry p = entry ≡ none
Ready (some i) entry p = entry ≡ some p

-- A new channel has no index yet.
abbrev pub is_known : Option ℕ → Bool
is_known none = false
is_known (some i) = true

-- What a channel asks of poll(2): its descriptor and its events, none of them reported yet. The
-- descriptor is ignored where a known channel has no events; a new channel is watched even then.
pub record Asks (known : Bool) (c : Channel) (d : PollFd) : Type 0 where
  pub descriptor : fd_of d.fd ≡ c.fd
  pub events : d.events ≡ c.events
  pub revents : d.revents ≡ 0
  pub ignored : is_ignored d.fd ≡ (known && c.events == 0)

new_pollfd-Asks : (c : Channel) → Asks false c (new_pollfd c)
new_pollfd-Asks c = record { descriptor = refl; events = refl; revents = refl; ignored = refl }

updated_pollfd-Asks : (c : Channel) → Asks true c (updated_pollfd c)
unfolding is_none_event
updated_pollfd-Asks c = elim (Bool-cases (c.events == 0)) [
  | inl idle ↦ record {
    descriptor = rw idle refl;
    events = refl;
    revents = refl;
    ignored = rw idle refl;
  }
  | inr busy ↦ record {
    descriptor = rw busy refl;
    events = refl;
    revents = refl;
    ignored = rw busy refl;
  }
]

-- On a poller whose map, indices and array agree, `updateChannel` of a new channel on a free descriptor
-- or of a channel of the map succeeds: the channel's descriptor gets a pollfd with the channel's events,
-- which is ignored exactly where a known channel has none; the pollfds of all other descriptors stay, and
-- map, indices and array agree again.
pub update_channel-Agrees :
    (s : PollPoller) (p : ℕ)
    → Agrees s
    → Ready (s.heap p).index (s.channels (s.heap p).fd) p
    → (s' : PollPoller) × (update_channel s p ≡ some s')
      × Agrees s'
      × ((d : PollFd) × (pollfd_of s' (s.heap p).fd ≡ some d)
          × Asks (is_known (s.heap p).index) (s.heap p) d)
      × ((fd : ℕ) → fd ≢ (s.heap p).fd → pollfd_of s' fd ≡ pollfd_of s fd)
unfolding update_channel
update_channel-Agrees s p a ready = by_index (s.heap p).index refl ready
  where
    by_index :
        (index : Option ℕ)
        → (s.heap p).index ≡ index
        → Ready index (s.channels (s.heap p).fd) p
        → (s' : PollPoller) × (update_at s p (s.heap p).index ≡ some s')
          × Agrees s'
          × ((d : PollFd) × (pollfd_of s' (s.heap p).fd ≡ some d)
              × Asks (is_known (s.heap p).index) (s.heap p) d)
          × ((fd : ℕ) → fd ≢ (s.heap p).fd → pollfd_of s' fd ≡ pollfd_of s fd)
    by_index none e free = (
      added s p a e free,
      ap (update_at s p) e ∙ added-made s p a e free,
      added-Agrees s p a e free,
      (
        new_pollfd (s.heap p),
        added-own s p a e free,
        subst (λ o. Asks (is_known o) (s.heap p) (new_pollfd (s.heap p))) (sym e)
            (new_pollfd-Asks (s.heap p)),
      ),
      added-others s p a e free,
    )
    by_index (some i) e listed = (
      changed s p i a e listed,
      ap (update_at s p) e ∙ changed-made s p i a e listed,
      changed-Agrees s p i a e listed,
      (
        updated_pollfd (s.heap p),
        changed-own s p i a e listed,
        subst (λ o. Asks (is_known o) (s.heap p) (updated_pollfd (s.heap p))) (sym e)
            (updated_pollfd-Asks (s.heap p)),
      ),
      changed-others s p i a e listed,
    )
