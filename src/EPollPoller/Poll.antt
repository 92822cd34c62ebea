-- ===== src/EPollPoller/Poll.antt =====
-- muduo/net/EPollPoller.cpp: `poll` hands the events over.
use learn_muduo.Prelude.{
  ℕ, ◌*◌, ◌≤◌, ◌<◌, ◌≡◌, ◌∙◌, refl, sym, ap, inl, inr, List, [], ◌∷◌, map, some, arith, ◌==◌,
  ==_iff, ne→==, eq→==, if◌then◌else◌, Bool-cases, All, length, le→leb, lt→ltb,
}
use learn_muduo.Channel.{Channel}
use learn_muduo.EPollPoller.{EPollPoller, put, Event, fill_active_channels, poll}

-- The map knows the channel that an event carries.
abbrev pub IsKnown : EPollPoller → Event → Type 0
IsKnown s e = s.channels (s.heap e.channel).fd ≡ some e.channel

-- The last event that carries a channel, in `revents`; what no event carries is as before.
abbrev pub noted : List Event → (ℕ → Channel) → ℕ → Channel
noted [] heap = heap
noted (e ∷ es) heap = noted es (put heap e.channel (record (heap e.channel) { revents = e.events }))

-- A new `revents` moves no file descriptor.
fd-put :
    (heap : ℕ → Channel) (p revents q : ℕ)
    → (put heap p (record (heap p) { revents = revents }) q).fd ≡ (heap q).fd
fd-put heap p revents q = elim (Bool-cases (q == p)) [
  | inl same ↦ rw same (ap (λ i. (heap i).fd) (sym ((==_iff q p).0 same)))
  | inr other ↦ rw other refl
]

fill_active_channels-noted :
    (s : EPollPoller) (es : List Event)
    → All (IsKnown s) es
    → fill_active_channels s es
      ≡ some (record s { heap = noted es s.heap }, map (λ e. e.channel) es)
unfolding fill_active_channels
fill_active_channels-noted s [] k = refl
fill_active_channels-noted s (e ∷ es) (k, ks) =
    let c = s.heap e.channel in
    let s' = record s { heap = put s.heap e.channel (record c { revents = e.events }) } in
    rw (k, eq→== e.channel e.channel refl)
      (rw (fill_active_channels-noted s' es (still es ks)) refl)
  where
    still :
        (es : List Event)
        → All (IsKnown s) es
        → All
            (IsKnown (record s {
              heap = put s.heap e.channel (record (s.heap e.channel) { revents = e.events });
            }))
            es
    still [] k = tt
    still (d ∷ es) (k, ks) =
        (ap s.channels (fd-put s.heap e.channel e.events d.channel) ∙ k, still es ks)

-- On events for channels that the poller knows, no more than fit in an event list that is not
-- empty, `poll` succeeds: the active channels are those of the events, in order, each event is
-- written in its channel, and the event list doubles exactly when it was full, so that it is longer
-- than the events.
pub poll-noted :
    (s : EPollPoller) (es : List Event)
    → All (IsKnown s) es
    → length es ≤ s.events_size
    → 0 < s.events_size
    → (s' : EPollPoller) × (poll s es ≡ some (s', map (λ e. e.channel) es))
      × (s'.channels ≡ s.channels)
      × (s'.heap ≡ noted es s.heap)
      × (s'.events_size ≡ (if length es == s.events_size then s.events_size * 2 else s.events_size))
      × (length es < s'.events_size)
unfolding poll
poll-noted s [] k fits room =
    (s, refl, refl, refl, rw (ne→== 0 s.events_size (λ e. omega (arith, e, room))) refl, room)
poll-noted s (e ∷ es) k fits room =
    let filled = fill_active_channels-noted s (e ∷ es) k in
    elim (Bool-cases (length (e ∷ es) == s.events_size)) [
      | inl full ↦ (
        record s { heap = noted (e ∷ es) s.heap; events_size = s.events_size * 2 },
        rw
            (
              lt→ltb 0 (length (e ∷ es)) (omega arith),
              le→leb (length (e ∷ es)) s.events_size fits,
              filled,
            )
            (rw full refl),
        refl,
        refl,
        rw full refl,
        omega (arith, fits, room),
      )
      | inr part ↦ (
        record s { heap = noted (e ∷ es) s.heap },
        rw
            (
              lt→ltb 0 (length (e ∷ es)) (omega arith),
              le→leb (length (e ∷ es)) s.events_size fits,
              filled,
            )
            (rw part refl),
        refl,
        refl,
        rw part refl,
        ground (arith, part, fits),
      )
    ]
