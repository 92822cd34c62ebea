-- ===== src/PollPoller/Places.antt =====
-- muduo/net/PollPoller.cpp: the places of the other descriptors.
use mathlib.Core.Option.{some-injective}
use learn_muduo.Prelude.{ℕ, ◌≡◌, ◌≢◌, ◌∙◌, sym, ap, some, get_elem?}
use learn_muduo.PollPoller.{PollFd, PollPoller, fd_of}
use learn_muduo.PollPoller.Slots.{Entry, Agrees, same_place}

-- A pollfd of a channel, at an index.
module _ (s : PollPoller) (p i : ℕ) (d : PollFd) (a : Agrees s)
    (at_i : get_elem? s.pollfds i ≡ some d) (own : fd_of d.fd ≡ (s.heap p).fd) where
  abbrev fd : ℕ
  fd = (s.heap p).fd

  -- A place other than the channel's has another descriptor.
  pub elsewhere : (j : ℕ) (e : PollFd) → get_elem? s.pollfds j ≡ some e → j ≢ i → fd_of e.fd ≢ fd
  elsewhere j e at_j ne same = ne (same_place s j i e d a at_j at_i (same ∙ sym own))

  -- Another descriptor's entry has another place.
  pub away : (fd' q : ℕ) → fd' ≢ fd → (t : Entry s fd' q) → t.place ≢ i
  away fd' q ne t is =
      let same : d ≡ t.pollfd =
        some-injective d t.pollfd (sym at_i ∙ ap (get_elem? s.pollfds) (sym is) ∙ t.held) in
      ne (sym t.same_fd ∙ ap (λ x. fd_of x.fd) (sym same) ∙ own)
