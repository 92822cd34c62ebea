-- ===== src/PollPoller/Slots.antt =====
-- muduo/net/PollPoller.cpp: the map, the indices of the channels and the array of pollfds agree.
use mathlib.Core.Option.{some-injective}
use learn_muduo.Prelude.{ℕ, ◌≡◌, ◌∙◌, refl, sym, ap, true, Option, none, some, get_elem?, ◌>>=◌}
use learn_muduo.PollPoller.{PollFd, PollPoller, fd_of, is_ignored}

-- A pollfd belongs to a channel, which is in the map and has the pollfd's index; one that poll ignores
-- asks for nothing.
pub record Slot (s : PollPoller) (i : ℕ) (d : PollFd) : Type 0 where
  pub channel : ℕ
  pub listed : s.channels (fd_of d.fd) ≡ some channel
  pub own_fd : (s.heap channel).fd ≡ fd_of d.fd
  pub indexed : (s.heap channel).index ≡ some i
  pub quiet : is_ignored d.fd ≡ true → d.events ≡ 0

-- A channel of the map has a pollfd at its index.
pub record Entry (s : PollPoller) (fd p : ℕ) : Type 0 where
  pub own_fd : (s.heap p).fd ≡ fd
  pub place : ℕ
  pub indexed : (s.heap p).index ≡ some place
  pub pollfd : PollFd
  pub held : get_elem? s.pollfds place ≡ some pollfd
  pub same_fd : fd_of pollfd.fd ≡ fd

pub record Agrees (s : PollPoller) : Type 0 where
  pub slot : (i : ℕ) (d : PollFd) → get_elem? s.pollfds i ≡ some d → Slot s i d
  pub entry : (fd p : ℕ) → s.channels fd ≡ some p → Entry s fd p

-- The pollfd for a descriptor.
abbrev pub pollfd_of : PollPoller → ℕ → Option PollFd
pollfd_of s fd = do p ← s.channels fd; i ← (s.heap p).index; get_elem? s.pollfds i

pub pollfd_of-found :
    (s : PollPoller) (fd p i : ℕ)
    → s.channels fd ≡ some p
    → (s.heap p).index ≡ some i
    → pollfd_of s fd ≡ get_elem? s.pollfds i
pollfd_of-found s fd p i e k = rw e (rw k refl)

pub pollfd_of-missing : (s : PollPoller) (fd : ℕ) → s.channels fd ≡ none → pollfd_of s fd ≡ none
pollfd_of-missing s fd e = rw e refl

-- Two places with one channel's descriptor are the same.
pub same_place :
    (s : PollPoller) (i j : ℕ) (d e : PollFd)
    → Agrees s
    → get_elem? s.pollfds i ≡ some d
    → get_elem? s.pollfds j ≡ some e
    → fd_of d.fd ≡ fd_of e.fd
    → i ≡ j
same_place s i j d e a hd he same =
    let sd = a.slot i d hd in
    let se = a.slot j e he in
    let p : sd.channel ≡ se.channel =
      some-injective sd.channel se.channel (sym sd.listed ∙ ap s.channels same ∙ se.listed) in
    some-injective i j (sym sd.indexed ∙ ap (λ q. (s.heap q).index) p ∙ se.indexed)
