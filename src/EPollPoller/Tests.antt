-- ===== src/EPollPoller/Tests.antt =====
-- muduo/net/EPollPoller.cpp: the theorems at a poller with one channel, and at an empty one.
use mathlib.Core.Option.{some-injective}
use learn_muduo.Prelude.{
  ℕ, ◌≡◌, ◌≢◌, ◌∙◌, refl, sym, ap, subst, inl, inr, Bool, true, false, List, [], ◌∷◌, Option, some,
  none, ◌==◌, ==_iff, if◌then◌else◌, Bool-cases,
}
use learn_muduo.Channel.{Channel, is_none_event}
use learn_muduo.EPollPoller.{EPollPoller, Event, k_new, k_added}
use learn_muduo.EPollPoller.Agreement.{Interest, fresh, watched_as, Agrees}
use learn_muduo.EPollPoller.Interest.{
  Updates, Removes, update_channel-Updates, remove_channel-Removes,
}

-- The channel 5 watches nothing any more, and the kernel still watches its file descriptor.
abbrev pub only_five : {A : Type 0} → A → A → ℕ → A
only_five there elsewhere i = if i == 5 then there else elsewhere

abbrev five_if : Bool → Option ℕ
five_if b = if b then some 5 else none

abbrev pub channel_at : ℕ → Channel
channel_at p = record {
  fd = p;
  events = 0;
  revents = 0;
  index = only_five k_added k_new p;
  log_hup = true;
  tied = false;
  event_handling = false;
  added_to_loop = true;
}

abbrev pub poller : EPollPoller
poller = record { heap = channel_at; channels = only_five (some 5) none; events_size = 16 }

abbrev pub interest : Interest
interest = only_five (some 3) none

pub k_added≢k_new : k_added ≢ k_new
k_added≢k_new e = cc

pub poller-Agrees : Agrees poller interest
poller-Agrees = record {
  entry = entries;
  place = λ p. elim (Bool-cases (p == 5)) [
    | inl five ↦
        watched_as 3 (rw five refl) (rw five (ap some (sym ((==_iff p 5).0 five)))) (rw five refl)
    | inr other ↦ fresh (rw other refl)
  ];
  free = λ fd e. elim (Bool-cases (fd == 5)) [
    | inl five ↦ let bad : some 5 ≡ none = subst (λ b. five_if b ≡ none) five e in cc
    | inr other ↦ rw other refl
  ];
}
  where
    entries :
        (fd p : ℕ)
        → only_five (some 5) none fd ≡ some p
        → ((channel_at p).fd ≡ fd) × ((channel_at p).index ≢ k_new)
    entries fd p e = elim (Bool-cases (fd == 5)) [
      | inl five ↦
          let same : 5 ≡ p = some-injective 5 p (subst (λ b. five_if b ≡ some p) five e) in
          (
            sym same ∙ sym ((==_iff fd 5).0 five),
            λ h. k_added≢k_new (subst (λ i. only_five k_added k_new i ≡ k_new) (sym same) h),
          )
      | inr other ↦ let bad : none ≡ some p = subst (λ b. five_if b ≡ some p) other e in cc
    ]

update_channel-Updates_example : Updates poller interest 5
update_channel-Updates_example =
    update_channel-Updates poller interest 5 poller-Agrees (λ e. absurd (k_added≢k_new e))

remove_channel-Removes_example : Removes poller interest 5
remove_channel-Removes_example =
    remove_channel-Removes poller interest 5 poller-Agrees (λ e. absurd (k_added≢k_new e))
      (unfold is_none_event in refl)

abbrev events : List Event
events = record { channel = 5; events = 1 } ∷ []
