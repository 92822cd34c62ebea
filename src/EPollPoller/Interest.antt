-- ===== src/EPollPoller/Interest.antt =====
-- muduo/net/EPollPoller.cpp: what the kernel watches after the calls of `epoll_ctl`.
use learn_muduo.Prelude.{
  ℕ, ◌≡◌, ◌≢◌, ◌∙◌, refl, sym, ap, inl, inr, true, ◌&&◌, List, [], ◌∷◌, Option, none, some, eq→==,
  if◌then◌else◌, Bool-cases,
}
use learn_muduo.Channel.{Channel, is_none_event}
use learn_muduo.EPollPoller.{
  EPollPoller, put, k_new, k_added, k_deleted, is_index, Ctl, adds, modifies, deletes, set_index,
  is_channel, update_channel, remove_channel,
}
use learn_muduo.EPollPoller.Agreement.{
  Interest, epoll_ctl, epoll_ctls, Placed, fresh, watched_as, set_aside, Agrees, Touches, Settled,
  gone, kept, touched-Agrees, put-same, put-other,
}

-- What `updateChannel` leaves watched for a file descriptor.
abbrev pub wanted : Channel → Option ℕ
wanted c = if is_index c.index k_added && is_none_event c then none else some c.events

-- A method's result with the kernel behind it.
pub record Updates (s : EPollPoller) (w : Interest) (p : ℕ) : Type 0 where
  pub after : EPollPoller
  pub call : Ctl
  pub made : update_channel s p ≡ some (after, call)
  pub interest : Interest
  pub accepted : epoll_ctl w call ≡ some interest
  pub agrees : Agrees after interest
  pub watched : interest (s.heap p).fd ≡ wanted (s.heap p)

is_channel-same : (entry : Option ℕ) (p : ℕ) → entry ≡ some p → is_channel entry p ≡ true
is_channel-same entry p e = rw e (eq→== p p refl)

indexed-Touches :
    (s : EPollPoller) (w w' : Interest) (p : ℕ) (index : Option ℕ) (channels' : ℕ → Option ℕ)
    → ((fd : ℕ) → fd ≢ (s.heap p).fd → channels' fd ≡ s.channels fd)
    → ((fd : ℕ) → fd ≢ (s.heap p).fd → w' fd ≡ w fd)
    → Touches s (set_index (record s { channels = channels' }) p index) w w' p
indexed-Touches s w w' p index channels' ks ws = record {
  others = λ q h. put-other s.heap p q (record (s.heap p) { index = index }) h;
  same_fd = ap (λ c. c.fd) (put-same s.heap p (record (s.heap p) { index = index }));
  entries = ks;
  watched = ws;
}

index-put :
    (s : EPollPoller) (p : ℕ) (index : Option ℕ)
    → (put s.heap p (record (s.heap p) { index = index }) p).index ≡ index
index-put s p index = ap (λ c. c.index) (put-same s.heap p (record (s.heap p) { index = index }))

added-Settled :
    (p : ℕ) (index entry watched : Option ℕ) (events : ℕ)
    → index ≡ k_added
    → entry ≡ some p
    → watched ≡ some events
    → Settled p index entry watched
added-Settled p index entry watched events i en wa =
    kept (λ h. let bad : none ≡ some 1 = sym h ∙ i in cc) en (watched_as events i en wa)

aside-Settled :
    (p : ℕ) (index entry watched : Option ℕ)
    → index ≡ k_deleted
    → entry ≡ some p
    → watched ≡ none
    → Settled p index entry watched
aside-Settled p index entry watched i en wa =
    kept (λ h. let bad : none ≡ some 2 = sym h ∙ i in cc) en (set_aside i en wa)

-- Where map, indices and kernel agree, `updateChannel` succeeds on a channel that is known to the
-- poller, and on a new one whose file descriptor no other channel has; the kernel accepts the call
-- of `epoll_ctl`, and watches what the channel asks for, or nothing where a watched channel asks
-- for nothing; map, indices and kernel agree again.
pub update_channel-Updates :
    (s : EPollPoller) (w : Interest) (p : ℕ)
    → Agrees s w
    → ((s.heap p).index ≡ k_new → s.channels (s.heap p).fd ≡ none)
    → Updates s w p
unfolding is_none_event
update_channel-Updates s w p a new = by_place (a.place p)
  where
    by_place :
        Placed p (s.heap p).index (s.channels (s.heap p).fd) (w (s.heap p).fd) → Updates s w p
    by_place (fresh i) =
        let c = s.heap p in
        let free = new i in
        let s1 = record s { channels = put s.channels c.fd (some p) } in
        let w' = put w c.fd (some c.events) in
        record {
          after = set_index s1 p k_added;
          call = adds c.fd c.events;
          made = unfold update_channel in rw (i, free) refl;
          interest = w';
          accepted = rw (a.free c.fd free) refl;
          agrees =
              touched-Agrees s (set_index s1 p k_added) w w' p a (inl free)
                (indexed-Touches s w w' p k_added (put s.channels c.fd (some p))
                  (λ fd h. put-other s.channels c.fd fd (some p) h)
                  (λ fd h. put-other w c.fd fd (some c.events) h))
                (added-Settled p _ _ _ c.events (index-put s p k_added)
                  (put-same s.channels c.fd (some p)) (put-same w c.fd (some c.events)));
          watched = put-same w c.fd (some c.events) ∙ rw i refl;
        }
    by_place (watched_as ev i en wa) = elim (Bool-cases (is_none_event (s.heap p))) [
      | inl idle ↦
          let c = s.heap p in
          let w' = put w c.fd none in
          record {
            after = set_index s p k_deleted;
            call = deletes c.fd;
            made =
                unfold update_channel in
                rw (i, is_channel-same (s.channels c.fd) p en) (rw idle refl);
            interest = w';
            accepted = rw wa refl;
            agrees =
                touched-Agrees s (set_index s p k_deleted) w w' p a (inr en)
                  (indexed-Touches s w w' p k_deleted s.channels (λ fd h. refl)
                    (λ fd h. put-other w c.fd fd none h))
                  (aside-Settled p _ _ _ (index-put s p k_deleted) en (put-same w c.fd none));
            watched = put-same w c.fd none ∙ rw (i, idle) refl;
          }
      | inr asks ↦
          let c = s.heap p in
          let w' = put w c.fd (some c.events) in
          record {
            after = s;
            call = modifies c.fd c.events;
            made =
                unfold update_channel in
                rw (i, is_channel-same (s.channels c.fd) p en) (rw asks refl);
            interest = w';
            accepted = rw wa refl;
            agrees =
                touched-Agrees s s w w' p a (inr en)
                  (record {
                    others = λ q h. refl;
                    same_fd = refl;
                    entries = λ fd h. refl;
                    watched = λ fd h. put-other w c.fd fd (some c.events) h;
                  })
                  (added-Settled p _ _ _ c.events i en (put-same w c.fd (some c.events)));
            watched = put-same w c.fd (some c.events) ∙ rw (i, asks) refl;
          }
    ]
    by_place (set_aside i en wa) =
        let c = s.heap p in
        let w' = put w c.fd (some c.events) in
        record {
          after = set_index s p k_added;
          call = adds c.fd c.events;
          made = unfold update_channel in rw (i, is_channel-same (s.channels c.fd) p en) refl;
          interest = w';
          accepted = rw wa refl;
          agrees =
              touched-Agrees s (set_index s p k_added) w w' p a (inr en)
                (indexed-Touches s w w' p k_added s.channels (λ fd h. refl)
                  (λ fd h. put-other w c.fd fd (some c.events) h))
                (added-Settled p _ _ _ c.events (index-put s p k_added) en
                  (put-same w c.fd (some c.events)));
          watched = put-same w c.fd (some c.events) ∙ rw i refl;
        }

-- `removeChannel` on a channel without events, with the kernel behind it.
pub record Removes (s : EPollPoller) (w : Interest) (p : ℕ) : Type 0 where
  pub after : EPollPoller
  pub calls : List Ctl
  pub made : remove_channel s p ≡ some (after, calls)
  pub interest : Interest
  pub accepted : epoll_ctls w calls ≡ some interest
  pub agrees : Agrees after interest
  pub unwatched : interest (s.heap p).fd ≡ none
  pub forgotten : after.channels (s.heap p).fd ≡ none

-- Where map, indices and kernel agree, `removeChannel` succeeds on a channel without events that
-- the poller knows; the kernel accepts what it calls, watches the file descriptor no more, the map
-- forgets it, and all agree again.
pub remove_channel-Removes :
    (s : EPollPoller) (w : Interest) (p : ℕ)
    → Agrees s w
    → (s.heap p).index ≢ k_new
    → is_none_event (s.heap p) ≡ true
    → Removes s w p
unfolding is_none_event
remove_channel-Removes s w p a known idle = by_place (a.place p)
  where
    by_place :
        Placed p (s.heap p).index (s.channels (s.heap p).fd) (w (s.heap p).fd) → Removes s w p
    by_place (fresh i) = absurd (known i)
    by_place (watched_as ev i en wa) =
        let c = s.heap p in
        let s1 = record s { channels = put s.channels c.fd none } in
        let w' = put w c.fd none in
        record {
          after = set_index s1 p k_new;
          calls = deletes c.fd ∷ [];
          made = unfold remove_channel in rw (i, is_channel-same (s.channels c.fd) p en, idle) refl;
          interest = w';
          accepted = rw wa refl;
          agrees =
              touched-Agrees s (set_index s1 p k_new) w w' p a (inr en)
                (indexed-Touches s w w' p k_new (put s.channels c.fd none)
                  (λ fd h. put-other s.channels c.fd fd none h)
                  (λ fd h. put-other w c.fd fd none h))
                (gone (index-put s p k_new) (put-same s.channels c.fd none) (put-same w c.fd none));
          unwatched = put-same w c.fd none;
          forgotten = put-same s.channels c.fd none;
        }
    by_place (set_aside i en wa) =
        let c = s.heap p in
        let s1 = record s { channels = put s.channels c.fd none } in
        record {
          after = set_index s1 p k_new;
          calls = [];
          made = unfold remove_channel in rw (i, is_channel-same (s.channels c.fd) p en, idle) refl;
          interest = w;
          accepted = refl;
          agrees =
              touched-Agrees s (set_index s1 p k_new) w w p a (inr en)
                (indexed-Touches s w w p k_new (put s.channels c.fd none)
                  (λ fd h. put-other s.channels c.fd fd none h) (λ fd h. refl))
                (gone (index-put s p k_new) (put-same s.channels c.fd none) wa);
          unwatched = wa;
          forgotten = put-same s.channels c.fd none;
        }
