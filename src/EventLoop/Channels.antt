-- ===== src/EventLoop/Channels.antt =====
-- muduo/net/EventLoop.cpp: a channel leaves the loop and its poller.
use learn_muduo.Prelude.{
  ℕ, ◌≡◌, ◌≢◌, ◌∙◌, ap, true, false, not, ◌||◌, List, none, some, ◌>>=◌, ◌>>◌, assert,
}
use learn_muduo.Channel.{is_none_event}
use learn_muduo.EPollPoller.{EPollPoller, k_new, Ctl}
use learn_muduo.EPollPoller
use learn_muduo.EPollPoller.Agreement.{Interest, Agrees, epoll_ctls}
use learn_muduo.EPollPoller.Interest.{Removes, remove_channel-Removes}
use learn_muduo.EventLoop.{EventLoop, may_remove, remove_channel}

module _ {F : Type 0} where
  -- In the loop's thread, a registered channel without events leaves a poller that agrees with the
  -- kernel, exactly where the loop is not handling events, or the channel is the current one, or it
  -- is not active: then the kernel accepts the calls, and map, indices and kernel agree behind them;
  -- otherwise an assertion fails.
  pub remove_channel-current :
      (s : EventLoop F) (w : Interest) (p : ℕ)
      → Agrees s.poller w
      → (s.poller.heap p).index ≢ k_new
      → is_none_event (s.poller.heap p) ≡ true
      → ((not s.event_handling || may_remove s p) ≡ true
          → (poller : EPollPoller) × (ctls : List Ctl) × (w' : Interest) × (remove_channel true s p
              ≡ some (record s { poller = poller }, ctls))
            × (epoll_ctls w ctls ≡ some w')
            × Agrees poller w')
        × ((not s.event_handling || may_remove s p) ≡ false → remove_channel true s p ≡ none)
  unfolding remove_channel
  remove_channel-current s w p agrees known idle =
      let r : Removes s.poller w p = remove_channel-Removes s.poller w p agrees known idle in
      (
        λ may. (
          r.after,
          r.calls,
          r.interest,
          ap
                (λ b. assert b >> (do
                  (poller, ctls) ← EPollPoller.remove_channel s.poller p
                  some (record s { poller = poller }, ctls)))
                may
              ∙ ap (λ m. m >>= λ (poller, ctls). some (record s { poller = poller }, ctls)) r.made,
          r.accepted,
          r.agrees,
        ),
        λ busy.
            ap
              (λ b. assert b >> (do
                (poller, ctls) ← EPollPoller.remove_channel s.poller p
                some (record s { poller = poller }, ctls)))
              busy,
      )
