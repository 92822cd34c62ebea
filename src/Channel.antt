-- ===== src/Channel.antt =====
-- muduo/net/Channel.h and Channel.cpp. The event sets are bit sets, as in poll(2).
pub mod Bits
use Prim.Native.Nat.{bit_and, bit_or}
use learn_muduo.Prelude.{
  ℕ, ◌+◌, ◌-◌, ◌^◌, Bool, true, false, ◌&&◌, not, List, [], ◌∷◌, ◌++◌, Option, some, none, codes,
  ◌==◌, if◌then◌else◌, ◌>>=◌, ◌>>◌, assert, decimal,
}

abbrev pub pollin : ℕ
pollin = 1

abbrev pub pollpri : ℕ
pollpri = 2

abbrev pub pollout : ℕ
pollout = 4

abbrev pub pollerr : ℕ
pollerr = 8

abbrev pub pollhup : ℕ
pollhup = 16

abbrev pub pollnval : ℕ
pollnval = 32

abbrev pub pollrdhup : ℕ
pollrdhup = 0x2000

abbrev pub none_event : ℕ
none_event = 0

abbrev pub read_event : ℕ
read_event = bit_or pollin pollpri

abbrev pub write_event : ℕ
write_event = pollout

-- What the pollers and the handlers read and write of a channel. `index` is -1 for `none`.
pub record Channel : Type 0 where
  pub fd : ℕ
  pub events : ℕ
  pub revents : ℕ
  pub index : Option ℕ
  pub log_hup : Bool
  pub tied : Bool
  pub event_handling : Bool
  pub added_to_loop : Bool

-- The constructor.
unfoldable pub init : ℕ → Channel
init fd = record {
  fd = fd;
  events = 0;
  revents = 0;
  index = none;
  log_hup = true;
  tied = false;
  event_handling = false;
  added_to_loop = false;
}

unfoldable pub tie : Channel → Channel
tie c = record c { tied = true }

-- The flag of `update()`, which goes on to `EventLoop::updateChannel`.
abbrev pub update : Channel → Channel
update c = record c { added_to_loop = true }

-- `~mask` for an `int`.
abbrev pub complement : ℕ → ℕ
complement mask = 2 ^ 32 - 1 - mask

unfoldable pub enable_reading : Channel → Channel
enable_reading c = update (record c { events = bit_or c.events read_event })

unfoldable pub disable_reading : Channel → Channel
disable_reading c = update (record c { events = bit_and c.events (complement read_event) })

unfoldable pub enable_writing : Channel → Channel
enable_writing c = update (record c { events = bit_or c.events write_event })

unfoldable pub disable_writing : Channel → Channel
disable_writing c = update (record c { events = bit_and c.events (complement write_event) })

unfoldable pub disable_all : Channel → Channel
disable_all c = update (record c { events = none_event })

unfoldable pub is_none_event : Channel → Bool
is_none_event c = c.events == none_event

-- A bit set meets a mask.
unfoldable pub meets : ℕ → ℕ → Bool
meets set mask = not (bit_and set mask == 0)

unfoldable pub is_writing : Channel → Bool
unfolding meets
is_writing c = meets c.events write_event

unfoldable pub is_reading : Channel → Bool
unfolding meets
is_reading c = meets c.events read_event

-- `remove()`, before it goes on to `EventLoop::removeChannel`.
unfoldable pub remove : Channel → Option Channel
unfolding is_none_event
remove c = do assert (is_none_event c); some (record c { added_to_loop = false })

pub data Callback : Type 0 where
  close_callback error_callback read_callback write_callback : Callback

abbrev pub call_if : Bool → Callback → List Callback
call_if b c = if b then c ∷ [] else []

-- The callbacks that `handleEventWithGuard` calls, in order, where all four are set.
unfoldable pub callbacks_of : ℕ → List Callback
unfolding meets
callbacks_of revents =
    call_if (meets revents pollhup && not (meets revents pollin)) close_callback
    ++ (call_if (meets revents (bit_or pollerr pollnval)) error_callback
        ++ (call_if (meets revents (bit_or (bit_or pollin pollpri) pollrdhup)) read_callback
            ++ call_if (meets revents pollout) write_callback))

-- `handleEvent`: a tied channel whose owner is gone calls nothing. `alive` tells whether `lock` gives
-- the owner.
unfoldable pub handle_event : Channel → Bool → List Callback
unfolding callbacks_of
handle_event c alive =
    if c.tied then (if alive then callbacks_of c.revents else []) else callbacks_of c.revents

abbrev pub word_if : Bool → List ℕ → List ℕ
word_if b w = if b then w else []

unfoldable pub events_to_string : ℕ → ℕ → List ℕ
unfolding meets
events_to_string fd ev =
    decimal fd
    ++ (codes ": "
        ++ (word_if (meets ev pollin) (codes "IN ")
            ++ (word_if (meets ev pollpri) (codes "PRI ")
                ++ (word_if (meets ev pollout) (codes "OUT ")
                    ++ (word_if (meets ev pollhup) (codes "HUP ")
                        ++ (word_if (meets ev pollrdhup) (codes "RDHUP ")
                            ++ (word_if (meets ev pollerr) (codes "ERR ")
                                ++ word_if (meets ev pollnval) (codes "NVAL "))))))))
