-- ===== src/Channel/Bits.antt =====
-- muduo/net/Channel.h: what the interest of a channel becomes.
use learn_muduo.Prelude.{ℕ, ◌≡◌, refl, Bool, true, false}
use learn_muduo.Channel.{
  Channel, enable_writing, enable_reading, disable_reading, disable_writing, disable_all,
  is_writing, is_reading,
}

-- The sets that the methods make: nothing, reading, writing, or both.
pub data IsInterest : ℕ → Type 0 where
  nothing : {e : ℕ} → e ≡ 0 → IsInterest e
  reads : {e : ℕ} → e ≡ 3 → IsInterest e
  writes : {e : ℕ} → e ≡ 4 → IsInterest e
  both : {e : ℕ} → e ≡ 7 → IsInterest e

abbrev pub IsChannel : Channel → Type 0
IsChannel c = IsInterest c.events

-- The interest after a method, and what it says of reading and writing.
pub record Watches (c : Channel) (reading writing : Bool) : Type 0 where
  pub kept : IsChannel c
  pub reads : is_reading c ≡ reading
  pub writes : is_writing c ≡ writing

pub enable_writing-Watches :
    (c : Channel) → IsChannel c → Watches (enable_writing c) (is_reading c) true
unfolding enable_writing is_reading is_writing
enable_writing-Watches c (nothing e) =
    rw e (record { kept = writes refl; reads = refl; writes = refl })
enable_writing-Watches c (reads e) = rw e (record { kept = both refl; reads = refl; writes = refl })
enable_writing-Watches c (writes e) =
    rw e (record { kept = writes refl; reads = refl; writes = refl })
enable_writing-Watches c (both e) = rw e (record { kept = both refl; reads = refl; writes = refl })

pub disable_writing-Watches :
    (c : Channel) → IsChannel c → Watches (disable_writing c) (is_reading c) false
unfolding disable_writing is_reading is_writing
disable_writing-Watches c (nothing e) =
    rw e (record { kept = nothing refl; reads = refl; writes = refl })
disable_writing-Watches c (reads e) =
    rw e (record { kept = reads refl; reads = refl; writes = refl })
disable_writing-Watches c (writes e) =
    rw e (record { kept = nothing refl; reads = refl; writes = refl })
disable_writing-Watches c (both e) =
    rw e (record { kept = reads refl; reads = refl; writes = refl })

pub enable_reading-Watches :
    (c : Channel) → IsChannel c → Watches (enable_reading c) true (is_writing c)
unfolding enable_reading is_reading is_writing
enable_reading-Watches c (nothing e) =
    rw e (record { kept = reads refl; reads = refl; writes = refl })
enable_reading-Watches c (reads e) =
    rw e (record { kept = reads refl; reads = refl; writes = refl })
enable_reading-Watches c (writes e) =
    rw e (record { kept = both refl; reads = refl; writes = refl })
enable_reading-Watches c (both e) = rw e (record { kept = both refl; reads = refl; writes = refl })

pub disable_reading-Watches :
    (c : Channel) → IsChannel c → Watches (disable_reading c) false (is_writing c)
unfolding disable_reading is_reading is_writing
disable_reading-Watches c (nothing e) =
    rw e (record { kept = nothing refl; reads = refl; writes = refl })
disable_reading-Watches c (reads e) =
    rw e (record { kept = nothing refl; reads = refl; writes = refl })
disable_reading-Watches c (writes e) =
    rw e (record { kept = writes refl; reads = refl; writes = refl })
disable_reading-Watches c (both e) =
    rw e (record { kept = writes refl; reads = refl; writes = refl })

pub disable_all-Watches : (c : Channel) → Watches (disable_all c) false false
unfolding disable_all is_reading is_writing
disable_all-Watches c = record { kept = nothing refl; reads = refl; writes = refl }
