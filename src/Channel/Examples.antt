-- ===== src/Channel/Examples.antt =====
-- A channel with one value, and one that waits for the second wake-up.
use idris2_rc.Prelude.{ℕ, ◌≡◌, refl, true, false, List, [], ◌∷◌, some, none}
use idris2_rc.Prelude.Run.{ok}
use idris2_rc.Channel.{
  Channel, WakeUp, channel_make, channel_put, channel_get_non_blocking, channel_get,
  channel_get_with_timeout,
}
use idris2_rc.Channel.Queue.{IsQueue}
use idris2_rc.Channel.Laws.{
  Refines, pop, get_spec, timeout_spec, channel-Refines, channel_get-returns,
}

abbrev empty_channel : Channel ℕ
empty_channel = record { head = none; tail = none; nodes = λ k. none; names = 0 }

empty_channel-IsQueue : IsQueue empty_channel []
unfolding IsQueue
empty_channel-IsQueue = (refl, refl)

make_empty : channel_make {A = ℕ} ≡ empty_channel
unfolding channel_make
make_empty = refl

abbrev later : List (WakeUp ℕ)
later =
    record { puts = []; timed_out = false } ∷ record { puts = 4 ∷ 5 ∷ []; timed_out = true } ∷ []

channel-Refines_example :
    ((d : Channel ℕ) × (channel_put empty_channel 3 ≡ ok d) × IsQueue d (3 ∷ []))
    × Refines (channel_get_non_blocking empty_channel) (some (pop []))
    × Refines (channel_get later empty_channel) (get_spec later [])
    × Refines (channel_get_with_timeout later empty_channel) (timeout_spec later [])
channel-Refines_example = channel-Refines empty_channel [] 3 later empty_channel-IsQueue

channel_get-returns_example :
    (d : Channel ℕ) × (v : ℕ) × (rest : List ℕ) × (channel_get later empty_channel ≡ ok (d, some v))
    × IsQueue d rest
channel_get-returns_example = channel_get-returns empty_channel [] later empty_channel-IsQueue refl
