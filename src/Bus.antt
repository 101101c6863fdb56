-- ===== src/Bus.antt =====
-- OriginalFlashSim/ssd_bus.cpp: channels that work independently.
pub mod Exclusive
use test_flash_sim.Base.{
  ℕ, Option, List, Run, ok, guard, fetch, ◌>>=◌, ◌>>◌, Status, ltb, replicate, set,
}
use test_flash_sim.Event.{Event}
use test_flash_sim.Channel.{Channel}
use test_flash_sim.Channel

pub record Bus : Type 0 where
  pub num_channels : ℕ
  pub channels : List Channel

unfoldable pub new : ℕ → ℕ → ℕ → ℕ → ℕ → Run Bus
unfolding Channel.new
new num_channels ctrl_delay data_delay table_size max_connections = do
  guard (ltb 0 table_size)
  ok (record {
    num_channels = num_channels;
    channels = replicate num_channels (Channel.new ctrl_delay data_delay max_connections);
  })

unfoldable pub connect : Bus → ℕ → Run (Status × Bus)
connect b i = do
  guard (ltb i b.num_channels)
  ch ← fetch b.channels i
  let (s, ch') = Channel.connect ch
  ok (s, record b { channels = set b.channels i ch' })

unfoldable pub disconnect : Bus → ℕ → Run (Status × Bus)
disconnect b i = do
  guard (ltb i b.num_channels)
  ch ← fetch b.channels i
  let (s, ch') = Channel.disconnect ch
  ok (s, record b { channels = set b.channels i ch' })

-- The index is not checked here; the duration has to be positive.
unfoldable pub lock : Bus → ℕ → ℕ → ℕ → Event → Run (Bus × Event)
lock b i start_time duration e = do
  guard (ltb 0 duration)
  ch ← fetch b.channels i
  (ch', e') ← Channel.lock start_time duration ch e
  ok (record b { channels = set b.channels i ch' }, e')

unfoldable pub ready_time : Bus → ℕ → Run (Option ℕ)
ready_time b i = do guard (ltb i b.num_channels); ch ← fetch b.channels i; ok ch.ready_at
