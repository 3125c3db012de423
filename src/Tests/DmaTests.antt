-- ===== src/Tests/DmaTests.antt =====
-- Runs of dma-api.c, and the environment of the tests.
use thesis_software.Base.{
  ℕ, ◌+◌, ◌≡◌, refl, true, false, none, some, [], ◌∷◌, arith, ltb, if◌then◌else◌,
}
use thesis_software.World.{Env, Trace, ready}
use thesis_software.Dma.{
  dma_received, wait_dma_transmission_done, reset_dma_channel, start_dma_channel, poll_status,
  set_dma_channel_address, set_dma_transmission_length, channel_offset, is_idle, is_error,
}
use thesis_software.Dma.Wait.{PollRun, wait_dma_transmission_done-PollRun}
use thesis_software.Dma.Channels.{engine, on_channel, operations_refine_engine}
use thesis_software.Dma.Sysfs.{Texts, no_number}
use thesis_software.Dma.Mm2s
use thesis_software.Dma.S2mm

-- Events so far.
abbrev count : Trace → ℕ
count [] = 0
count (_ ∷ t) = count t + 1

-- Every call works, descriptors and addresses are fixed, and the engine is idle once five events
-- have passed.
abbrev pub calm : Env
calm = record {
  register = λ t off. if ltb 5 (count t) then 2 else 0;
  open_file = λ t path. some 7;
  map_memory = λ t fd len. some 4096;
  signal = λ t pid. true;
  set_handler = λ t. true;
  get_terminal = λ t. true;
  set_terminal = λ t. true;
  select_key = λ t. ready;
  read_key = λ t. some b'+';
  sigint = λ t. false;
  sysfs = λ t path. none;
}

waits : (wait_dma_transmission_done calm 1 10 []).0 ≡ dma_received
unfolding wait_dma_transmission_done poll_status is_idle is_error
waits = refl

wait_dma_transmission_done-PollRun_example :
    PollRun calm
      (channel_offset 1 Mm2s.status S2mm.status)
      10
      []
      (wait_dma_transmission_done calm 1 10 [])
wait_dma_transmission_done-PollRun_example =
    wait_dma_transmission_done-PollRun calm 1 10 [] (omega arith)

operations_refine_engine_example :
    (engine (reset_dma_channel 1 []).1 ≡ on_channel 1 (λ c. record c { control = 4 }) (engine []))
    × (engine (start_dma_channel 1 []).1
        ≡ on_channel 1 (λ c. record c { control = 0x7001 }) (engine []))
    × (engine (set_dma_channel_address 1 0x1_2345_6789 []).1
        ≡ on_channel 1 (λ c. record c { address = 0x1_2345_6789 }) (engine []))
    × (engine (set_dma_transmission_length 1 4096 []).1
        ≡ on_channel 1 (λ c. record c { length = 4096 }) (engine []))
operations_refine_engine_example =
    operations_refine_engine [] 1 0x1_2345_6789 4096 (omega arith) (omega arith)

-- No text is a number.
abbrev pub no_numbers : Texts
no_numbers = record {
  parse = λ bs. no_number;
  stack = [];
  dec = λ bs. none;
  phys_addr_path = λ i. "phys_addr";
  size_path = λ i. "size";
}
