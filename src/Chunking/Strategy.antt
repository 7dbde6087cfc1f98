-- ===== src/Chunking/Strategy.antt =====
-- src/qdap/chunking/strategy.py and batch_config.py: chunk and batch sizes. An energy is a
-- non-negative float, as its 64-bit pattern: on these the order of floats is that of patterns.
use qdap_protocol.Base.{
  ℕ, ◌+◌, ◌-◌, ◌*◌, ◌/◌, ◌≤◌, ◌<◌, ◌≡◌, refl, Bool, true, false, not, ltb, leb, ◌==◌, if◌then◌else◌,
  max, Result, ok, err, Error, ◌↔◌, arith,
}

pub data ChunkStrategy : Type 0 where
  micro small medium large jumbo : ChunkStrategy

abbrev pub strategy_size : ChunkStrategy → ℕ
strategy_size micro = 4 * 1024
strategy_size small = 16 * 1024
strategy_size medium = 64 * 1024
strategy_size large = 256 * 1024
strategy_size jumbo = 1024 * 1024

-- The patterns of 0.50, 0.35 and 0.70.
abbrev f0_50 : ℕ
f0_50 = 0x3fe0000000000000

abbrev f0_35 : ℕ
f0_35 = 0x3fd6666666666666

abbrev f0_70 : ℕ
f0_70 = 0x3fe6666666666666

unfoldable pub payload_size_default : ℕ → ChunkStrategy
payload_size_default size =
    if ltb size (32 * 1024)
    then small
    else if ltb size (512 * 1024)
    then medium
    else if ltb size (10 * 1024 * 1024)
    then large
    else jumbo

unfoldable pub from_energy_bands : ℕ → ℕ → ℕ → ℕ → Bool → ChunkStrategy
unfolding payload_size_default
from_energy_bands low mid high size has_spectrum_data =
    if not has_spectrum_data
    then payload_size_default size
    else if ltb f0_50 high
    then micro
    else if ltb f0_35 high
    then small
    else if ltb f0_70 low
    then (if ltb (10 * 1024 * 1024) size
        then jumbo
        else if ltb (1024 * 1024) size
        then large
        else medium)
    else if ltb f0_50 low
    then large
    else if ltb size (64 * 1024)
    then small
    else if ltb size (1024 * 1024)
    then medium
    else large

abbrev pub small_batch : ℕ
small_batch = 2

abbrev pub default_batch : ℕ
default_batch = 8

abbrev pub large_batch : ℕ
large_batch = 16

abbrev pub jumbo_batch : ℕ
jumbo_batch = 32

-- BatchConfig.for_payload
unfoldable pub for_payload : ℕ → ℕ → Result ℕ
for_payload payload_size chunk_size =
    if chunk_size == 0
    then err Error.zero_division
    else if leb ((payload_size + chunk_size - 1) / chunk_size) 4
    then ok 1
    else (let batch = max 1 (2 * 1024 * 1024 / chunk_size) in
        if leb batch 2
        then ok small_batch
        else if leb batch 8
        then ok default_batch
        else if leb batch 16
        then ok large_batch
        else ok jumbo_batch)

one_or :
    (few : Bool) (b size : ℕ)
    → 1 ≤ b
    → b ≤ 32
    → b * size ≤ 2097152
    → size ≤ 2097152
    → (n : ℕ) × ((if few then ok 1 else ok b) ≡ ok n) × (1 ≤ n) × (n ≤ 32) × (n * size ≤ 2097152)
one_or true b size h1 h2 h3 h4 = (1, refl, omega arith, omega arith, omega arith)
one_or false b size h1 h2 h3 h4 = (b, refl, h1, h2, h3)

-- For the chunk size of every strategy a batch size comes back, whatever the payload: it is from 1
-- to 32, and a batch of that many chunks holds at most the target of 2 MiB.
pub for_payload_bounds :
    (payload_size : ℕ) (s : ChunkStrategy)
    → (n : ℕ) × (for_payload payload_size (strategy_size s) ≡ ok n)
      × (1 ≤ n)
      × (n ≤ 32)
      × (n * strategy_size s ≤ 2 * 1024 * 1024)
unfolding for_payload
for_payload_bounds size micro =
    one_or (leb ((size + 4096 - 1) / 4096) 4) 32 4096 (omega arith) (omega arith) (omega arith)
      (omega arith)
for_payload_bounds size small =
    one_or (leb ((size + 16384 - 1) / 16384) 4) 32 16384 (omega arith) (omega arith) (omega arith)
      (omega arith)
for_payload_bounds size medium =
    one_or (leb ((size + 65536 - 1) / 65536) 4) 32 65536 (omega arith) (omega arith) (omega arith)
      (omega arith)
for_payload_bounds size large =
    one_or (leb ((size + 262144 - 1) / 262144) 4) 8 262144 (omega arith) (omega arith) (omega arith)
      (omega arith)
for_payload_bounds size jumbo =
    one_or (leb ((size + 1048576 - 1) / 1048576) 4) 2 1048576 (omega arith) (omega arith)
      (omega arith) (omega arith)

-- With a spectrum, chunks of 4 KiB are chosen exactly when the high band is above one half.
pub from_energy_bands_micro :
    (low mid high size : ℕ) → (from_energy_bands low mid high size true ≡ micro) ↔ (f0_50 < high)
unfolding from_energy_bands
from_energy_bands_micro low mid high size = (λ h. ground arith, λ h. ground arith)

-- Jumbo chunks need a payload of 10 MiB at least, with and without a spectrum.
pub from_energy_bands_jumbo :
    (low mid high size : ℕ) (has : Bool)
    → from_energy_bands low mid high size has ≡ jumbo
    → 10 * 1024 * 1024 ≤ size
unfolding from_energy_bands
from_energy_bands_jumbo low mid high size has h = ground arith
