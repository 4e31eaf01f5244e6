-- ===== src/Ssd/Buffer.antt =====
-- ssd.c: the write buffer, which counts bytes only. Each function holds the buffer's spin lock from
-- its first access to its last, so it is one step.
pub mod Ledger
use nvmevirt_fdp.Prelude.{
  ℕ, ◌+◌, ◌-◌, Option, some, ltb, leb, if◌then◌else◌, ◌>>=◌, ◌>>◌, nvmev_assert,
}
use nvmevirt_fdp.Ssd.Config.{u32, u64}

-- `struct buffer`.
pub record Buffer : Type 0 where
  pub size : ℕ
  pub remaining : ℕ

unfoldable pub buffer_init : ℕ → Buffer
buffer_init size = record { size = size; remaining = size }

-- `buffer_allocate`: the bytes allocated, 0 if there is no room, and the buffer.
unfoldable pub buffer_allocate : Buffer → ℕ → Option (ℕ × Buffer)
buffer_allocate b size = do
  nvmev_assert (leb size b.size)
  let granted = if ltb b.remaining size then 0 else size
  some (u32 granted, record b { remaining = b.remaining - granted })

-- `buffer_release`.
unfoldable pub buffer_release : Buffer → ℕ → Buffer
buffer_release b size = record b { remaining = u64 (b.remaining + size) }

-- `buffer_refill`.
unfoldable pub buffer_refill : Buffer → Buffer
buffer_refill b = record b { remaining = b.size }
