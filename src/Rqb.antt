-- ===== src/Rqb.antt =====
-- scheduler/rqb.rs: the request block, the fixed-size message that tasks exchange.
use mmurtl_rs.Base.{
  ℕ, zero, suc, ◌%◌, ◌^◌, min, Bool, ◌==◌, guard, ◌>>◌, ◌>>=◌, Option, some, List, ◌++◌, length,
  take, drop, replicate,
}
pub mod Payload
mod Tests

-- RQB_DATA_SIZE
abbrev pub rqb_data_size : ℕ
rqb_data_size = 64

pub data RqbStatus : Type 0 where
  success general_failure invalid_service invalid_param timeout : RqbStatus
  no_memory access_denied not_found busy aborted : RqbStatus

-- The discriminants, `status as u16`.
unfoldable pub as_u16 : RqbStatus → ℕ
as_u16 RqbStatus.success = 0
as_u16 RqbStatus.general_failure = 1
as_u16 RqbStatus.invalid_service = 2
as_u16 RqbStatus.invalid_param = 3
as_u16 RqbStatus.timeout = 4
as_u16 RqbStatus.no_memory = 5
as_u16 RqbStatus.access_denied = 6
as_u16 RqbStatus.not_found = 7
as_u16 RqbStatus.busy = 8
as_u16 RqbStatus.aborted = 9

-- `RqbStatus::from(u16)`: an unknown code reads as a general failure.
unfoldable pub from_u16 : ℕ → RqbStatus
from_u16 zero = RqbStatus.success
from_u16 (suc zero) = RqbStatus.general_failure
from_u16 (suc (suc zero)) = RqbStatus.invalid_service
from_u16 (suc (suc (suc zero))) = RqbStatus.invalid_param
from_u16 (suc (suc (suc (suc zero)))) = RqbStatus.timeout
from_u16 (suc (suc (suc (suc (suc zero))))) = RqbStatus.no_memory
from_u16 (suc (suc (suc (suc (suc (suc zero)))))) = RqbStatus.access_denied
from_u16 (suc (suc (suc (suc (suc (suc (suc zero))))))) = RqbStatus.not_found
from_u16 (suc (suc (suc (suc (suc (suc (suc (suc zero)))))))) = RqbStatus.busy
from_u16 (suc (suc (suc (suc (suc (suc (suc (suc (suc zero))))))))) = RqbStatus.aborted
from_u16 _ = RqbStatus.general_failure

pub record Rqb : Type 0 where
  pub service : ℕ
  pub status : ℕ
  pub sender_id : ℕ
  pub receiver_id : ℕ
  pub data_size : ℕ
  pub reserved : List ℕ
  pub payload : List ℕ

unfoldable pub new : Rqb
new = record {
  service = 0;
  status = 0;
  sender_id = 0;
  receiver_id = 0;
  data_size = 0;
  reserved = replicate 2 0;
  payload = replicate rqb_data_size 0;
}

unfoldable pub with_service : ℕ → Rqb
unfolding new
with_service service = record new { service = service }

-- `copy_from_slice` into the first `len` bytes panics, here `none`, unless the source has `len` bytes;
-- `len as u16` keeps 16 bits.
unfoldable pub set_data : List ℕ → Rqb → Option Rqb
set_data bytes r =
    let len = min (length bytes) rqb_data_size in
    do
      guard (length bytes == len)
      some (record r { payload = take len bytes ++ drop len r.payload; data_size = len % 2 ^ 16 })

-- `array_index_nospec(size, 65)` is `size` for every `size < 65`: it only stops speculation.
unfoldable pub get_data : Rqb → List ℕ
get_data r = take (min r.data_size rqb_data_size) r.payload

unfoldable pub set_status : RqbStatus → Rqb → Rqb
set_status status r = record r { status = as_u16 status }

unfoldable pub is_ok : Rqb → Bool
unfolding as_u16
is_ok r = r.status == as_u16 RqbStatus.success
