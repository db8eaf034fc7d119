-- ===== src/Money/Records.antt =====
-- src/ragbench/core/money.py, the records. A `Decimal` amount is a whole number of money quanta
-- (`MONEY_QUANTUM`, 0.000001 USD, which is also the scale of the database columns), and a UUID is
-- its 128-bit number.
use ragbench_kr_implementati.Prelude.{ℕ, Option, Bool, true, false, String}
use ragbench_kr_implementati.Prelude.Int.{ℤ}

abbrev pub Decimal : Type 0
Decimal = ℤ

abbrev pub Uuid : Type 0
Uuid = ℕ

pub record Usage : Type 0 where
  pub input_tokens : ℤ
  pub output_tokens : ℤ
  pub billable_pages : ℤ
  pub estimated_cost_usd : Decimal

-- The strings "open", "settled", "reconciliation_required" and "released".
pub data Status : Type 0 where
  opened settled reconciliation_required released : Status

abbrev pub is_open : Status → Bool
is_open opened = true
is_open _ = false

-- What `reserve` returns: a copy, with no link to the stored row.
pub record Reservation : Type 0 where
  pub id : Uuid
  pub correlation_id : Uuid
  pub reserved_cost_usd : Decimal
  pub status : Status

pub record UsageRecord : Type 0 where
  pub correlation_id : Uuid
  pub operation : String
  pub model_id : String
  pub usage : Usage
  pub cache_hit : Bool

-- `_MemoryReservation`.
pub record MemoryReservation : Type 0 where
  pub id : Uuid
  pub correlation_id : Uuid
  pub reserved_cost_usd : Decimal
  pub status : Status
  pub settled_cost_usd : Option Decimal
