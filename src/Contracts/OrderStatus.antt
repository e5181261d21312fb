-- ===== src/Contracts/OrderStatus.antt =====
-- The order status of the contracts, protogen/ts/orders/v1/orders_pb.ts.
use polyglot_ticketing_v.Base.{ℤ, Bool, true, false}

pub data OrderStatus : Type 0 where
  unspecified created canceled awaiting_payment complete : OrderStatus
  unrecognized : ℤ → OrderStatus

abbrev pub is_created : OrderStatus → Bool
is_created created = true
is_created _ = false
