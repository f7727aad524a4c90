-- ===== src/Request.antt =====
-- The messages of a request, as the protocol declares them and the code reads them.
use api_ratelimit.Common.{GoString, ℕ, Option, List}
use api_ratelimit.Utils.{LimitUnit}

-- pb_struct.RateLimitDescriptor_Entry
pub record Entry : Type 0 where
  pub key : GoString
  pub value : GoString

-- pb_struct.RateLimitDescriptor_RateLimitOverride, its unit already converted as in `GetLimit`
pub record LimitOverride : Type 0 where
  pub requests_per_unit : ℕ
  pub unit : LimitUnit

-- pb_struct.RateLimitDescriptor
pub record Descriptor : Type 0 where
  pub entries : List Entry
  pub limit : Option LimitOverride

-- pb.RateLimitRequest
pub record Request : Type 0 where
  pub domain : GoString
  pub descriptors : List Descriptor
  pub hits_addend : ℕ
