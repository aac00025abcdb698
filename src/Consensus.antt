-- ===== src/Consensus.antt =====
-- pkg/consensus/v1: the statuses of const.go and the messages of consensus.proto. The Go code that
-- protoc and gRPC bring is no part of the repository: it enters as the parameter `Rpc`.
use gale_lb.Prelude.{ℕ, ◌≡◌, ◌≢◌, Option, none, some, if◌then◌else◌, nat_beq}
use gale_lb.Prelude.Int.{ℤ}
use gale_lb.Prelude.Text.{Str, codes}

-- A ServiceStatus is a uint32.
abbrev pub serving : ℕ
serving = 0

abbrev pub not_serving : ℕ
not_serving = 1

abbrev pub shutting_down : ℕ
shutting_down = 2

unfoldable pub status_string : ℕ → Str
status_string s =
    if nat_beq s serving
    then codes "Serving"
    else if nat_beq s not_serving
    then codes "Not Serving"
    else if nat_beq s shutting_down
    then codes "Shutting Down"
    else codes "Unknown"

pub record HealthStatus : Type 0 where
  pub service : Str
  pub status : ℕ
  pub message : Str

pub record ConfigResponse : Type 0 where
  pub checks_before_routing : ℕ
  pub health_check_timeout : ℤ
  pub black_list_after_fails : ℤ
  pub black_list_expiry : ℤ

-- The generated getter, gRPC's errors and its codes.
pub record Rpc : Type 1 where
  pub RpcError : Type 0
  -- `(*HealthStatus).GetStatus`; `none` is the nil pointer.
  pub get_status : Option HealthStatus → ℕ
  -- `status.Code`; `none` is the nil error.
  pub code : Option RpcError → ℕ
  pub canceled : ℕ
  pub unavailable : ℕ

-- What the documentation of protobuf and gRPC promises.
pub record RpcLaws (rpc : Rpc) : Type 0 where
  pub get_status_nil : rpc.get_status none ≡ 0
  pub get_status_some : (m : HealthStatus) → rpc.get_status (some m) ≡ m.status
  pub canceled_not_nil : rpc.code none ≢ rpc.canceled
  pub unavailable_not_nil : rpc.code none ≢ rpc.unavailable
