-- ===== src/Failure.antt =====
-- include/hotrod/HotRodClientException.h: the typed failure of every operation, and the helpers that
-- classify it. The text of `what()` is left out.
pub mod Axes
mod Runs
use cpp17_client.Base.{ℕ, List, [], ◌∷◌, Bool, true, false, ◌&&◌, ◌||◌, ◌==◌, if◌then◌else◌}
use cpp17_client.Base.{Option, none, some, Error}

pub data FailurePhase : Type 0 where
  before_send after_send server_error : FailurePhase

pub record ServerAddress : Type 0 where
  pub host : List ℕ
  pub port : ℕ

-- `std::string::operator==`.
unfoldable pub same_bytes : List ℕ → List ℕ → Bool
same_bytes [] [] = true
same_bytes [] (y ∷ ys) = false
same_bytes (x ∷ xs) [] = false
same_bytes (x ∷ xs) (y ∷ ys) = x == y && same_bytes xs ys

-- `ServerAddress::operator==`.
unfoldable pub same_address : ServerAddress → ServerAddress → Bool
unfolding same_bytes
same_address a b = same_bytes a.host b.host && a.port == b.port

pub record HotRodClientException : Type 0 where
  pub phase : FailurePhase
  pub server_status : Option ℕ
  pub tried_nodes : List ServerAddress
  pub owners_exhausted : Bool

-- What an `std::exception_ptr` holds, or a `catch` meets.
pub data Thrown : Type 0 where
  typed : HotRodClientException → Thrown
  plain : Error → Thrown

-- Status::*
abbrev pub command_timeout : ℕ
command_timeout = 0x86

abbrev pub node_suspected : ℕ
node_suspected = 0x87

abbrev pub illegal_lifecycle_state : ℕ
illegal_lifecycle_state = 0x88

unfoldable pub is_transient_status : ℕ → Bool
is_transient_status status =
    if status == command_timeout
    then true
    else if status == node_suspected
    then true
    else if status == illegal_lifecycle_state
    then true
    else false

-- `serverStatus.has_value() && test(*serverStatus)`.
has_status : (ℕ → Bool) → Option ℕ → Bool
has_status test none = false
has_status test (some status) = test status

phase_is_transient : FailurePhase → Option ℕ → Bool
phase_is_transient before_send status = true
phase_is_transient after_send status = true
phase_is_transient server_error status = has_status is_transient_status status

unfoldable pub is_transient : HotRodClientException → Bool
unfolding phase_is_transient has_status is_transient_status
is_transient e = phase_is_transient e.phase e.server_status

phase_is_uncertain : FailurePhase → Option ℕ → Bool
phase_is_uncertain before_send status = false
phase_is_uncertain after_send status = true
phase_is_uncertain server_error status = has_status (λ s. s == command_timeout) status

unfoldable pub outcome_uncertain : HotRodClientException → Bool
unfolding phase_is_uncertain has_status
outcome_uncertain e = phase_is_uncertain e.phase e.server_status
