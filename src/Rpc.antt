-- ===== src/Rpc.antt =====
-- pkg/sfu/signaling.go: the JSON-RPC requests and responses, and their parameters. encoding/json is the record
-- `Decode`: what it makes of a message and of a request's parameters, if they decode.
use choice.Base.{nat_eq, string_eq, String, Option, ℤ, negsuc}

-- An id is the text of a JSON value.
pub record Request : Type 0 where
  pub id : String
  pub method : String
  pub params : String

pub data Reply : Type 0 where
  answer : String → Reply
  success : Reply
  layers : String → String → Reply  -- the current and the target layer

pub data Outcome : Type 0 where
  result : Reply → Outcome
  error : ℤ → String → Outcome

pub record Response : Type 0 where
  pub id : String
  pub outcome : Outcome

pub record JoinParams : Type 0 where
  pub session_id : String
  pub peer_id : String
  pub offer : String

pub record SubscribeParams : Type 0 where
  pub session_id : String
  pub peer_id : String
  pub target_peer_id : String

pub record CandidateParams : Type 0 where
  pub session_id : String
  pub peer_id : String
  pub candidate : String
  pub target : String

pub record AnswerParams : Type 0 where
  pub session_id : String
  pub peer_id : String
  pub answer : String

pub record LeaveParams : Type 0 where
  pub session_id : String
  pub peer_id : String

pub record SetLayerParams : Type 0 where
  pub session_id : String
  pub peer_id : String
  pub track_id : String
  pub layer : String

pub record GetLayerParams : Type 0 where
  pub session_id : String
  pub peer_id : String
  pub track_id : String

pub record Decode : Type 0 where
  pub request : String → Option Request
  pub join : String → Option JoinParams
  pub subscribe : String → Option SubscribeParams
  pub candidate : String → Option CandidateParams
  pub answer : String → Option AnswerParams
  pub leave : String → Option LeaveParams
  pub set_layer : String → Option SetLayerParams
  pub get_layer : String → Option GetLayerParams

-- The error codes.
abbrev pub parse_error : ℤ
parse_error = negsuc 32699

abbrev pub invalid_params : ℤ
invalid_params = negsuc 32601

abbrev pub method_not_found : ℤ
method_not_found = negsuc 32600

abbrev pub server_error : ℤ
server_error = negsuc 31999
