-- ===== src/Pb.antt =====
-- The messages of src/raftpb/raft.proto, whose generated Go structs are plain records. A nil
-- `Snapshot` pointer is `none`; a byte string is a list of numbers below 256. The field `Data` of
-- an entry is `payload` here.
use kvgo.Common.{Bool, List, Option, [], false, none, ℕ}

pub data MessageType : Type 0 where
  msg_unknown msg_app msg_app_resp msg_vote msg_vote_resp msg_snap msg_hup msg_beat : MessageType
  msg_prop msg_heartbeat msg_heartbeat_resp msg_read_index msg_read_index_resp : MessageType
  msg_check_quorum msg_pre_vote msg_pre_vote_resp msg_transfer_leader msg_timeout_now : MessageType

pub record Entry : Type 0 where
  pub index : ℕ
  pub term : ℕ
  pub payload : List ℕ

pub record SnapshotMeta : Type 0 where
  pub last_included_index : ℕ
  pub last_included_term : ℕ

pub record HardState : Type 0 where
  pub term : ℕ
  pub voted_for : ℕ
  pub committed_index : ℕ

pub record Message : Type 0 where
  pub type : MessageType
  pub from : ℕ
  pub to : ℕ
  pub index : ℕ
  pub log_term : ℕ
  pub term : ℕ
  pub commit : ℕ
  pub entries : List Entry
  pub reject : Bool
  pub reject_hint : ℕ
  pub snapshot : Option SnapshotMeta
  pub context : List ℕ

-- The struct literal `&raftpb.Message{Type: type}`: every other field has its zero value.
abbrev pub empty_message : MessageType → Message
empty_message type = record {
  type = type;
  from = 0;
  to = 0;
  index = 0;
  log_term = 0;
  term = 0;
  commit = 0;
  entries = [];
  reject = false;
  reject_hint = 0;
  snapshot = none;
  context = [];
}
