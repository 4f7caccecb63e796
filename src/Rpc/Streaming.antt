-- ===== src/Rpc/Streaming.antt =====
-- src/python_tty/frontends/rpc/core.py: StreamEvents, with the messages that it yields. `str` and
-- `struct` are Python's and protobuf's conversions of a message and of a payload; whether the peer has
-- gone is what grpc says at a pass of the loop.
use python_tty.Prelude.{
  ℕ, String, Bool, true, ◌&&◌, Option, none, some, List, map, if◌then◌else◌, is_some, or_else, ℤ,
}
use python_tty.Prelude.Dict.{Dict}
use python_tty.Models.{Value, PyException, Outcome, returned, raised}
use python_tty.Config.{RpcConfig}
use python_tty.Runtime.Events.{RuntimeEvent, RuntimeEventKind, level_value, seq_of}
use python_tty.Runtime.EventBus.{RunEventBus}
use python_tty.Runtime.Jobs.{get_run_state}
use python_tty.Executor.{World, CommandExecutor}
use python_tty.Executor.Waiting.{stream_events}
use python_tty.Streams.{Reader, new_reader, read_event, finish}

-- RUNTIME_EVENT_KIND_*
pub data EventKindEnum : Type 0 where
  kind_unspecified kind_state kind_stdout kind_log : EventKindEnum

-- _kind_to_proto_enum
abbrev pub kind_to_proto_enum : Option RuntimeEventKind → EventKindEnum
kind_to_proto_enum none = kind_unspecified
kind_to_proto_enum (some RuntimeEventKind.state) = kind_state
kind_to_proto_enum (some RuntimeEventKind.stdout) = kind_stdout
kind_to_proto_enum (some RuntimeEventKind.log) = kind_log

-- The RuntimeEvent message of protobuf; an unset text is empty, an unset number 0.
pub record EventMessage (Struct : Type 0) : Type 0 where
  pub kind : EventKindEnum
  pub msg : String
  pub level : ℤ
  pub run_id : String
  pub event_type : String
  pub payload : Struct
  pub source : String
  pub ts : ℕ
  pub seq : ℕ

-- What StreamEvents begins with: a stream, the abort for an unknown run, or an error.
pub data StreamReply (Any : Type 0) : Type 0 where
  streaming : Reader Any → StreamReply Any
  stream_not_found : StreamReply Any
  stream_failed : PyException → StreamReply Any

module _ {Any Struct : Type 0} (str : Value Any → String)
    (struct : Option (Dict (Value Any)) → Struct) where
  abbrev pub text_of : Option (Value Any) → String
  text_of none = ""
  text_of (some v) = str v

  -- The message for an event.
  unfoldable pub event_message : RuntimeEvent Any → EventMessage Struct
  event_message e = record {
    kind = kind_to_proto_enum e.kind;
    msg = text_of e.msg;
    level = level_value e.level;
    run_id = or_else e.run_id "";
    event_type = or_else e.event_type "";
    payload = struct e.payload;
    source = or_else e.source "";
    ts = or_else e.ts 0;
    seq = seq_of e;
  }

  -- What a stream has yielded.
  unfoldable pub yielded : Reader Any → List (EventMessage Struct)
  unfolding event_message
  yielded r = map event_message r.seen

module _ {Handler Any : Type 0} where
  abbrev pub stream_reply :
      String
      → CommandExecutor Handler Any × Outcome ℕ
      → CommandExecutor Handler Any × StreamReply Any
  stream_reply run_id (e, raised x) = (e, stream_failed x)
  stream_reply run_id (e, returned q) = (e, streaming (new_reader run_id true q))

  -- StreamEvents, up to the loop
  unfoldable pub begin_stream :
      World
      → RpcConfig
      → String
      → ℤ
      → CommandExecutor Handler Any
      → CommandExecutor Handler Any × StreamReply Any
  unfolding get_run_state stream_events
  begin_stream w c run_id since_seq e =
      let reply =
        stream_reply run_id
          (stream_events w run_id (some since_seq) c.stream_backpressure_queue_size e) in
      if is_some (get_run_state run_id e.store) then reply else (e, stream_not_found)

module _ {Any : Type 0} where
  -- One pass of the loop, where the peer has or has not gone.
  unfoldable pub stream_pass : Bool → Reader Any × RunEventBus Any → Reader Any × RunEventBus Any
  unfolding read_event finish
  stream_pass gone (r, b) = if gone && r.is_open then finish (r, b) else read_event (r, b)
