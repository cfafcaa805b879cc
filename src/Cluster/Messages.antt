-- ===== src/Cluster/Messages.antt =====
-- Sending end-to-end messages to kafka: `saveE2eMsg` of cluster/util.go. JSON and kafka are given
-- from outside: a text is the list of its bytes, `none` is a failed call.
use minipush.Base.{ℕ, Bool, Option, none, some, List, ltb, length, if◌then◌else◌, ◌≡◌, ◌≤◌, arith}
use minipush.Proto.{E2eMsg}

-- The writer, with `json.Marshal`. `is_nil` tells that there is none: NewCluster and NewStandalone make
-- one only if EnableClientMsg is set.
pub record KafkaWriter : Type 0 where
  pub is_nil : Bool
  pub marshal : E2eMsg → Option (List ℕ)
  -- whether WriteMessages takes a message with this value
  pub write_messages : List ℕ → Bool

pub data SaveError : Type 0 where
  marshal_error exceeds_limit write_error : SaveError
  -- no error, but the panic of a call on a writer that is nil
  nil_writer : SaveError

-- What was handed to WriteMessages, and the error or the panic.
unfoldable pub save_e2e_msg : KafkaWriter → E2eMsg → ℕ → Option (List ℕ) × Option SaveError
save_e2e_msg writer msg limit = elim (writer.marshal msg) [
  | none ↦ (none, some marshal_error)
  | some value ↦
      if ltb limit (length value)
      then (none, some exceeds_limit)
      else if writer.is_nil
      then (none, some nil_writer)
      else if writer.write_messages value
      then (some value, none)
      else (some value, some write_error)
]

-- No value longer than the limit is handed to kafka.
pub save_e2e_msg-le-limit :
    (writer : KafkaWriter) (msg : E2eMsg) (limit : ℕ) (value : List ℕ)
    → (save_e2e_msg writer msg limit).0 ≡ some value
    → length value ≤ limit
unfolding save_e2e_msg
save_e2e_msg-le-limit writer msg limit value h = ground arith
