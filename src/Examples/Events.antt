-- ===== src/Examples/Events.antt =====
-- The theorems of the store, the API and the consumer at concrete inputs.
use minipush.Base.{
  ℕ, ◌+◌, ◌*◌, ◌≤◌, ◌<◌, Bool, true, false, Option, some, List, [], ◌∷◌, ◌≡◌, ◌⊎◌, ◌↔◌, refl, map,
  length, arith, All,
}
use minipush.Base.Int.{ℤ, pos, ◌+ℤ◌}
use minipush.Base.Keys.{int_eq}
use minipush.Proto.{WsConf, Error, GetEventsReq, no_client_msg, Block, E2eMsg}
use minipush.Store.Bits.{bool_slice_to_bytes, read_bits}
use minipush.Store.Bits.RoundTrip.{bool_slice_to_bytes_roundtrip}
use minipush.Store.ReadStates.{make_get_read_states_resp, entries, pairs}
use minipush.Store.ReadStates.Ascending.{make_get_read_states_resp-Ascending}
use minipush.Store.ReadStates.Descending.{
  Gapless, previous, make_get_read_states_resp-Descending_iff,
}
use minipush.Ws.Api.{EventStore, err, error_code_invalid_arguments, get_events, or_internal}
use minipush.Ws.Api.Checks.{IsServable, get_events-IsServable}
use minipush.Cluster.Storage.{UserSeq, Message, new_storage}
use minipush.Cluster.Storage.Consuming.{
  Answer, fetched, saved, committed, failed, canceled, other, start, consume,
}
use minipush.Cluster.Storage.Consuming.Order.{IsInOrder, consume-IsInOrder}

abbrev states : List Bool
states = true ∷ false ∷ true ∷ []

bool_slice_to_bytes_roundtrip_example :
    (read_bits 0 (length states) (bool_slice_to_bytes states) ≡ states)
    × (length states ≤ 8 * length (bool_slice_to_bytes states))
    × (8 * length (bool_slice_to_bytes states) < length states + 8)
    × All (λ b. b < 256) (bool_slice_to_bytes states)
bool_slice_to_bytes_roundtrip_example = bool_slice_to_bytes_roundtrip states

abbrev upwards : List ℕ
upwards = 2 ∷ 3 ∷ 7 ∷ []

make_get_read_states_resp-Ascending_example :
    (blocks : List Block) × (make_get_read_states_resp (map pos upwards) states ≡ some blocks)
    × (entries (λ z. z +ℤ pos 1) blocks ≡ pairs (map pos upwards) states)
make_get_read_states_resp-Ascending_example =
    make_get_read_states_resp-Ascending upwards states
      (omega arith, omega arith, (omega arith, omega arith, (omega arith, omega arith, tt))) refl

abbrev downwards : List ℕ
downwards = 3 ∷ 2 ∷ []

make_get_read_states_resp-Descending_iff_example :
    (block : Block) × (make_get_read_states_resp (map pos (7 ∷ downwards)) states
      ≡ some (block ∷ []))
    × ((entries previous (block ∷ []) ≡ pairs (map pos (7 ∷ downwards)) states)
        ↔ Gapless 7 downwards)
make_get_read_states_resp-Descending_iff_example =
    make_get_read_states_resp-Descending_iff 7 downwards states (omega arith) (omega arith)
      (omega arith, omega arith, (omega arith, omega arith, tt)) refl (omega arith)

abbrev conf : WsConf
conf = record {
  event_ttl_days = pos 30;
  get_events_limit = pos 100;
  enable_client_msg = true;
  max_msg_size = pos 4096;
}

abbrev wide : GetEventsReq
wide = record { from_seq = pos 1; to_seq = pos 1000000 }

abbrev backwards : GetEventsReq
backwards = record { from_seq = pos 500; to_seq = pos 1 }

-- A store that fails every call.
abbrev failing : EventStore Unit
failing = record {
  stats = λ _ _ _ s. (err "no rows", s);
  get_events = λ _ _ s. (err "no rows", s);
  set_read = λ _ _ s. (err "no rows", s);
  get_read_states = λ _ _ _ s. (err "no rows", s);
}

get_events-IsServable_example :
    (IsServable conf wide
      × (get_events conf failing (pos 7) wide tt
          ≡ or_internal
              (record no_client_msg { get_events = some wide })
              (failing.get_events (pos 7) wide tt)))
    ⊎ ((IsServable conf wide → ⊥)
        × ((e : Error) × (get_events conf failing (pos 7) wide tt ≡ (err e, tt))
            × (e.code ≡ error_code_invalid_arguments)
            × (e.req ≡ some (record no_client_msg { get_events = some wide }))))
get_events-IsServable_example =
    get_events-IsServable conf failing (pos 7) wide tt (omega arith, omega arith)
      (omega arith, omega arith)

abbrev quick : UserSeq
quick = record { head_seq = pos 9; counter = pos 4; cache_time = 1000 }

abbrev heads : List (ℤ × UserSeq)
heads = (pos 7, quick) ∷ (pos 8, record { head_seq = pos 2; counter = pos 1; cache_time = 0 }) ∷ []

abbrev msg : Message
msg = record { offset = pos 5; time = pos 1000; value = 123 ∷ 125 ∷ [] }

abbrev unmarshal : List ℕ → Option E2eMsg
unmarshal value = some (record { kind = ""; from = pos 0; to = pos 7 ∷ []; props = []; body = "" })

abbrev answers : List Answer
answers =
    fetched msg (pos 2000)
    ∷ failed (other false false)
    ∷ saved ((pos 7, pos 1) ∷ []) 5
    ∷ failed (other false false)
    ∷ committed
    ∷ failed canceled
    ∷ []

consume-IsInOrder_example :
    IsInOrder (consume unmarshal answers (start (new_storage true (pos 30) (pos 4096))))
consume-IsInOrder_example =
    consume-IsInOrder unmarshal answers (new_storage true (pos 30) (pos 4096))
