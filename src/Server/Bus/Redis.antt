-- ===== src/Server/Bus/Redis.antt =====
-- internal/server/redis_bus.go: `Publish` and `Receive` of `RedisMessageBus`. What `json.Marshal` and
-- `json.Unmarshal` do is a parameter, and so is the channel: what one server sends into it is what the
-- others receive.
use im_system.Common.{◌≡◌, refl, true, Option, none, some, [], ◌∷◌, ◌++◌, Text}
use im_system.Server.{BusMessage, Server}
use im_system.Server.Broadcast.{publish}
use im_system.Server.Bus.{receive_from_bus}

pub record Json : Type 1 where
  pub marshal : BusMessage → Option Text
  pub unmarshal : Text → Option BusMessage
  -- Texts that are not UTF-8 are changed by the encoding.
  pub IsUtf8 : BusMessage → Type 0
  pub unmarshal-marshal :
      (msg : BusMessage) (payload : Text)
      → IsUtf8 msg
      → marshal msg ≡ some payload
      → unmarshal payload ≡ some msg

module _ (json : Json) where
  -- `Publish`: the payload that is sent into the channel, or the error of the encoding.
  unfoldable pub publish_to_channel : Text → BusMessage → Option Text
  publish_to_channel server_id msg = json.marshal (record msg { origin_id = server_id })

  -- `Receive`: the message of a payload, or the error of the decoding.
  unfoldable pub receive_from_channel : Text → Option BusMessage
  receive_from_channel payload = json.unmarshal payload

  -- A round of `startBusReceiver`; an error of `Receive` is logged.
  unfoldable pub receive_round : Server → Text → Server
  unfolding receive_from_channel
  receive_round s payload = elim (receive_from_channel payload) [
    | none ↦ s
    | some msg ↦ receive_from_bus s msg
  ]

  -- What a server is said to have published is what a server that reads the payload acts on.
  pub published_is_received :
      (s t : Server) (msg : BusMessage) (payload : Text)
      → s.has_bus ≡ true
      → json.IsUtf8 (record msg { origin_id = s.server_id })
      → publish_to_channel s.server_id msg ≡ some payload
      → (note : BusMessage) × ((publish s msg).published ≡ s.published ++ note ∷ [])
        × (receive_round t payload ≡ receive_from_bus t note)
  unfolding publish publish_to_channel receive_from_channel receive_round
  published_is_received s t msg payload has utf8 sent = (
    record msg { origin_id = s.server_id },
    rw has refl,
    rw
        (
          receive_round,
          json.unmarshal-marshal (record msg { origin_id = s.server_id }) payload utf8 sent,
        )
        refl,
  )
