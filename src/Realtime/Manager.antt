-- ===== src/Realtime/Manager.antt =====
-- backend/app/realtime/manager.py: the connections and their queues. A connection is named by the
-- identity of its socket; the calls on the socket and the Redis listener around `_fan_out` are left
-- out.
pub mod Queue
pub mod Bounds
use ai_soc.Base.{
  ℕ, zero, suc, Bool, true, false, not, List, [], ◌∷◌, ◌++◌, map, Option, none, some, filter,
  length, leb, ltb, ◌==◌, ℕ-equality, if◌then◌else◌,
}
use ai_soc.Base.Text.{Text}

pub record RealtimeConnection : Type 0 where
  pub websocket : ℕ
  pub queue : List Text

pub record RealtimeManager : Type 0 where
  pub max_connections : ℕ
  pub max_message_bytes : ℕ
  pub connections : List RealtimeConnection

abbrev pub queue_size : ℕ
queue_size = 100

-- Without the entry of a key.
abbrev pub without : ℕ → List RealtimeConnection → List RealtimeConnection
without websocket cs = filter (λ c. not (c.websocket == websocket)) cs

unfoldable pub connect : ℕ → RealtimeManager → RealtimeManager × Option RealtimeConnection
connect websocket m =
    let c : RealtimeConnection = record { websocket = websocket; queue = [] } in
    if leb m.max_connections (length m.connections)
    then (m, none)
    else (record m { connections = without websocket m.connections ++ c ∷ [] }, some c)

unfoldable pub disconnect : ℕ → RealtimeManager → RealtimeManager
disconnect websocket m = record m { connections = without websocket m.connections }

abbrev pub drop_first : List Text → List Text
drop_first [] = []
drop_first (p ∷ q) = q

-- `put_nowait`, which makes room when the queue is full.
unfoldable pub deliver : Text → List Text → List Text
deliver payload q =
    if leb queue_size (length q) then drop_first q ++ payload ∷ [] else q ++ payload ∷ []

module _ (encoded_size : Text → ℕ) where
  -- `encoded_size` is the number of bytes of the text in UTF-8.
  unfoldable pub fan_out : Text → RealtimeManager → RealtimeManager
  fan_out payload m = if ltb m.max_message_bytes (encoded_size payload) then m else record m {
    connections =
        map (λ (c : RealtimeConnection). record c { queue = deliver payload c.queue })
          m.connections;
  }
