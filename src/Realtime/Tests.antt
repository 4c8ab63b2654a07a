-- ===== src/Realtime/Tests.antt =====
-- Runs of the connection manager, and its theorems at concrete inputs.
use ai_soc.Base.{◌≡◌, refl, [], ◌∷◌, arith, length}
use ai_soc.Base.Text.{codes}
use ai_soc.Realtime.Manager.{RealtimeManager, queue_size, connect, disconnect, deliver, fan_out}
use ai_soc.Realtime.Manager.Queue.{latest, deliver_all, deliver_all-latest}
use ai_soc.Realtime.Manager.Bounds.{
  IsBounded, Reach, here, connects, disconnects, fans_out, Reach-IsBounded,
}

abbrev start : RealtimeManager
start = record { max_connections = 1; max_message_bytes = 10; connections = [] }

abbrev joined : RealtimeManager
joined = record start { connections = record { websocket = 7; queue = codes "hello" ∷ [] } ∷ [] }

-- The second socket finds no room, and the long message is dropped.
manager_run :
    fan_out length
      (codes "much too long")
      (connect 8 (fan_out length (codes "hello") (connect 7 start).0)).0
    ≡ joined
unfolding connect fan_out deliver
manager_run = refl

abbrev run : Reach length start (disconnect 7 (fan_out length (codes "hello") (connect 7 start).0))
run = disconnects 7 (fans_out (codes "hello") (connects 7 here))

Reach-IsBounded_example :
    IsBounded (disconnect 7 (fan_out length (codes "hello") (connect 7 start).0))
Reach-IsBounded_example = Reach-IsBounded length refl run

deliver_all-latest_example :
    deliver_all (codes "b" ∷ codes "c" ∷ []) (codes "a" ∷ [])
    ≡ latest queue_size (codes "a" ∷ codes "b" ∷ codes "c" ∷ [])
deliver_all-latest_example =
    deliver_all-latest (codes "b" ∷ codes "c" ∷ []) (codes "a" ∷ []) (omega arith)
