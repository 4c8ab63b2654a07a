-- ===== src/Realtime/Manager/Bounds.antt =====
-- backend/app/realtime/manager.py: how many connections there are and how long their queues get.
use ai_soc.Base.{
  ℕ, suc, ◌≤◌, ◌≡◌, refl, sym, ap, subst, ◌⊎◌, inl, inr, not, List, [], ◌∷◌, ◌++◌, map, arith,
  length, length-append, length-filter, IsIn, IsIn-filter, leb, ltb, ◌==◌, ℕ-equality, Bool-cases,
}
use ai_soc.Base.Text.{Text}
use ai_soc.Realtime.Manager.{
  RealtimeConnection, RealtimeManager, queue_size, without, connect, disconnect, deliver, fan_out,
}

-- The capacity is kept and no queue is longer than its size.
abbrev pub IsBounded : RealtimeManager → Type 0
IsBounded m =
    (length m.connections ≤ m.max_connections)
    × ((c : RealtimeConnection) → IsIn c m.connections → length c.queue ≤ queue_size)

length-deliver :
    (p : Text) (q : List Text) → length q ≤ queue_size → length (deliver p q) ≤ queue_size
unfolding deliver
length-deliver p [] h = omega arith
length-deliver p (r ∷ q) h = elim (Bool-cases (leb queue_size (length (r ∷ q)))) [
  | inl full ↦ rw full (omega (arith, h, length-append q (p ∷ [])))
  | inr room ↦ rw room (ground (arith, room, length-append q (p ∷ [])))
]

length-map : {A B : Type 0} (f : A → B) (xs : List A) → length (map f xs) ≡ length xs
length-map f [] = refl
length-map f (x ∷ xs) = ap suc (length-map f xs)

IsIn-map :
    {A B : Type 0} (f : A → B) (b : B) (xs : List A)
    → IsIn b (map f xs)
    → (a : A) × (IsIn a xs × (f a ≡ b))
IsIn-map f b [] m = absurd m
IsIn-map f b (x ∷ xs) (inl e) = (x, (inl refl, e))
IsIn-map f b (x ∷ xs) (inr m) = let (a, (k, e)) = IsIn-map f b xs m in (a, (inr k, e))

IsIn-end : {A : Type 0} (a b : A) (xs : List A) → IsIn a (xs ++ b ∷ []) → IsIn a xs ⊎ (b ≡ a)
IsIn-end a b [] (inl e) = inr e
IsIn-end a b [] (inr m) = absurd m
IsIn-end a b (x ∷ xs) (inl e) = inl (inl e)
IsIn-end a b (x ∷ xs) (inr m) = elim (IsIn-end a b xs m) [ inl k ↦ inl (inr k) | inr e ↦ inr e ]

module _ (encoded_size : Text → ℕ) where
  -- Sockets connect and disconnect and messages arrive, in any order.
  pub data Reach (start : RealtimeManager) : RealtimeManager → Type 0 where
    here : Reach start start
    connects :
        {m : RealtimeManager} (websocket : ℕ) → Reach start m → Reach start (connect websocket m).0
    disconnects :
        {m : RealtimeManager} (websocket : ℕ) → Reach start m → Reach start (disconnect websocket m)
    fans_out :
        {m : RealtimeManager} (payload : Text)
        → Reach start m
        → Reach start (fan_out encoded_size payload m)

  connect-IsBounded :
      (websocket : ℕ) (m : RealtimeManager) → IsBounded m → IsBounded (connect websocket m).0
  unfolding connect
  connect-IsBounded websocket m (few, short) =
      elim (Bool-cases (leb m.max_connections (length m.connections))) [
        | inl full ↦ rw full (few, short)
        | inr room ↦ rw room (
          ground (
            arith,
            room,
            length-append (without websocket m.connections) (fresh ∷ []),
            length-filter (λ (c : RealtimeConnection). not (c.websocket == websocket))
                m.connections,
          ),
          λ c k. elim (IsIn-end c fresh (without websocket m.connections) k) [
            | inl old ↦
                short c
                  (IsIn-filter (λ (d : RealtimeConnection). not (d.websocket == websocket)) c
                    m.connections old).0
            | inr new ↦
                subst (λ (d : RealtimeConnection). length d.queue ≤ queue_size) new (omega arith)
          ],
        )
      ]
    where
      fresh : RealtimeConnection
      fresh = record { websocket = websocket; queue = [] }

  disconnect-IsBounded :
      (websocket : ℕ) (m : RealtimeManager) → IsBounded m → IsBounded (disconnect websocket m)
  unfolding disconnect
  disconnect-IsBounded websocket m (few, short) = (
    omega (
      arith,
      few,
      length-filter (λ (c : RealtimeConnection). not (c.websocket == websocket)) m.connections,
    ),
    λ c k.
        short c
          (IsIn-filter (λ (d : RealtimeConnection). not (d.websocket == websocket)) c m.connections
            k).0,
  )

  fan_out-IsBounded :
      (payload : Text) (m : RealtimeManager)
      → IsBounded m
      → IsBounded (fan_out encoded_size payload m)
  unfolding fan_out
  fan_out-IsBounded payload m (few, short) =
      elim (Bool-cases (ltb m.max_message_bytes (encoded_size payload))) [
        | inl large ↦ rw large (few, short)
        | inr fits ↦ rw fits (
          subst (λ n. n ≤ m.max_connections)
              (sym (
                length-map
                  (λ (c : RealtimeConnection). record c { queue = deliver payload c.queue })
                  m.connections))
              few,
          λ c k.
              let (d, (there, e)) =
                IsIn-map (λ (x : RealtimeConnection). record x { queue = deliver payload x.queue })
                  c m.connections k in
              subst (λ (x : RealtimeConnection). length x.queue ≤ queue_size) e
                (length-deliver payload d.queue (short d there)),
        )
      ]

  -- From a manager without connections, every reachable one has at most the connections that it is
  -- set to, and no queue of more than 100 messages.
  pub Reach-IsBounded :
      {start m : RealtimeManager} → start.connections ≡ [] → Reach start m → IsBounded m
  Reach-IsBounded {start} empty here = (
    subst (λ (cs : List RealtimeConnection). length cs ≤ start.max_connections) (sym empty)
        (omega arith),
    λ c k. absurd (subst (IsIn c) empty k),
  )
  Reach-IsBounded empty (connects {m} websocket r) =
      connect-IsBounded websocket m (Reach-IsBounded empty r)
  Reach-IsBounded empty (disconnects {m} websocket r) =
      disconnect-IsBounded websocket m (Reach-IsBounded empty r)
  Reach-IsBounded empty (fans_out {m} payload r) =
      fan_out-IsBounded payload m (Reach-IsBounded empty r)
