-- ===== src/Tunnel/Sessions/Heartbeat.antt =====
-- How long a session lives whose peer is silent.
use http_tunnels.Prelude.{
  ℕ, ◌+◌, ◌<◌, true, false, some, List, [], ◌∷◌, ◌++◌, ◌≡◌, ◌⊎◌, inl, inr, refl, ap, ◌∙◌, arith,
}
use http_tunnels.Protocol.{frame_of, ping}
use http_tunnels.Protocol.Scheduler.{Outcome, returned, scheduler_closed, waits, enqueue_control}
use http_tunnels.Tunnel.Sessions.{
  TunnelSession, default_pong_wait, session_close, mark_activity, ack_pong, should_ping,
  note_ping_sent, should_close_for_missed_pong, after_ping, send_ping, heartbeat,
}

-- What happens to a session: a tick of the heartbeat, a frame in or out, an answer to the ping.
pub data Beat : Type 0 where
  ticks activity pongs : ℕ → Beat

beat : TunnelSession → Beat → TunnelSession
beat s (ticks now) = heartbeat s now
beat s (activity now) = mark_activity s now
beat s (pongs now) = ack_pong (mark_activity s now)

pub beats : TunnelSession → List Beat → TunnelSession
beats s [] = s
beats s (b ∷ bs) = beats (beat s b) bs

-- Closed, or without an answer to the ping of time `t`.
abbrev IsDoomed : ℕ → TunnelSession → Type 0
IsDoomed t s = (s.done ≡ true) ⊎ ((s.awaiting_pong ≡ true) × (s.ping_sent_at ≡ t))

session_close-done : (s : TunnelSession) → (session_close s).done ≡ true
unfolding session_close
session_close-done s = ground arith

-- No answer has come in.
abbrev IsSilent : List Beat → Type 0
IsSilent [] = Unit
IsSilent (pongs now ∷ bs) = ⊥
IsSilent (b ∷ bs) = IsSilent bs

heartbeat-IsDoomed : (t now : ℕ) (s : TunnelSession) → IsDoomed t s → IsDoomed t (heartbeat s now)
unfolding heartbeat should_ping
heartbeat-IsDoomed t now s d = ground (arith, session_close-done s)

beats-IsDoomed :
    (bs : List Beat) (t : ℕ) (s : TunnelSession)
    → IsSilent bs
    → IsDoomed t s
    → IsDoomed t (beats s bs)
unfolding beats beat
beats-IsDoomed [] t s q d = d
beats-IsDoomed (ticks now ∷ bs) t s q d =
    beats-IsDoomed bs t (heartbeat s now) q (heartbeat-IsDoomed t now s d)
beats-IsDoomed (activity now ∷ bs) t s q d = beats-IsDoomed bs t (mark_activity s now) q d
beats-IsDoomed (pongs now ∷ bs) t s q d = elim q [ ]

heartbeat-late :
    (t now : ℕ) (s : TunnelSession)
    → IsDoomed t s
    → t + default_pong_wait < now
    → (heartbeat s now).done ≡ true
unfolding heartbeat should_close_for_missed_pong
heartbeat-late t now s d late = ground (arith, session_close-done s)

beats-done : (bs : List Beat) (s : TunnelSession) → s.done ≡ true → (beats s bs).done ≡ true
unfolding beats beat heartbeat
beats-done [] s d = d
beats-done (ticks now ∷ bs) s d = beats-done bs (heartbeat s now) (ground arith)
beats-done (activity now ∷ bs) s d = beats-done bs (mark_activity s now) d
beats-done (pongs now ∷ bs) s d = beats-done bs (ack_pong (mark_activity s now)) d

beats-append : (bs cs : List Beat) (s : TunnelSession) → beats s (bs ++ cs) ≡ beats (beats s bs) cs
unfolding beats
beats-append [] cs s = refl
beats-append (b ∷ bs) cs s = beats-append bs cs (beat s b)

after_ping-IsDoomed :
    (t : ℕ) (out : Outcome Unit) (s : TunnelSession) → IsDoomed t s → IsDoomed t (after_ping out s)
unfolding after_ping
after_ping-IsDoomed t (returned _) s d = d
after_ping-IsDoomed t scheduler_closed s d = inl (session_close-done s)
after_ping-IsDoomed t waits s d = inl (session_close-done s)

send_ping-IsDoomed : (t : ℕ) (s : TunnelSession) → IsDoomed t (send_ping (note_ping_sent s t))
unfolding send_ping note_ping_sent
send_ping-IsDoomed t s =
    after_ping-IsDoomed t (enqueue_control s.outbound (some (frame_of ping ""))).0 _
      (inr (refl, refl))

heartbeat-dooms : (s : TunnelSession) (t : ℕ) → should_ping s t ≡ true → IsDoomed t (heartbeat s t)
unfolding heartbeat should_close_for_missed_pong
heartbeat-dooms s t quiet = ground (arith, session_close-done s, send_ping-IsDoomed t s)

-- A tick of the heartbeat that finds nothing in or out for 20 seconds, on a session without a
-- ping in the air, dooms it: unless the peer answers the ping, the session is closed by the first
-- tick that comes more than 60 seconds later, whatever other frames come in or go out meanwhile.
pub heartbeat-closes :
    (s : TunnelSession) (t now : ℕ) (during later : List Beat)
    → should_ping s t ≡ true
    → IsSilent during
    → t + default_pong_wait < now
    → (beats s (ticks t ∷ during ++ ticks now ∷ later)).done ≡ true
unfolding beats beat
heartbeat-closes s t now during later quiet silent late =
    let doomed = beats-IsDoomed during t (heartbeat s t) silent (heartbeat-dooms s t quiet) in
    let then_ = beats-append during (ticks now ∷ later) (heartbeat s t) in
    ap (λ u. u.done) then_
    ∙ beats-done later (heartbeat (beats (heartbeat s t) during) now)
        (heartbeat-late t now (beats (heartbeat s t) during) doomed late)

-- The heartbeat closes an open session only when a ping has waited for an answer for more than 60
-- seconds, or when the scheduler of the session is closed already.
heartbeat-spares :
    (s : TunnelSession) (now : ℕ)
    → s.done ≡ false
    → (heartbeat s now).done ≡ true
    → ((s.awaiting_pong ≡ true) × (s.ping_sent_at + default_pong_wait < now))
      ⊎ (s.outbound.closed ≡ true)
unfolding heartbeat should_close_for_missed_pong send_ping note_ping_sent enqueue_control after_ping
heartbeat-spares s now open_ h = ground arith
