-- ===== src/Core/Control/Registered.antt =====
-- What holds of the control client whatever happens.
use yard.Prelude.{
  ℕ, ◌≡◌, ◌≤◌, refl, subst, sym, ap, Bool, true, false, Bool-cases, Option, none, some,
  Option-cases, inl, inr, List, [], ◌∷◌, ◌==◌, Text, arith, ◌∙◌,
}
use yard.Core.Control.{
  protocol_version, reconnect_max, CommandHandler, CoordinatorMessage, hello_ack, hello_reject,
  command, adb_auth_decision, ping, Phase, dialling, connected, sleeping, ControlClient, Event,
  dials, fails_to_dial, receives, receives_garbled, receives_ping, closes, breaks, sends, wakes,
  beats, pushes, new, send, disconnect, wake, dial, on_message, send_next, turn, step, run,
}

-- The connection was acknowledged.
abbrev pub is_acked : Phase → Bool
is_acked dialling = false
is_acked (connected none) = false
is_acked (connected (some interval)) = true
is_acked (sleeping delay) = false

module _ {S : Type 0} (Clear : S → Type 0) where
  -- Without a connection the handler has forgotten what the coordinator told it, and the client
  -- waits for its backoff.
  abbrev pub IsApart : Phase → S → ℕ → Type 0
  IsApart dialling s backoff = Clear s
  IsApart (connected beat) s backoff = Unit {0}
  IsApart (sleeping delay) s backoff = Clear s × (delay ≡ backoff)

  module _ {D V P : Type 0} where
    abbrev pub Well : ControlClient S D V P → Type 0
    Well c =
        (c.registered ≡ is_acked c.phase)
        × (1 ≤ c.backoff)
        × (c.backoff ≤ reconnect_max)
        × IsApart c.phase c.handler c.backoff

    abbrev pub AtEnd : Option (ControlClient S D V P) → Type 0
    AtEnd none = Unit {0}
    AtEnd (some c) = Well c

  module _ {C D V P : Type 0} (h : CommandHandler S C D V)
      (clears : (s : S) → Clear (h.on_disconnected s)) where
    disconnect-Well :
        (clean : Bool) (c : ControlClient S D V P)
        → 1 ≤ c.backoff
        → c.backoff ≤ reconnect_max
        → Well (disconnect h clean c)
    unfolding disconnect
    disconnect-Well true c a b = (refl, omega arith, omega arith, (clears c.handler, refl))
    disconnect-Well false c a b = (refl, a, b, (clears c.handler, refl))

    on_message-Well :
        (m : CoordinatorMessage C) (beat : Option ℕ) (c : ControlClient S D V P)
        → c.phase ≡ connected beat
        → Well c
        → Well (on_message h m c)
    unfolding on_message
    on_message-Well (hello_ack version interval url issuer origins) beat c e w =
        elim (Bool-cases (version == protocol_version)) [
          | inl same ↦ rw (same, on_message) (refl, w.1, w.2, tt)
          | inr other ↦ rw (other, on_message) (disconnect-Well false c w.1 w.2)
        ]
    on_message-Well (hello_reject reason) beat c e w = disconnect-Well false c w.1 w.2
    on_message-Well (command id p) beat c e w =
        (w.0, w.1, w.2, subst (λ x. IsApart x (h.handle p c.handler).1 c.backoff) (sym e) tt)
    on_message-Well (adb_auth_decision d) beat c e w = (
      w.0,
      w.1,
      w.2,
      subst (λ x. IsApart x (h.on_adb_auth_decision d c.handler) c.backoff) (sym e) tt,
    )
    on_message-Well ping beat c e w = w

    send_next-Well : (ms : List P) (c : ControlClient S D V P) → Well c → AtEnd (send_next ms c)
    send_next-Well [] c w = tt
    send_next-Well (m ∷ ms) c w = w

    turn-Well :
        (phase : Phase) (e : Event C P) (c : ControlClient S D V P)
        → c.phase ≡ phase
        → Well c
        → AtEnd (turn h phase e c)
    unfolding send dial wake
    turn-Well dialling (pushes m) c q w = w
    turn-Well (connected beat) (pushes m) c q w = w
    turn-Well (sleeping delay) (pushes m) c q w = w
    turn-Well dialling dials c q w = (w.0 ∙ ap is_acked q, w.1, w.2, tt)
    turn-Well dialling fails_to_dial c q w = disconnect-Well false c w.1 w.2
    turn-Well (connected beat) (receives m) c q w = on_message-Well m beat c q w
    turn-Well (connected beat) receives_garbled c q w = disconnect-Well false c w.1 w.2
    turn-Well (connected beat) receives_ping c q w = w
    turn-Well (connected beat) closes c q w = disconnect-Well true c w.1 w.2
    turn-Well (connected beat) breaks c q w = disconnect-Well false c w.1 w.2
    turn-Well (connected beat) sends c q w = send_next-Well c.queue c w
    turn-Well (connected (some interval)) (beats at) c q w = w
    turn-Well (sleeping delay) wakes c q w = (
      w.0 ∙ ap is_acked q,
      omega arith,
      omega arith,
      (subst (λ x. IsApart x c.handler c.backoff) q w.3).0,
    )
    turn-Well phase e c q w = tt

    run-AtEnd :
        (s : S) (issuer : Text) (es : List (Event C P)) → Clear s → AtEnd (run h es (new s issuer))
    unfolding run step new
    run-AtEnd s issuer [] k = (refl, omega arith, omega arith, k)
    run-AtEnd s issuer (e ∷ es) k = elim (Option-cases (run h es (new s issuer))) [
      | inl q ↦ rw (q, run) tt
      | inr (c, q) ↦
          rw (q, run) (turn-Well c.phase e c refl (subst AtEnd q (run-AtEnd s issuer es k)))
    ]

    -- In every history of the client, from a handler that has heard nothing of the coordinator: it
    -- counts as registered exactly in a connection that the coordinator acknowledged; its backoff is
    -- from 1 to 30 seconds, and what it waits for between two connections; and outside a connection
    -- its handler is clear of what the coordinator told it, where a disconnect clears the handler.
    pub run-Well :
        (s : S) (issuer : Text) (es : List (Event C P)) (c : ControlClient S D V P)
        → Clear s
        → run h es (new s issuer) ≡ some c
        → Well c
    run-Well s issuer es c k q = subst AtEnd q (run-AtEnd s issuer es k)
