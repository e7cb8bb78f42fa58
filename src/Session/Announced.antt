-- ===== src/Session/Announced.antt =====
-- moq-transport/src/session/announced.rs: an announced namespace on the side of the subscriber.
use linode_moq.Prelude.{ℕ, List, [], Option, none, some, Bool, true, false, if◌then◌else◌}
use linode_moq.Coding.Outcome.{Outcome, ok, err}
use linode_moq.Coding.Tuple.{Tuple}
use linode_moq.Message.Sides.{Subscriber, announce_ok, announce_cancel, announce_error}
use linode_moq.Watch.State.{StateInner, inner_new, modified, Round, returned, awaiting}
use linode_moq.Serve.Error.{ServeError, duplicate, cancel, done, serve_error_code}

-- The state that it shares with the session holds nothing: it has an address.
pub record Announced : Type 0 where
  pub state : ℕ
  pub namespace : Tuple
  pub is_ok : Bool
  pub error : Option ServeError

-- `Announced::new`, with the address of the new state and the state itself.
unfoldable pub announced_new : ℕ → Tuple → Announced × StateInner (Unit {0})
unfolding inner_new
announced_new address namespace =
    (record { state = address; namespace = namespace; is_ok = false; error = none }, inner_new tt)

-- `ok`, with the message that it sends.
unfoldable pub announced_ok : Announced → Outcome ServeError Subscriber × Announced
announced_ok a =
    if a.is_ok
    then (err duplicate, a)
    else (ok (announce_ok (record { namespace = a.namespace })), record a { is_ok = true })

-- A round of the loop of `closed`.
unfoldable pub announced_closed : StateInner (Unit {0}) → Round (Outcome ServeError (Unit {0}))
announced_closed s = elim (modified s) [ none ↦ returned (err cancel) | some c ↦ awaiting c ]

-- `close` notes the error; the drop that follows sends the message.
unfoldable pub announced_close : ServeError → Announced → Announced
announced_close e a = record a { error = some e }

unfoldable pub announced_error : Announced → ServeError
announced_error a = elim a.error [ none ↦ done | some e ↦ e ]

-- `Drop`: the message that it sends. The texts of errors are written by a derived `Display`.
unfoldable pub announced_drop : (ServeError → List ℕ) → Announced → Subscriber
unfolding announced_error serve_error_code
announced_drop to_string a =
    if a.is_ok
    then announce_cancel (record { namespace = a.namespace; error_code = 0; reason_phrase = [] })
    else announce_error (record {
      namespace = a.namespace;
      error_code = serve_error_code (announced_error a);
      reason_phrase = to_string (announced_error a);
    })
