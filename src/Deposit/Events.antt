-- ===== src/Deposit/Events.antt =====
-- src/deposit/mod.rs: the event types of `mod events`, one constructor for each constant, their
-- wire names, and which of them are delivered to the app.
use gum_server.Prelude.{Bool, true, false, String}

pub data EventType : Type 0 where
  created watch_registered watch_lost reconciled detected payment_confirmed : EventType
  payment_orphaned ready settlement_submitted settlement_included : EventType
  settlement_retried settled failed expired : EventType

-- The text of the constant.
unfoldable pub wire_name : EventType → String
wire_name created = "deposit.created"
wire_name watch_registered = "deposit.watch_registered"
wire_name watch_lost = "deposit.watch_lost"
wire_name reconciled = "deposit.reconciled"
wire_name detected = "deposit.detected"
wire_name payment_confirmed = "deposit.payment_confirmed"
wire_name payment_orphaned = "deposit.payment_orphaned"
wire_name ready = "deposit.ready"
wire_name settlement_submitted = "deposit.settlement_submitted"
wire_name settlement_included = "deposit.settlement_included"
wire_name settlement_retried = "deposit.settlement_retried"
wire_name settled = "deposit.settled"
wire_name failed = "deposit.failed"
wire_name expired = "deposit.expired"

unfoldable pub is_app_facing : EventType → Bool
is_app_facing detected = true
is_app_facing payment_confirmed = true
is_app_facing payment_orphaned = true
is_app_facing ready = true
is_app_facing settled = true
is_app_facing failed = true
is_app_facing expired = true
is_app_facing _ = false

abbrev pub is_retried : EventType → Bool
is_retried settlement_retried = true
is_retried _ = false
