-- ===== src/Relay/RefundTests.antt =====
-- A streamed request on a metered token, whose upstream service fails: the cost of it.
use cli_relay.Prelude.{◌≡◌, refl, arith, true, leb}
use cli_relay.Prelude.Int.{pos, ◌+ℤ◌}
use cli_relay.Billing.Quota.{quota_of}
use cli_relay.Billing.Tests.{metered, held, database, held-IsFound, newest}
use cli_relay.Json.{object, end}
use cli_relay.Relay.Access.{openai_chat}
use cli_relay.Relay.Handler.{consumed, handle_streaming}
use cli_relay.Relay.Http.{json}
use cli_relay.Relay.Refunds.{handle_streaming-quota}
use cli_relay.Relay.Settling.{Job, refund_on_error}
use cli_relay.Relay.State.{Relayer}
use cli_relay.Relay.Tests.{adaptor, services, channel, account, token, relayer}

abbrev billed : Relayer
billed = record relayer { db = database; has_billing = true }

abbrev job : Job
job = record {
  token = token;
  channel = channel;
  account = account "a1";
  adaptor = adaptor;
  url = "http://up";
  content = json (object end);
  creds = "a1";
  model = "gpt";
  from = openai_chat;
  to = openai_chat;
  started = pos 1;
  est_tokens = pos 100;
}

refused :
    leb 400
      (handle_streaming services
        (pos 7)
        (consumed services (pos 7) billed token (pos 100))
        job).response.status
    ≡ true
unfolding handle_streaming refund_on_error
refused = refl

handle_streaming-quota_example :
    quota_of
      (handle_streaming services
        (pos 7)
        (consumed services (pos 7) billed token (pos 100))
        job).relayer.db
      "tp1"
    ≡ quota_of database "tp1"
unfolding ◌+ℤ◌
handle_streaming-quota_example =
    handle_streaming-quota services (pos 7) billed job held metered refl held-IsFound newest
      (omega arith) (omega arith) (omega arith) refused "tp1"
